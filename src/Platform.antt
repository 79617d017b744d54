-- ===== src/Platform.antt =====
-- What the application stands on: the router, behind the trait of src/infrastructure/backend.rs, and
-- the host (clock, files, threads). All are interfaces over one state `W` of the world outside, and
-- a call returns its result and the world that it leaves.
use unetic_core.Prelude.{ℕ, String, Option, Bool, List, Map}
use unetic_core.Domain.Errors.{Fallible}
use unetic_core.Domain.Roaming.{RoamingConfig, AppliedRoamingConfig, RoamingRuntime}
use unetic_core.Domain.Wan.{WanDesired, WanPublicState}
use unetic_core.Domain.Device.{RegisteredDevice, Device, ExtenderClient}
use unetic_core.Domain.Services.{KnownExtender}
use unetic_core.Domain.Wifi.{WifiNetworkConfig}

abbrev pub Effect : Type 0 → Type 0 → Type 0
Effect W A = W → Fallible A × W

-- The methods of `RouterBackend` that the modelled operations call.
pub record RouterBackend (W : Type 0) : Type 0 where
  pub create_session : Effect W String
  pub destroy_session : String → Effect W (Unit {0})
  pub read_wifi_configs : List String → Option String → Effect W (Map WifiNetworkConfig)
  pub stage_wifi_config :
      String → List String → WifiNetworkConfig → RoamingConfig → Bool → Effect W (Unit {0})
  pub read_roaming_config : List String → Option String → Effect W AppliedRoamingConfig
  pub read_roaming_runtime : List String → String → RoamingConfig → W → RoamingRuntime × W
  pub read_wan_config : Option String → Effect W WanDesired
  pub stage_wan_config : String → WanDesired → Effect W (Unit {0})
  pub read_wan_runtime_status : Effect W WanPublicState
  pub revert_staged : String → Effect W (Unit {0})
  pub apply : String → ℕ → Effect W (Unit {0})
  pub confirm : String → Effect W (Unit {0})
  pub rollback : String → Effect W (Unit {0})
  pub runtime_healthy : List String → String → Effect W Bool
  pub reload_wireless_runtime : Effect W (Unit {0})

-- The methods of `RouterBackend` for the devices behind the router.
pub record DeviceBackend (W : Type 0) : Type 0 where
  pub read_devices : List KnownExtender → Map (List ExtenderClient) → Effect W (List Device)
  pub write_static_lease : String → String → Option String → Effect W (Unit {0})
  pub delete_static_lease : String → Effect W (Unit {0})
  pub sync_port_forwards : List RegisteredDevice → List Device → Effect W (Unit {0})

-- How a file was written: `create`, `write_all`, `sync_all` and `rename` went through and the
-- directory was synced; one of them failed before the new file took the place of the old; or the
-- directory could not be synced after it had. So too for the removal of a file.
pub data FileOutcome : Type 0 where
  done : FileOutcome
  failed_before failed_after : String → FileOutcome

-- `Instant::now()` and the wall clock, in milliseconds, `thread::sleep`, the files under the state
-- directory, and `thread::Builder::spawn`, which returns the message of an error.
pub record Host (W : Type 0) : Type 0 where
  pub instant : W → ℕ
  pub now_ms : W → ℕ
  pub sleep : ℕ → W → W
  pub write_file : String → W → FileOutcome × W
  pub remove_file : String → W → FileOutcome × W
  pub spawn : String → W → Option String × W
  pub show : ℕ → String

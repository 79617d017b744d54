-- ===== src/App/State.antt =====
-- src/application/app/mod.rs: the state behind the core's locks, and what is published of it
-- (src/domain/system/system_state.rs). Samples that no modelled operation reads are left out: system
-- information, traffic and DDNS status.
use unetic_core.Prelude.{ℕ, String, Option, Bool, List, Map, ◌^◌, ◌-◌, Eq}
use unetic_core.Domain.Errors.{LegacyAppError}
use unetic_core.Domain.Roaming.{RoamingConfig, AppliedRoamingConfig, RoamingRuntime}
use unetic_core.Domain.Wan.{WanPublicState}
use unetic_core.Domain.Wifi.{WifiNetworkConfig, MeshBackhaulConfig, RadioChannelConfig}
use unetic_core.Domain.Device.{RegisteredDevice, DeviceRuntime, ExtenderClient}
use unetic_core.Domain.Services.{
  DnsConfig, DdnsConfig, PhysicalPort, ScannedNetwork, PendingExtender,
}
use unetic_core.Domain.Operation.{PublicOperation, LastOperation, TransactionJournal}
use unetic_core.Domain.Config.{DesiredConfig, Lifecycle, HealthState}

pub record Timing : Type 0 where
  pub reconcile_interval : ℕ
  pub verify_timeout : ℕ
  pub verify_sample_delay : ℕ
  pub rollback_verify_timeout : ℕ
  pub rpcd_rollback_timeout_secs : ℕ

-- `Timing::default()`, in milliseconds but for the last field
abbrev pub default_timing : Timing
default_timing = record {
  reconcile_interval = 2_000;
  verify_timeout = 90_000;
  verify_sample_delay = 400;
  rollback_verify_timeout = 10_000;
  rpcd_rollback_timeout_secs = 120;
}

pub record Inner : Type 0 where
  pub config : DesiredConfig
  pub lifecycle : Lifecycle
  pub maintenance : Bool
  pub maintenance_exiting : Bool
  pub maintenance_reason : Option String
  pub observed_configs : Map WifiNetworkConfig
  pub observed_roaming : Option AppliedRoamingConfig
  pub roaming_runtime : RoamingRuntime
  pub runtime_healthy : Bool
  pub wan : WanPublicState
  pub active_operation : Option PublicOperation
  pub last_user_operation : Option LastOperation
  pub last_system_error : Option LegacyAppError
  pub event_seq : ℕ
  pub boot_id : String
  pub health : HealthState
  pub devices : Map DeviceRuntime
  pub repair_failures : ℕ
  pub extender_ports : Map (List PhysicalPort)
  pub extender_clients : Map (List ExtenderClient)
  pub latest_scans : Map (List ScannedNetwork)
  pub pending_extenders : List PendingExtender
  pub approved_pairings : Map String
  pub extender_pairing_key : String

pub data WifiStatus : Type 0 where
  synced drifted applying unknown : WifiStatus

pub record WifiPublicState : Type 0 where
  pub ssid : String
  pub encryption : String
  pub key : Option String
  pub targets : List String
  pub observed : Map String
  pub status : WifiStatus
  pub roaming : RoamingConfig
  pub roaming_runtime : RoamingRuntime
  pub backhaul : Option MeshBackhaulConfig
  pub radio_channels : List RadioChannelConfig

pub record MaintenanceState : Type 0 where
  pub enabled : Bool
  pub exiting : Bool
  pub reason : Option String

pub record DriftState : Type 0 where
  pub detected : Bool
  pub fields : List String

-- The fields that the modelled operations bear on. Left out are the version of the core, the samples of
-- the system, the devices seen and the traffic, the status of DDNS, the extenders with their ports,
-- clients and scans, and those that wait, and the status of pairing.
pub record PublicState : Type 0 where
  pub boot_id : String
  pub event_seq : ℕ
  pub revision : ℕ
  pub lifecycle : Lifecycle
  pub maintenance : MaintenanceState
  pub wifi : WifiPublicState
  pub wan : WanPublicState
  pub active_operation : Option PublicOperation
  pub last_user_operation : Option LastOperation
  pub last_system_error : Option LegacyAppError
  pub drift : DriftState
  pub health : HealthState
  pub registered_devices : List RegisteredDevice
  pub dns : DnsConfig
  pub ddns_config : DdnsConfig

pub data StateTopic : Type 0 where
  system_runtime wifi wan dns devices traffic ddns extenders operation maintenance : StateTopic
  reconciliation general : StateTopic

unfoldable pub StateTopic-discrete : Discrete StateTopic
StateTopic-discrete = hlevel

instance abbrev pub state_topic_eq : Eq StateTopic
state_topic_eq = record { dec_eq = StateTopic-discrete }

pub record PendingStateUpdate : Type 0 where
  pub state : PublicState
  pub topics : List StateTopic

pub record StateUpdateBuffer : Type 0 where
  pub pending : Option PendingStateUpdate
  pub last_sent_at : Option ℕ

-- The files of `StateStore`: the desired configuration, the running transaction and the inventory.
pub record StateStore : Type 0 where
  pub config : Option DesiredConfig
  pub transaction : Option TransactionJournal
  pub devices : Option (Map DeviceRuntime)

-- `App`, with what its receiver of events has been sent and the world behind its backend.
pub record App (W : Type 0) : Type 0 where
  pub inner : Inner
  pub store : StateStore
  pub events : List PublicState
  pub state_updates : StateUpdateBuffer
  pub op_counter : ℕ
  pub timing : Timing
  pub device_refreshing : Bool
  pub world : W

abbrev pub u64_max : ℕ
u64_max = 2 ^ 64 - 1

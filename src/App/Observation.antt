-- ===== src/App/Observation.antt =====
-- `refresh_observed` of src/application/state/mod.rs: what the router reports becomes the observed
-- state. It returns whether anything that is published changed.
use unetic_core.Prelude.{
  Bool, false, ◌||◌, Option, none, some, List, String, Map, ◌!=◌, string_eq, bool_eq, option_eq, ok,
  err, to_option, if◌then◌else◌, is_empty, Eq,
}
use unetic_core.Domain.Errors.{LegacyAppError, legacy_app_error_eq, Fallible}
use unetic_core.Domain.Roaming.{
  RoamingConfig, AppliedRoamingConfig, RoamingRuntime, applied_roaming_config_eq,
  roaming_runtime_eq,
}
use unetic_core.Domain.Wan.{WanPublicState, wan_public_state_eq}
use unetic_core.Domain.Wifi.{WifiNetworkConfig, wifi_network_config_eq}
use unetic_core.Platform.{RouterBackend}
use unetic_core.App.State.{Inner}
use unetic_core.App.Monad.{Action, ◌>>=◌, pure, gets, call, try, host_call}

unfoldable pub Observed-discrete : Discrete (Map WifiNetworkConfig)
Observed-discrete = hlevel (string_eq.dec_eq, wifi_network_config_eq.dec_eq)

instance abbrev pub observed_eq : Eq (Map WifiNetworkConfig)
observed_eq = record { dec_eq = Observed-discrete }

unfoldable pub note_wan : Fallible WanPublicState → Inner → Inner × Bool
note_wan (ok status) inner = (
  record inner { wan = status; health = record inner.health { wan = "ok" } },
  inner.wan != status || inner.health.wan != "ok",
)
note_wan (err error) inner = (
  record inner { health = record inner.health { wan = "error" }; last_system_error = some error },
  inner.health.wan != "error" || inner.last_system_error != some error,
)

abbrev is_true : Fallible Bool → Bool
is_true (ok value) = value
is_true (err error) = false

-- a runtime that cannot be read counts as unhealthy, and its error is remembered
abbrev runtime_error : Fallible Bool → Option LegacyAppError → Option LegacyAppError
runtime_error (ok value) last = last
runtime_error (err error) last = some error

differs : Fallible Bool → Option LegacyAppError → Bool
differs (ok value) last = false
differs (err error) last = last != some error

unfoldable pub note_wifi :
    Map WifiNetworkConfig
    → Option AppliedRoamingConfig
    → RoamingRuntime
    → Fallible Bool
    → Bool
    → Inner
    → Inner × Bool
unfolding differs
note_wifi configs roaming roaming_runtime healthy wan_changed inner =
    let runtime = is_true healthy in
    let wireless_health : String = if runtime then "ok" else "error" in
    (
      record inner {
        observed_configs = configs;
        observed_roaming = roaming;
        roaming_runtime = roaming_runtime;
        runtime_healthy = runtime;
        health = record inner.health { wireless = wireless_health };
        last_system_error = runtime_error healthy inner.last_system_error;
      },
      inner.observed_configs != configs
          || inner.runtime_healthy != runtime
          || inner.observed_roaming != roaming
          || inner.roaming_runtime != roaming_runtime
          || inner.health.wireless != wireless_health
          || wan_changed
          || differs healthy inner.last_system_error,
    )

unfoldable pub note_wifi_error : LegacyAppError → RoamingRuntime → Bool → Inner → Inner × Bool
note_wifi_error error roaming_runtime wan_changed inner = (
  record inner {
    health = record inner.health { wireless = "error" };
    observed_roaming = none;
    roaming_runtime = roaming_runtime;
    last_system_error = some error;
  },
  inner.health.wireless != "error" || wan_changed || inner.last_system_error != some error,
)

module _ {W : Type 0} ⦃backend : RouterBackend W⦄ where
  unfoldable pub with_inner : (Inner → Inner × Bool) → Action W Bool
  with_inner f s = let (inner, changed) = f s.inner in pure changed (record s { inner = inner })

  unfoldable pub observe_wifi :
      List String
      → WifiNetworkConfig
      → RoamingConfig
      → Bool
      → Fallible (Map WifiNetworkConfig)
      → Action W Bool
  unfolding note_wifi note_wifi_error
  observe_wifi targets desired roaming wan_changed (ok configs) = do
    observed_roaming ← try (call (backend.read_roaming_config targets none))
    roaming_runtime ← host_call (backend.read_roaming_runtime targets desired.ssid roaming)
    healthy ← try (call (backend.runtime_healthy targets desired.ssid))
    with_inner (note_wifi configs (to_option observed_roaming) roaming_runtime healthy wan_changed)
  observe_wifi targets desired roaming wan_changed (err error) = do
    roaming_runtime ← host_call (backend.read_roaming_runtime targets desired.ssid roaming)
    with_inner (note_wifi_error error roaming_runtime wan_changed)

  unfoldable pub refresh_observed : Action W Bool
  unfolding note_wan
  refresh_observed = do
    desired ← gets (λ s. s.inner.config.wifi.primary)
    roaming ← gets (λ s. s.inner.config.wifi.roaming)
    let targets = desired.targets
    wan_observation ← try (call backend.read_wan_runtime_status)
    wan_changed ← with_inner (note_wan wan_observation)
    if is_empty targets then pure wan_changed else do
      configs ← try (call (backend.read_wifi_configs targets none))
      observe_wifi targets desired roaming wan_changed configs

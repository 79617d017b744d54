-- ===== src/Memory/Apply.antt =====
-- The other methods of src/infrastructure/backend/memory/router.rs and wan.rs: the WAN, and what changes
-- the committed configuration.
use unetic_core.Prelude.{
  ℕ, Bool, true, false, not, ◌&&◌, Option, none, some, List, String, Map, get, insert, remove,
  is_empty, ok, err, if◌then◌else◌,
}
use unetic_core.Domain.Errors.{
  new_error, retryable, ErrorStage, validate, transport, uci_apply_failed, confirm_failed,
  rollback_failed, invalid_argument, ubus_unavailable,
}
use unetic_core.Domain.Roaming.{RoamingConfig, default_roaming}
use unetic_core.Domain.Wan.{WanDesired, WanPublicState, WanProtocol, connected, not_configured}
use unetic_core.Domain.Wifi.{WifiNetworkConfig}
use unetic_core.Domain.Traffic.{TrafficCounters, SwitchState}
use unetic_core.Platform.{Effect, RouterBackend}
use unetic_core.Memory.State.{MemoryState}
use unetic_core.Memory.Router.{
  create_session, destroy_session, read_wifi_configs, stage_wifi_config, read_roaming_config,
  read_roaming_runtime, open_session, in_session, stage_failure, session_lost,
}

unfoldable pub read_wan_config : Option String → Effect MemoryState WanDesired
read_wan_config none m = (ok m.wan_committed, m)
read_wan_config (some session) m =
    if m.failure.fail_wan_candidate_verify
    then (ok m.wan_committed, m)
    else (ok (in_session m.wan_sessions m.wan_committed (some session)), m)

unfoldable pub stage_wan_config : String → WanDesired → Effect MemoryState (Unit {0})
stage_wan_config session config m =
    if m.failure.fail_stage
    then (err stage_failure, m)
    else (ok tt, record m { wan_sessions = insert session config m.wan_sessions })

unfoldable pub read_wan_runtime_status : Effect MemoryState WanPublicState
read_wan_runtime_status m =
    if m.failure.fail_wan_runtime_read
    then (
      err (
          retryable (new_error ubus_unavailable transport "injected WAN runtime read failure")
            true),
      m,
    )
    else (ok m.wan_runtime, m)

unfoldable pub revert_staged : String → Effect MemoryState (Unit {0})
unfolding open_session
revert_staged session m = (ok tt, open_session session m)

-- The runtime state of the WAN under a configuration.
unfoldable pub run_wan : WanDesired → WanPublicState → WanPublicState
run_wan wan runtime =
    if wan.present
    then record runtime { present = true; proto = wan.proto; status = connected; qos = wan.qos }
    else record runtime {
      present = false;
      proto = WanProtocol.none;
      status = not_configured;
      qos = Option.none;
    }

abbrev pub or_roaming : Option RoamingConfig → RoamingConfig
or_roaming Option.none = default_roaming
or_roaming (some roaming) = roaming

unfoldable pub apply_staged : String → Map WifiNetworkConfig → MemoryState → MemoryState
unfolding run_wan
apply_staged session staged m =
    let wan_staged = in_session m.wan_sessions m.wan_committed (some session) in
    record m {
      rollback_snapshots = insert session m.committed m.rollback_snapshots;
      roaming_rollback_snapshots = insert session m.roaming_committed m.roaming_rollback_snapshots;
      roaming_committed = or_roaming (get m.roaming_sessions session);
      committed = staged;
      wan_rollback_snapshots = insert session m.wan_committed m.wan_rollback_snapshots;
      wan_runtime = run_wan wan_staged m.wan_runtime;
      wan_committed = wan_staged;
    }

unfoldable pub apply : String → ℕ → Effect MemoryState (Unit {0})
unfolding apply_staged
apply session rollback_timeout_secs m =
    if m.failure.fail_apply
    then (err (new_error uci_apply_failed ErrorStage.apply "injected apply failure"), m)
    else elim (get m.sessions session) [
      | Option.none ↦ (err (session_lost ErrorStage.apply), m)
      | some staged ↦ (ok tt, apply_staged session staged m)
    ]

unfoldable pub confirm : String → Effect MemoryState (Unit {0})
confirm session m =
    if m.failure.fail_confirm
    then (err (new_error confirm_failed ErrorStage.confirm "injected confirm failure"), m)
    else (
      ok tt,
      record m {
        rollback_snapshots = remove session m.rollback_snapshots;
        roaming_rollback_snapshots = remove session m.roaming_rollback_snapshots;
        wan_rollback_snapshots = remove session m.wan_rollback_snapshots;
      },
    )

unfoldable pub restore_wifi : String → MemoryState → Option (Map WifiNetworkConfig) → MemoryState
restore_wifi session m Option.none = m
restore_wifi session m (some snapshot) = record m {
  rollback_snapshots = remove session m.rollback_snapshots;
  committed = snapshot;
  sessions = insert session snapshot m.sessions;
}

unfoldable pub rollback_wifi : String → MemoryState → MemoryState
unfolding restore_wifi
rollback_wifi session m = restore_wifi session m (get m.rollback_snapshots session)

unfoldable pub restore_roaming : String → MemoryState → Option (RoamingConfig) → MemoryState
restore_roaming session m Option.none = m
restore_roaming session m (some snapshot) = record m {
  roaming_rollback_snapshots = remove session m.roaming_rollback_snapshots;
  roaming_committed = snapshot;
  roaming_sessions = insert session snapshot m.roaming_sessions;
}

unfoldable pub rollback_roaming : String → MemoryState → MemoryState
unfolding restore_roaming
rollback_roaming session m = restore_roaming session m (get m.roaming_rollback_snapshots session)

unfoldable pub restore_wan : String → MemoryState → Option (WanDesired) → MemoryState
unfolding run_wan
restore_wan session m Option.none = m
restore_wan session m (some snapshot) = record m {
  wan_rollback_snapshots = remove session m.wan_rollback_snapshots;
  wan_runtime = run_wan snapshot m.wan_runtime;
  wan_committed = snapshot;
  wan_sessions = insert session snapshot m.wan_sessions;
}

unfoldable pub rollback_wan : String → MemoryState → MemoryState
unfolding restore_wan
rollback_wan session m = restore_wan session m (get m.wan_rollback_snapshots session)

unfoldable pub rollback : String → Effect MemoryState (Unit {0})
unfolding rollback_wifi rollback_roaming rollback_wan
rollback session m =
    if m.failure.fail_rollback
    then (err (new_error rollback_failed ErrorStage.rollback "injected rollback failure"), m)
    else (ok tt, rollback_wan session (rollback_roaming session (rollback_wifi session m)))

unfoldable pub runtime_healthy : List String → String → Effect MemoryState Bool
runtime_healthy targets name m =
    if m.failure.runtime_unhealthy
    then (ok false, m)
    else if m.failure.fail_candidate_verify && not (is_empty m.rollback_snapshots)
    then (ok false, m)
    else (ok true, m)

unfoldable pub reload_wireless_runtime : Effect MemoryState (Unit {0})
reload_wireless_runtime m =
    (ok tt, record m { failure = record m.failure { runtime_unhealthy = false } })

unfoldable pub read_traffic_counters : Effect MemoryState TrafficCounters
read_traffic_counters m = (ok m.traffic_counters, m)

unfoldable pub read_switch_state : Effect MemoryState SwitchState
read_switch_state m = (ok m.switch_state, m)

abbrev switch_to : Bool → SwitchState → SwitchState
switch_to on switch = record { hw_offload = record switch.hw_offload { enabled = on } }

unfoldable pub set_hw_offload : Bool → Effect MemoryState SwitchState
set_hw_offload enabled m =
    if enabled && not m.switch_state.hw_offload.available
    then (err (new_error invalid_argument validate "hardware flow offload is unavailable"), m)
    else if m.failure.fail_switch_reload
    then (err (new_error uci_apply_failed ErrorStage.apply "injected firewall reload failure"), m)
    else (
      ok (switch_to enabled m.switch_state),
      record m { switch_state = switch_to enabled m.switch_state },
    )

-- The router in memory, as the router that the core drives.
abbrev pub memory_backend : (ℕ → String) → RouterBackend MemoryState
memory_backend show = record {
  create_session = create_session show;
  destroy_session = destroy_session;
  read_wifi_configs = read_wifi_configs;
  stage_wifi_config = stage_wifi_config;
  read_roaming_config = read_roaming_config;
  read_roaming_runtime = read_roaming_runtime;
  read_wan_config = read_wan_config;
  stage_wan_config = stage_wan_config;
  read_wan_runtime_status = read_wan_runtime_status;
  revert_staged = revert_staged;
  apply = apply;
  confirm = confirm;
  rollback = rollback;
  runtime_healthy = runtime_healthy;
  reload_wireless_runtime = reload_wireless_runtime;
}

-- ===== src/Memory/State.antt =====
-- src/infrastructure/backend/memory/mod.rs: the state of the router in memory, and what a test does to
-- it from outside.
use unetic_core.Prelude.{
  ℕ, Bool, true, false, Option, none, some, List, [], ◌∷◌, map, String, Map, get, insert, collect,
  if◌then◌else◌,
}
use unetic_core.Domain.Roaming.{RoamingConfig, default_roaming}
use unetic_core.Domain.Wan.{WanDesired, WanPublicState, default_wan, connected, not_configured}
use unetic_core.Domain.Wifi.{WifiNetworkConfig, default_wifi_network}
use unetic_core.Domain.Traffic.{TrafficBytes, TrafficCounters, SwitchState, no_bytes, add_bytes}

pub record FailurePlan : Type 0 where
  pub fail_stage : Bool
  pub fail_apply : Bool
  pub fail_confirm : Bool
  pub fail_rollback : Bool
  pub fail_candidate_verify : Bool
  pub fail_wan_candidate_verify : Bool
  pub fail_wan_runtime_read : Bool
  pub fail_switch_reload : Bool
  pub runtime_unhealthy : Bool

abbrev pub default_plan : FailurePlan
default_plan = record {
  fail_stage = false;
  fail_apply = false;
  fail_confirm = false;
  fail_rollback = false;
  fail_candidate_verify = false;
  fail_wan_candidate_verify = false;
  fail_wan_runtime_read = false;
  fail_switch_reload = false;
  runtime_unhealthy = false;
}

pub record MemoryState : Type 0 where
  pub committed : Map WifiNetworkConfig
  pub wan_committed : WanDesired
  pub sessions : Map (Map WifiNetworkConfig)
  pub wan_sessions : Map WanDesired
  pub rollback_snapshots : Map (Map WifiNetworkConfig)
  pub roaming_committed : RoamingConfig
  pub roaming_sessions : Map RoamingConfig
  pub roaming_rollback_snapshots : Map RoamingConfig
  pub wan_rollback_snapshots : Map WanDesired
  pub wan_runtime : WanPublicState
  pub next_session : ℕ
  pub failure : FailurePlan
  pub traffic_counters : TrafficCounters
  pub switch_state : SwitchState

abbrev when_present {ℓ} : {A : Type ℓ} → Bool → A → Option A
when_present present a = if present then some a else none

unfoldable pub with_wifi_and_wan : WifiNetworkConfig → List String → WanDesired → MemoryState
with_wifi_and_wan wifi targets wan = record {
  committed = collect (λ target. record wifi { targets = target ∷ [] }) targets;
  wan_committed = wan;
  sessions = [];
  wan_sessions = [];
  rollback_snapshots = [];
  roaming_committed = default_roaming;
  roaming_sessions = [];
  roaming_rollback_snapshots = [];
  wan_rollback_snapshots = [];
  wan_runtime = record {
    present = wan.present;
    proto = wan.proto;
    status = if wan.present then connected else not_configured;
    device = wan.device;
    ip_address = when_present wan.present "203.0.113.10";
    netmask = when_present wan.present "255.255.255.0";
    gateway = when_present wan.present "203.0.113.1";
    dns = if wan.present then "1.1.1.1" ∷ "1.0.0.1" ∷ [] else [];
    mac_address = some "00:11:22:33:44:55";
    uptime_secs = 1200;
    error_reason = none;
    qos = wan.qos;
  };
  next_session = 1;
  failure = default_plan;
  traffic_counters = record { wan = no_bytes; lan = no_bytes };
  switch_state = record { hw_offload = record { available = true; enabled = false } };
}

unfoldable pub with_wan : String → List String → WanDesired → MemoryState
unfolding with_wifi_and_wan
with_wan ssid targets wan =
    with_wifi_and_wan (record { ssid = ssid; encryption = "none"; key = none; targets = targets })
      targets wan

unfoldable pub new : String → List String → MemoryState
unfolding with_wan
new ssid targets = with_wan ssid targets default_wan

unfoldable pub set_failure_plan : FailurePlan → MemoryState → MemoryState
set_failure_plan plan m = record m { failure = plan }

unfoldable pub advance_traffic : TrafficBytes → TrafficBytes → MemoryState → MemoryState
advance_traffic wan_bytes lan_bytes m = record m {
  traffic_counters = record {
    wan = add_bytes m.traffic_counters.wan wan_bytes;
    lan = add_bytes m.traffic_counters.lan lan_bytes;
  };
}

unfoldable pub set_hw_offload_available : Bool → MemoryState → MemoryState
set_hw_offload_available is_available m = record m {
  switch_state = record {
    hw_offload = record m.switch_state.hw_offload { available = is_available };
  };
}

unfoldable pub committed_ssids : MemoryState → Map String
committed_ssids m = map (λ entry. (entry.0, entry.1.ssid)) m.committed

unfoldable pub external_set : String → WifiNetworkConfig → MemoryState → MemoryState
external_set target config m = record m { committed = insert target config m.committed }

abbrev or_default : Option WifiNetworkConfig → WifiNetworkConfig
or_default none = default_wifi_network
or_default (some config) = config

unfoldable pub external_set_ssid : String → String → MemoryState → MemoryState
external_set_ssid target name m = record m {
  committed =
      insert target (record (or_default (get m.committed target)) { ssid = name }) m.committed;
}

unfoldable pub external_set_roaming : RoamingConfig → MemoryState → MemoryState
external_set_roaming roaming m = record m { roaming_committed = roaming }

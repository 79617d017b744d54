-- ===== src/Memory/Router.antt =====
-- src/infrastructure/backend/memory/router.rs and wan.rs: the router in memory behind the router
-- interface. A method takes the lock of the state once, so a call is one step over it; the decimal form of a
-- number is the standard library's.
use Prim.Native.String.{◌++◌}
use unetic_core.Prelude.{
  ℕ, ◌+◌, Bool, true, false, ◌||◌, ◌^◌, ◌%◌, leb, Option, none, some, List, [], ◌∷◌, map, String,
  Map, get, insert, remove, contains_key, length, any, ◌!=◌, ok, err, string_eq, option_eq,
  if◌then◌else◌,
}
use unetic_core.Domain.Errors.{
  LegacyAppError, Fallible, new_error, ErrorStage, bootstrap, stage, verify, ambiguous_wifi_config,
  target_missing, uci_stage_failed, rpcd_session_lost,
}
use unetic_core.Domain.Roaming.{
  RoamingConfig, RoamingRuntime, AppliedRoamingConfig, compile_applied_roaming, ready,
}
use unetic_core.Domain.Wan.{DiscoveredWan}
use unetic_core.Domain.Wifi.{WifiNetworkConfig, DiscoveredWifi}
use unetic_core.Platform.{Effect}
use unetic_core.Memory.State.{MemoryState}

ambiguous : String → LegacyAppError
ambiguous message = new_error ambiguous_wifi_config bootstrap message

abbrev differs_from : WifiNetworkConfig → String × WifiNetworkConfig → Bool
differs_from first (target, c) =
    c.ssid != first.ssid || c.encryption != first.encryption || c.key != first.key

unfoldable pub discover_configs : Map WifiNetworkConfig → Fallible DiscoveredWifi
unfolding ambiguous
discover_configs [] = err (ambiguous "no AP targets found")
discover_configs ((target, first) ∷ others) =
    if any (differs_from first) others
    then err (ambiguous "managed APs do not share one Wi-Fi configuration")
    else ok (record {
      ssid = first.ssid;
      encryption = first.encryption;
      key = first.key;
      targets = target ∷ map (λ entry. entry.0) others;
      backhaul = none;
      radio_channels = [];
    })

unfoldable pub discover_primary_wifi : Effect MemoryState DiscoveredWifi
unfolding discover_configs
discover_primary_wifi m = (discover_configs m.committed, m)

unfoldable pub discover_primary_wan : Effect MemoryState DiscoveredWan
discover_primary_wan m = (
  ok (record {
    present = m.wan_committed.present;
    device = m.wan_committed.device;
    proto = m.wan_committed.proto;
    custom_mac = m.wan_committed.custom_mac;
    custom_mtu = m.wan_committed.custom_mtu;
    custom_dns = m.wan_committed.custom_dns;
    static_config = m.wan_committed.static_config;
    pppoe_config = m.wan_committed.pppoe_config;
    qos = m.wan_committed.qos;
  }),
  m,
)

unfoldable pub open_session : String → MemoryState → MemoryState
open_session sid m = record m {
  sessions = insert sid m.committed m.sessions;
  roaming_sessions = insert sid m.roaming_committed m.roaming_sessions;
  wan_sessions = insert sid m.wan_committed m.wan_sessions;
}

unfoldable pub create_session : (ℕ → String) → Effect MemoryState String
unfolding open_session
create_session show m =
    let sid = "memory-session-" ++ show m.next_session in
    (ok sid, open_session sid (record m { next_session = (m.next_session + 1) % 2 ^ 64 }))

unfoldable pub destroy_session : String → Effect MemoryState (Unit {0})
destroy_session session m = (
  ok tt,
  record m {
    sessions = remove session m.sessions;
    wan_sessions = remove session m.wan_sessions;
    rollback_snapshots = remove session m.rollback_snapshots;
    roaming_sessions = remove session m.roaming_sessions;
    roaming_rollback_snapshots = remove session m.roaming_rollback_snapshots;
    wan_rollback_snapshots = remove session m.wan_rollback_snapshots;
  },
)

-- `session.and_then(|id| sessions.get(id)).unwrap_or(committed)`
abbrev pub in_session {ℓ} : {A : Type ℓ} → Map A → A → Option String → A
in_session sessions committed none = committed
in_session sessions committed (some session) = elim (get sessions session) [
  | none ↦ committed
  | some staged ↦ staged
]

unfoldable pub missing_target : ErrorStage → String → LegacyAppError
missing_target at target = new_error target_missing at ("missing target " ++ target)

unfoldable pub read_targets :
    Map WifiNetworkConfig → Map WifiNetworkConfig → List String → Fallible (Map WifiNetworkConfig)
read_targets source found [] = ok found
read_targets source found (target ∷ targets) = elim (get source target) [
  | none ↦ err (missing_target verify target)
  | some config ↦ read_targets source (insert target config found) targets
]

unfoldable pub read_wifi_configs :
    List String → Option String → Effect MemoryState (Map WifiNetworkConfig)
unfolding read_targets
read_wifi_configs targets session m =
    (read_targets (in_session m.sessions m.committed session) [] targets, m)

abbrev pub stage_failure : LegacyAppError
stage_failure = new_error uci_stage_failed stage "injected stage failure"

abbrev pub session_lost : ErrorStage → LegacyAppError
session_lost at = new_error rpcd_session_lost at "session not found"

-- The targets that come before a missing one are staged.
unfoldable pub stage_targets :
    WifiNetworkConfig
    → Map WifiNetworkConfig
    → List String
    → Fallible (Unit {0}) × Map WifiNetworkConfig
stage_targets config staged [] = (ok tt, staged)
stage_targets config staged (target ∷ targets) = elim (contains_key staged target) [
  | false ↦ (err (missing_target stage target), staged)
  | true ↦
      stage_targets config (insert target (record config { targets = target ∷ [] }) staged) targets
]

unfoldable pub note_staged :
    String
    → RoamingConfig
    → MemoryState
    → Fallible (Unit {0}) × Map WifiNetworkConfig
    → Fallible (Unit {0}) × MemoryState
note_staged session roaming m (err e, staged) =
    (err e, record m { sessions = insert session staged m.sessions })
note_staged session roaming m (ok u, staged) = (
  ok u,
  record m {
    sessions = insert session staged m.sessions;
    roaming_sessions = insert session roaming m.roaming_sessions;
  },
)

unfoldable pub stage_wifi_config :
    String → List String → WifiNetworkConfig → RoamingConfig → Bool → Effect MemoryState (Unit {0})
unfolding stage_targets note_staged
stage_wifi_config session targets config roaming is_extender m =
    if m.failure.fail_stage then (err stage_failure, m) else elim (get m.sessions session) [
      | none ↦ (err (session_lost stage), m)
      | some staged ↦ note_staged session roaming m (stage_targets config staged targets)
    ]

unfoldable pub first_config : Map WifiNetworkConfig → List String → Fallible WifiNetworkConfig
first_config configs [] = err (new_error target_missing verify "managed Wi-Fi target is missing")
first_config configs (target ∷ targets) = elim (get configs target) [
  | none ↦ err (new_error target_missing verify "managed Wi-Fi target is missing")
  | some config ↦ ok config
]

unfoldable pub applied_roaming :
    RoamingConfig → Map WifiNetworkConfig → List String → Fallible AppliedRoamingConfig
unfolding first_config
applied_roaming roaming configs targets = elim (first_config configs targets) [
  | err e ↦ err e
  | ok first ↦ ok (compile_applied_roaming roaming first.ssid first.encryption targets)
]

unfoldable pub read_roaming_config :
    List String → Option String → Effect MemoryState AppliedRoamingConfig
unfolding applied_roaming
read_roaming_config targets session m = (
  applied_roaming (in_session m.roaming_sessions m.roaming_committed session)
      (in_session m.sessions m.committed session) targets,
  m,
)

abbrev u32_max : ℕ
u32_max = 0xffff_ffff

unfoldable pub read_roaming_runtime :
    List String → String → RoamingConfig → MemoryState → RoamingRuntime × MemoryState
read_roaming_runtime targets name roaming m = (
  record {
    available = true;
    local_bss = if leb (length targets) u32_max then length targets else u32_max;
    remote_bss = 0;
    status = ready;
    error = none;
  },
  m,
)

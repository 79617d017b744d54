-- ===== src/App/Publisher.antt =====
-- The first half of src/application/state/mod.rs: the snapshot of the state that clients see, and the
-- buffer that holds the latest snapshot back.
use Prim.Native.String.{◌++◌}
use unetic_core.Prelude.{
  ℕ, ◌+◌, ◌-◌, Bool, true, false, not, ◌&&◌, Option, none, some, List, [], ◌∷◌, String, Map, get,
  ◌==◌, ◌!=◌, string_eq, option_eq, if◌then◌else◌, leb, is_empty, any,
}
use mathlib.Core.List
use unetic_core.Domain.Roaming.{compile_applied_roaming, applied_roaming_config_eq}
use unetic_core.Domain.Wifi.{WifiNetworkConfig}
use unetic_core.Platform.{Host}
use unetic_core.App.State.{
  App, Inner, PublicState, StateTopic, state_topic_eq, StateUpdateBuffer, PendingStateUpdate,
  WifiStatus, synced, drifted, applying, unknown, u64_max,
}
use unetic_core.App.Monad.{Action, returns}

drift_field : String → String → String
drift_field target field = "wifi.primary.targets." ++ target ++ field

when_drifted : Bool → String → List String
when_drifted true field = field ∷ []
when_drifted false field = []

target_drift : WifiNetworkConfig → String → Option WifiNetworkConfig → List String
unfolding drift_field when_drifted
target_drift desired target none = drift_field target ".ssid" ∷ []
target_drift desired target (some obs) =
    List.◌++◌ (when_drifted (obs.ssid != desired.ssid) (drift_field target ".ssid")) (
      List.◌++◌
        (when_drifted (obs.encryption != desired.encryption) (drift_field target ".encryption"))
        (when_drifted (obs.key != desired.key) (drift_field target ".key")))

targets_drift : Map WifiNetworkConfig → WifiNetworkConfig → List String → List String
unfolding target_drift
targets_drift observed desired [] = []
targets_drift observed desired (target ∷ targets) =
    List.◌++◌ (target_drift desired target (get observed target))
      (targets_drift observed desired targets)

-- `drift_fields` of `snapshot`
unfoldable pub drift_fields : Inner → List String
unfolding targets_drift when_drifted
drift_fields inner =
    let desired = inner.config.wifi.primary in
    let managed = not (is_empty desired.targets) in
    let expected =
      compile_applied_roaming inner.config.wifi.roaming desired.ssid desired.encryption
        desired.targets in
    List.◌++◌ (targets_drift inner.observed_configs desired desired.targets) (
      List.◌++◌ (when_drifted (not inner.runtime_healthy && managed) "wifi.primary.runtime")
        (when_drifted (managed && inner.observed_roaming != some expected) "wifi.roaming.policy"))

abbrev is_some {ℓ} : {A : Type ℓ} → Option A → Bool
is_some none = false
is_some (some a) = true

unfoldable pub wifi_status : Inner → WifiStatus
wifi_status inner =
    if is_some inner.active_operation
    then applying
    else if not (is_empty (drift_fields inner))
    then drifted
    else if is_empty inner.observed_configs
    then unknown
    else synced

unfoldable pub snapshot : Inner → PublicState
snapshot inner =
    let desired = inner.config.wifi.primary in
    record {
      boot_id = inner.boot_id;
      event_seq = inner.event_seq;
      revision = inner.config.revision;
      lifecycle = inner.lifecycle;
      maintenance = record {
        enabled = inner.maintenance;
        exiting = inner.maintenance_exiting;
        reason = inner.maintenance_reason;
      };
      wifi = record {
        ssid = desired.ssid;
        encryption = desired.encryption;
        key = desired.key;
        targets = desired.targets;
        observed =
            List.map (λ (entry : String × WifiNetworkConfig). (entry.0, entry.1.ssid))
              inner.observed_configs;
        status = wifi_status inner;
        roaming = inner.config.wifi.roaming;
        roaming_runtime = inner.roaming_runtime;
        backhaul = inner.config.wifi.backhaul;
        radio_channels = inner.config.wifi.radio_channels;
      };
      wan = inner.wan;
      active_operation = inner.active_operation;
      last_user_operation = inner.last_user_operation;
      last_system_error = inner.last_system_error;
      drift = record {
        detected = not (is_empty (drift_fields inner));
        fields = drift_fields inner;
      };
      health = inner.health;
      registered_devices = inner.config.registered_devices;
      dns = inner.config.dns;
      ddns_config = inner.config.ddns;
    }

-- `EARLY_FLUSH_MIN_INTERVAL`, in milliseconds
abbrev pub early_flush_min_interval : ℕ
early_flush_min_interval = 500

can_flush_early : Option ℕ → ℕ → Bool
can_flush_early none now = true
can_flush_early (some sent_at) now = leb early_flush_min_interval (now - sent_at)

-- `saturating_add(1)` on a `u64`
abbrev pub next_seq : ℕ → ℕ
next_seq n = if leb u64_max n then u64_max else n + 1

contains : List StateTopic → StateTopic → Bool
contains topics topic = any (λ t. t == topic) topics

-- `BTreeSet::insert`; the order is never read
add_topic : StateTopic → List StateTopic → List StateTopic
unfolding contains
add_topic topic topics = if contains topics topic then topics else topic ∷ topics

repeats_topic : StateUpdateBuffer → StateTopic → Bool
unfolding contains
repeats_topic updates topic = elim updates.pending [
  | none ↦ false
  | some update ↦ contains update.topics topic
]

unfoldable pub queued :
    Option PendingStateUpdate → StateTopic → PublicState → Option PendingStateUpdate
unfolding add_topic
queued none topic state = some (record { state = state; topics = topic ∷ [] })
queued (some update) topic state =
    some (record { state = state; topics = add_topic topic update.topics })

module _ {W : Type 0} ⦃host : Host W⦄ where
  unfoldable pub send : Option PendingStateUpdate → App W → App W
  send none s = s
  send (some update) s =
      let seq = next_seq s.inner.event_seq in
      let state = update.state in
      record s {
        inner = record s.inner { event_seq = seq };
        events = List.◌++◌ s.events (record state { event_seq = seq } ∷ []);
        state_updates = record { pending = none; last_sent_at = some (host.instant s.world) };
      }

  unfoldable pub send_pending_state : App W → App W
  unfolding send
  send_pending_state s = send s.state_updates.pending s

  unfoldable pub queue_state_update : StateTopic → PublicState → Bool → App W → App W
  unfolding repeats_topic can_flush_early queued
  queue_state_update topic state allow_early_flush s =
      let flush =
        allow_early_flush
        && repeats_topic s.state_updates topic
        && can_flush_early s.state_updates.last_sent_at (host.instant s.world) in
      let s' = if flush then send_pending_state s else s in
      record s' {
        state_updates = record s'.state_updates {
          pending = queued s'.state_updates.pending topic state;
        };
      }

  -- `publish` returns the snapshot that it queues.
  unfoldable pub publish : StateTopic → Action W PublicState
  publish topic s =
      let state = snapshot s.inner in (returns state, queue_state_update topic state true s)

  unfoldable pub flush_state_update : App W → App W
  flush_state_update s = send_pending_state s

-- ===== src/Requests/Admission.antt =====
-- `set_wifi_config` of src/application/app/handlers.rs up to its decision: a request is refused, is a
-- repetition of one that is known, changes nothing, or starts a change.
use Prim.Native.String.{◌++◌}
use unetic_core.Prelude.{
  ℕ, ◌+◌, ◌%◌, ◌^◌, Bool, false, ◌&&◌, ◌||◌, Option, none, some, [], ◌∷◌, String, ◌==◌, ◌!=◌,
  nat_eq, string_eq, option_eq, list_eq, ltb, if◌then◌else◌, byte_len, is_blank, ok, err, ◌>>=◌,
  ◌>>◌, fail_if,
}
use unetic_core.Domain.Errors.{
  LegacyAppError, Fallible, new_error, invalid, with_details, text, number, validate,
  maintenance_mode, not_ready, busy, idempotency_conflict, revision_conflict,
}
use unetic_core.Domain.Roaming.{RoamingConfig, roaming_config_eq}
use unetic_core.Domain.Wifi.{
  WifiDesired, MeshBackhaulConfig, SetWifiConfigRequest, mesh_backhaul_config_eq,
  radio_channel_config_eq,
}
use unetic_core.Domain.Operation.{
  OperationAccepted, OperationIntent, PublicOperation, LastOperation, OperationStatus, succeeded,
  user, operation_intent_eq,
}
use unetic_core.Domain.Config.{
  Lifecycle, booting, ready, maintenance, degraded, needs_setup, lifecycle_eq,
}
use unetic_core.App.State.{Inner}
use unetic_core.Transaction.Context.{ChangeContext}
use unetic_core.Requests.WifiValidation.{validate_wifi_config, validate_mesh_backhaul_config}

unfoldable pub validate_request_id : String → Fallible (Unit {0})
validate_request_id request_id =
    fail_if (is_blank request_id || ltb 128 (byte_len request_id))
      (invalid "request_id must be between 1 and 128 bytes")

-- the names that `{:?}` prints
debug_lifecycle : Lifecycle → String
debug_lifecycle booting = "Booting"
debug_lifecycle ready = "Ready"
debug_lifecycle maintenance = "Maintenance"
debug_lifecycle degraded = "Degraded"
debug_lifecycle needs_setup = "NeedsSetup"

unfoldable pub check_app_ready : Inner → Fallible (Unit {0})
unfolding debug_lifecycle
check_app_ready inner = do
  fail_if inner.maintenance (new_error maintenance_mode validate "Unetic is in maintenance mode")
  fail_if (inner.lifecycle != ready)
      (new_error not_ready validate ("core is not ready: " ++ debug_lifecycle inner.lifecycle))

-- An open network has no key.
unfoldable pub normalized_key : SetWifiConfigRequest → Option String
normalized_key request = if request.encryption == "none" then none else request.key

unfoldable pub wifi_intent : SetWifiConfigRequest → RoamingConfig → OperationIntent
wifi_intent request roaming =
    OperationIntent.wifi request.ssid request.encryption (normalized_key request) roaming

conflict : String → String → LegacyAppError
conflict previous_ssid requested_ssid =
    with_details
      (new_error idempotency_conflict validate "request_id was already used for a different SSID")
      (("previous_ssid", text previous_ssid) ∷ ("requested_ssid", text requested_ssid) ∷ [])

abbrev pub replayed : String → OperationStatus → Option OperationAccepted
replayed id status = some (record { operation_id = id; status = status; noop = false })

check_active :
    SetWifiConfigRequest → OperationIntent → PublicOperation → Fallible (Option OperationAccepted)
unfolding conflict
check_active request intent active =
    if active.request_id == some request.request_id
    then (if active.intent != some intent
        then err (conflict active.requested_ssid request.ssid)
        else ok (replayed active.id active.status))
    else err (new_error busy validate "another configuration operation is active")

check_last :
    SetWifiConfigRequest
    → OperationIntent
    → Option LastOperation
    → Fallible (Option OperationAccepted)
unfolding conflict
check_last request intent none = ok none
check_last request intent (some last) =
    if last.request_id == some request.request_id
    then (if last.intent != some intent
        then err (conflict last.requested_ssid request.ssid)
        else ok (replayed last.id last.status))
    else ok none

check_known :
    SetWifiConfigRequest
    → OperationIntent
    → Option PublicOperation
    → Option LastOperation
    → Fallible (Option OperationAccepted)
unfolding check_active check_last
check_known request intent (some active) last = check_active request intent active
check_known request intent none last = check_last request intent last

unfoldable pub check_idempotency :
    Inner → SetWifiConfigRequest → RoamingConfig → Fallible (Option OperationAccepted)
unfolding check_known
check_idempotency inner request roaming =
    check_known request (wifi_intent request roaming) inner.active_operation
      inner.last_user_operation

unfoldable pub check_revision : ℕ → ℕ → Fallible (Unit {0})
check_revision current_revision expected_revision =
    fail_if (expected_revision != current_revision) (
      with_details
        (new_error revision_conflict validate
          "configuration changed since this client last synchronized")
        (("expected_revision", number expected_revision)
          ∷ ("current_revision", number current_revision)
          ∷ []))

unfoldable pub is_wifi_noop : WifiDesired → SetWifiConfigRequest → RoamingConfig → Bool
is_wifi_noop current request roaming =
    current.primary.ssid == request.ssid
    && current.primary.encryption == request.encryption
    && current.primary.key == normalized_key request
    && current.roaming == roaming
    && current.backhaul == request.backhaul
    && current.radio_channels == request.radio_channels

unfoldable pub noop_last_operation :
    OperationAccepted → ℕ → SetWifiConfigRequest → RoamingConfig → ℕ → LastOperation
noop_last_operation accepted revision request roaming now_ms = record {
  id = accepted.operation_id;
  request_id = some request.request_id;
  source = user;
  kind = "wifi.set_config";
  status = succeeded;
  revision = revision;
  requested_ssid = request.ssid;
  intent = some (wifi_intent request roaming);
  error = none;
  finished_at_ms = now_ms;
}

-- A revision is a `u64`, and `+ 1` wraps around in a release build.
unfoldable pub build_wifi_change_context :
    Inner → String → SetWifiConfigRequest → RoamingConfig → ChangeContext
build_wifi_change_context inner operation_id request roaming =
    let primary = inner.config.wifi.primary in
    record {
      operation_id = operation_id;
      request_id = some request.request_id;
      source = user;
      base_revision = inner.config.revision;
      target_revision = (inner.config.revision + 1) % 2 ^ 64;
      old_wifi = primary;
      new_wifi = record {
        ssid = request.ssid;
        encryption = request.encryption;
        key = normalized_key request;
        targets = primary.targets;
      };
      old_roaming = inner.config.wifi.roaming;
      new_roaming = roaming;
      targets = primary.targets;
      backhaul = request.backhaul;
      radio_channels = request.radio_channels;
    }

-- What is decided under the lock.
pub data Admission : Type 0 where
  replay : OperationAccepted → Admission
  unchanged change : Admission

unfoldable pub requested_roaming : SetWifiConfigRequest → Inner → RoamingConfig
requested_roaming request inner = elim request.roaming [
  | none ↦ inner.config.wifi.roaming
  | some roaming ↦ roaming
]

check_backhaul : SetWifiConfigRequest → Inner → Option MeshBackhaulConfig → Fallible (Unit {0})
check_backhaul request inner none = ok tt
check_backhaul request inner (some backhaul) =
    validate_mesh_backhaul_config backhaul inner.config.wifi.primary.targets request.radio_channels

unfoldable pub decide : SetWifiConfigRequest → Inner → Option OperationAccepted → Fallible Admission
decide request inner (some accepted) = ok (replay accepted)
decide request inner none = do
  check_revision inner.config.revision request.expected_revision
  ok (
      if is_wifi_noop inner.config.wifi request (requested_roaming request inner)
      then unchanged
      else change)

unfoldable pub validate_wifi_request : SetWifiConfigRequest → Inner → Fallible (Unit {0})
unfolding check_backhaul
validate_wifi_request request inner = do
  validate_wifi_config request.ssid request.encryption request.key
  validate_request_id request.request_id
  check_app_ready inner
  check_backhaul request inner request.backhaul

unfoldable pub admit_wifi : SetWifiConfigRequest → Inner → Fallible Admission
admit_wifi request inner = do
  validate_wifi_request request inner
  known ← check_idempotency inner request (requested_roaming request inner)
  decide request inner known

-- ===== src/Requests/WanAdmission.antt =====
-- `set_wan` of src/application/app/wan.rs up to its decision under the lock.
use unetic_core.Prelude.{
  ℕ, ◌+◌, ◌%◌, ◌^◌, ◌||◌, Option, none, some, [], ◌∷◌, String, ◌==◌, ◌!=◌, nat_eq, string_eq,
  option_eq, ltb, if◌then◌else◌, byte_len, is_blank, ok, err, ◌>>=◌, ◌>>◌, fail_if,
}
use unetic_core.Domain.Errors.{
  LegacyAppError, Fallible, new_error, invalid, with_details, number, validate, busy,
  idempotency_conflict, revision_conflict,
}
use unetic_core.Domain.Wan.{SetWanRequest, wan_desired_eq}
use unetic_core.Domain.Operation.{
  OperationAccepted, OperationIntent, PublicOperation, LastOperation, succeeded, user,
  operation_intent_eq,
}
use unetic_core.Wan.Validation.{validate_wan_desired}
use unetic_core.Wan.Normalization.{normalize_wan_desired}
use unetic_core.App.State.{Inner}
use unetic_core.Transaction.Context.{WanChangeContext}
use unetic_core.Requests.Admission.{Admission, replay, unchanged, change, replayed, check_app_ready}

unfoldable pub validate_set_wan : SetWanRequest → Fallible (Unit {0})
validate_set_wan request = do
  fail_if (is_blank request.request_id || ltb 128 (byte_len request.request_id))
      (invalid "request_id must be between 1 and 128 bytes")
  validate_wan_desired request.wan

-- `request.wan = normalize_wan_desired(request.wan)`
unfoldable pub normalized : SetWanRequest → SetWanRequest
normalized request = record request { wan = normalize_wan_desired request.wan }

abbrev wan_conflict : LegacyAppError
wan_conflict =
    new_error idempotency_conflict validate
      "request_id was already used for a different WAN configuration"

check_active_wan : SetWanRequest → PublicOperation → Fallible (Option OperationAccepted)
check_active_wan request active =
    if active.request_id == some request.request_id
    then (if active.intent != some (OperationIntent.wan request.wan)
        then err wan_conflict
        else ok (replayed active.id active.status))
    else err (new_error busy validate "another configuration operation is active")

check_last_wan : SetWanRequest → Option LastOperation → Fallible (Option OperationAccepted)
check_last_wan request none = ok none
check_last_wan request (some last) =
    if last.request_id == some request.request_id
    then (if last.intent != some (OperationIntent.wan request.wan)
        then err wan_conflict
        else ok (replayed last.id last.status))
    else ok none

check_known_wan :
    SetWanRequest
    → Option PublicOperation
    → Option LastOperation
    → Fallible (Option OperationAccepted)
unfolding check_active_wan check_last_wan
check_known_wan request (some active) last = check_active_wan request active
check_known_wan request none last = check_last_wan request last

unfoldable pub check_wan_idempotency : Inner → SetWanRequest → Fallible (Option OperationAccepted)
unfolding check_known_wan
check_wan_idempotency inner request =
    check_known_wan request inner.active_operation inner.last_user_operation

unfoldable pub check_wan_revision : ℕ → ℕ → Fallible (Unit {0})
check_wan_revision current_revision expected_revision =
    fail_if (expected_revision != current_revision) (
      with_details
        (new_error revision_conflict validate
          "configuration changed since this client last synchronized")
        (("expected_revision", number expected_revision)
          ∷ ("current_revision", number current_revision)
          ∷ []))

unfoldable pub noop_wan_operation : OperationAccepted → ℕ → SetWanRequest → ℕ → LastOperation
noop_wan_operation accepted revision request now_ms = record {
  id = accepted.operation_id;
  request_id = some request.request_id;
  source = user;
  kind = "wan.set_config";
  status = succeeded;
  revision = revision;
  requested_ssid = "";
  intent = some (OperationIntent.wan request.wan);
  error = none;
  finished_at_ms = now_ms;
}

unfoldable pub build_wan_change_context : Inner → String → SetWanRequest → WanChangeContext
build_wan_change_context inner operation_id request = record {
  operation_id = operation_id;
  request_id = some request.request_id;
  source = user;
  base_revision = inner.config.revision;
  target_revision = (inner.config.revision + 1) % 2 ^ 64;
  old_wan = inner.config.wan;
  new_wan = request.wan;
}

unfoldable pub decide_wan : SetWanRequest → Inner → Option OperationAccepted → Fallible Admission
decide_wan request inner (some accepted) = ok (replay accepted)
decide_wan request inner none = do
  check_wan_revision inner.config.revision request.expected_revision
  ok (if inner.config.wan == request.wan then unchanged else change)

-- Under the lock, with the request as it is after its normalization. `check_wan_app_ready` has the
-- text of `check_app_ready`.
unfoldable pub admit_normalized : SetWanRequest → Inner → Fallible Admission
admit_normalized request inner = do
  check_app_ready inner
  known ← check_wan_idempotency inner request
  decide_wan request inner known

unfoldable pub admit_wan : SetWanRequest → Inner → Fallible Admission
admit_wan request inner = do validate_set_wan request; admit_normalized (normalized request) inner

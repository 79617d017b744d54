-- ===== src/Requests/Wan.antt =====
-- `set_wan` of src/application/app/wan.rs. The worker that it starts runs `run_wan_change` later.
use Prim.Native.String.{◌++◌}
use unetic_core.Prelude.{true, false, Option, none, some, String, ok, err}
use unetic_core.Domain.Errors.{
  LegacyAppError, ErrorCode, ErrorStage, Fallible, new_error, with_operation,
}
use unetic_core.Domain.Wan.{SetWanRequest}
use unetic_core.Domain.Operation.{OperationAccepted, accepted, succeeded}
use unetic_core.Platform.{RouterBackend, Host}
use unetic_core.App.State.{StateTopic}
use unetic_core.App.Monad.{Action, ◌>>=◌, ◌>>◌, pure, raise, gets, try, host_call, modify_inner}
use unetic_core.App.Store.{persist_transaction}
use unetic_core.App.Publisher.{publish}
use unetic_core.App.WanOperations.{complete_wan_failure}
use unetic_core.Transaction.Context.{WanChangeContext, public_wan_operation, to_wan_journal}
use unetic_core.Requests.Admission.{Admission, replay, unchanged, change}
use unetic_core.Requests.WanAdmission.{
  admit_wan, normalized, noop_wan_operation, build_wan_change_context,
}
use unetic_core.Requests.Wifi.{accept, first_chars, next_operation_id}

abbrev wan_spawn_error : String → WanChangeContext → LegacyAppError
wan_spawn_error message context =
    with_operation
      (new_error ErrorCode.internal ErrorStage.internal
        ("failed to start transaction worker: " ++ message))
      context.operation_id context.request_id

module _ {W : Type 0} ⦃host : Host W⦄ ⦃backend : RouterBackend W⦄ where
  unfoldable pub spawn_wan_worker : WanChangeContext → Option String → Action W OperationAccepted
  spawn_wan_worker context none = pure (accept context.operation_id)
  spawn_wan_worker context (some message) = do
    complete_wan_failure context (wan_spawn_error message context) false
    raise (wan_spawn_error message context)

  unfoldable pub start_wan_worker :
      WanChangeContext → Fallible (Unit {0}) → Action W OperationAccepted
  start_wan_worker context (err error) = do
    modify_inner (λ inner. record inner { active_operation = none })
    raise (with_operation error context.operation_id context.request_id)
  start_wan_worker context (ok _) = do
    publish StateTopic.operation
    failure ← host_call (host.spawn ("unetic-wan-" ++ first_chars 24 context.operation_id))
    spawn_wan_worker context failure

  unfoldable pub persist_and_spawn_wan_change : WanChangeContext → Action W OperationAccepted
  persist_and_spawn_wan_change context = do
    saved ← try (persist_transaction (to_wan_journal context accepted))
    start_wan_worker context saved

  -- The last two take the normalized request.
  unfoldable pub admit_wan_noop : SetWanRequest → String → Action W OperationAccepted
  admit_wan_noop request id = do
    let noop : OperationAccepted = record { operation_id = id; status = succeeded; noop = true }
    last ← gets (λ s. noop_wan_operation noop s.inner.config.revision request (host.now_ms s.world))
    modify_inner (λ inner. record inner { last_user_operation = some last })
    publish StateTopic.operation
    pure noop

  unfoldable pub admit_wan_change : SetWanRequest → String → Action W OperationAccepted
  admit_wan_change request id = do
    context ← gets (λ s. build_wan_change_context s.inner id request)
    modify_inner (λ inner. record inner {
      active_operation = some (public_wan_operation context accepted none);
    })
    persist_and_spawn_wan_change context

  unfoldable pub admitted_wan : SetWanRequest → Fallible Admission → Action W OperationAccepted
  admitted_wan request (err error) = raise error
  admitted_wan request (ok (replay known)) = pure known
  admitted_wan request (ok unchanged) = next_operation_id >>= admit_wan_noop request
  admitted_wan request (ok change) = next_operation_id >>= admit_wan_change request

  unfoldable pub set_wan : SetWanRequest → Action W OperationAccepted
  set_wan request s = admitted_wan (normalized request) (admit_wan request s.inner) s

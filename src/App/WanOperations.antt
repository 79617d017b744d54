-- ===== src/App/WanOperations.antt =====
-- src/application/app/operations/wan.rs: how a running WAN change marks the state of the core.
use Prim.Native.String.{◌++◌}
use unetic_core.Prelude.{
  ℕ, Bool, true, not, ◌&&◌, ◌||◌, Option, none, some, ◌==◌, ◌!=◌, if◌then◌else◌, leb, ok, err,
}
use unetic_core.Domain.Errors.{
  LegacyAppError, new_error, retryable, with_operation, commit_uncertain, confirm,
  state_store_failed, persist, Fallible,
}
use unetic_core.Domain.Wan.{WanPublicState, default_wan_public}
use unetic_core.Domain.Operation.{
  OperationIntent, OperationStatus, OperationSource, succeeded, failed, rollback_failed, user,
  operation_source_eq, LastOperation,
}
use unetic_core.Domain.Config.{DesiredConfig, ready, degraded}
use unetic_core.Platform.{RouterBackend, Host}
use unetic_core.App.State.{Inner, StateTopic}
use unetic_core.App.Monad.{Action, ◌>>=◌, ◌>>◌, pure, gets, call, try, modify_inner}
use unetic_core.App.Store.{persist_config}
use unetic_core.App.Publisher.{publish}
use unetic_core.App.Observation.{refresh_observed}
use unetic_core.App.WifiOperations.{
  next_failure, remember, clear_journal_if, store_error_of, has_failed,
}
use unetic_core.Transaction.Context.{WanChangeContext}

unfoldable pub with_new_wan : WanChangeContext → DesiredConfig → DesiredConfig
with_new_wan context config = record config {
  revision = context.target_revision;
  wan = context.new_wan;
}

unfoldable pub make_wan_last_op :
    WanChangeContext → OperationStatus → ℕ → Option LegacyAppError → ℕ → LastOperation
make_wan_last_op context status revision error now_ms = record {
  id = context.operation_id;
  request_id = context.request_id;
  source = context.source;
  kind = "wan.set_config";
  status = status;
  revision = revision;
  requested_ssid = "";
  intent = some (OperationIntent.wan context.new_wan);
  error = error;
  finished_at_ms = now_ms;
}

-- the last block of `apply_wan_success_state`
after_wan_success : OperationSource → Option LegacyAppError → Inner → Inner
after_wan_success source (some error) inner = record inner {
  lifecycle = degraded;
  health = record inner.health { core = "error" };
  last_system_error = some error;
}
after_wan_success source none inner = record inner {
  lifecycle = if not inner.maintenance then ready else inner.lifecycle;
  health = record inner.health { core = "ok" };
  last_system_error = if source != user then none else inner.last_system_error;
}

unfoldable pub apply_wan_success_state :
    WanChangeContext → LastOperation → WanPublicState → Option LegacyAppError → Inner → Inner
unfolding after_wan_success
apply_wan_success_state context last wan_status store_error inner =
    after_wan_success context.source store_error (record inner {
      last_user_operation = remember context.source last inner.last_user_operation;
      active_operation = none;
      wan = wan_status;
      repair_failures = 0;
      health = record inner.health { wan = "ok" };
    })

-- the first block of `apply_wan_failure_state`
note_wan_failure : OperationSource → LastOperation → LegacyAppError → Bool → Inner → Inner
note_wan_failure source last error store_failed inner =
    if source == user
    then record inner {
      last_user_operation = some last;
      last_system_error =
          if store_failed
          then some (new_error state_store_failed persist "failed to clear transaction journal")
          else inner.last_system_error;
    }
    else record inner {
      repair_failures = next_failure inner.repair_failures;
      last_system_error = some error;
    }

wan_degrade : Bool → Bool → Inner → Inner
wan_degrade rolled_badly store_failed inner =
    if rolled_badly || store_failed || leb 3 inner.repair_failures
    then record inner { lifecycle = degraded; health = record inner.health { core = "error" } }
    else inner

unfoldable pub apply_wan_failure_state :
    WanChangeContext → LastOperation → WanPublicState → LegacyAppError → Bool → Bool → Inner → Inner
unfolding note_wan_failure wan_degrade
apply_wan_failure_state context last wan_status error rolled_badly store_failed inner =
    let noted = note_wan_failure context.source last error store_failed inner in
    let settled =
      wan_degrade rolled_badly store_failed
        (record noted { active_operation = none; wan = wan_status }) in
    record settled { health = record settled.health { wan = "error" } }

-- `unwrap_or_default()`
abbrev pub or_default : Fallible WanPublicState → WanPublicState
or_default (ok status) = status
or_default (err error) = default_wan_public

abbrev pub wan_uncertain_error : LegacyAppError → WanChangeContext → LegacyAppError
wan_uncertain_error error context =
    with_operation
      (retryable
        (new_error commit_uncertain confirm
          ("desired state is durable, but UCI confirm failed: " ++ error.message))
        true)
      context.operation_id context.request_id

module _ {W : Type 0} ⦃host : Host W⦄ where
  unfoldable pub persist_new_desired_wan : WanChangeContext → Action W (Unit {0})
  persist_new_desired_wan context = do
    config ← gets (λ s. with_new_wan context s.inner.config)
    persist_config config
    modify_inner (λ inner. record inner { config = config })

  unfoldable pub mark_wan_commit_uncertain : WanChangeContext → LegacyAppError → Action W (Unit {0})
  mark_wan_commit_uncertain context error = do
    let uncertain = wan_uncertain_error error context
    last ← gets (λ s.
        make_wan_last_op context failed s.inner.config.revision (some uncertain)
          (host.now_ms s.world))
    modify_inner (λ inner. record inner {
      last_user_operation = remember context.source last inner.last_user_operation;
      active_operation = none;
      lifecycle = degraded;
      health = record inner.health { core = "error" };
      last_system_error = some uncertain;
    })
    publish StateTopic.wan
    pure tt

  module _ ⦃backend : RouterBackend W⦄ where
    unfoldable pub complete_wan_success : WanChangeContext → Action W (Unit {0})
    complete_wan_success context = do
      last ← gets (λ s.
          make_wan_last_op context succeeded s.inner.config.revision none (host.now_ms s.world))
      cleared ← clear_journal_if (context.source == user)
      status ← try (call backend.read_wan_runtime_status)
      modify_inner
          (apply_wan_success_state context last (or_default status) (store_error_of cleared))
      publish StateTopic.wan
      pure tt

    unfoldable pub complete_wan_failure :
        WanChangeContext → LegacyAppError → Bool → Action W (Unit {0})
    complete_wan_failure context failure rolled_badly = do
      let error = with_operation failure context.operation_id context.request_id
      let status = if rolled_badly then rollback_failed else failed
      last ← gets (λ s.
          make_wan_last_op context status s.inner.config.revision (some error)
            (host.now_ms s.world))
      cleared ← clear_journal_if (context.source == user && not rolled_badly)
      status ← try (call backend.read_wan_runtime_status)
      modify_inner (
          apply_wan_failure_state context last (or_default status) error rolled_badly
            (has_failed cleared))
      refresh_observed
      publish StateTopic.wan
      pure tt

-- ===== src/App/WifiOperations.antt =====
-- src/application/app/operations/wifi.rs: how a running Wi-Fi change marks the state of the core.
use Prim.Native.String.{◌++◌}
use unetic_core.Prelude.{
  ℕ, ◌+◌, Bool, true, false, not, ◌&&◌, ◌||◌, Option, none, some, [], ◌∷◌, String, collect, ◌==◌,
  ◌!=◌, string_eq, if◌then◌else◌, leb, length, is_empty, ok, err,
}
use unetic_core.Domain.Errors.{
  LegacyAppError, new_error, retryable, with_operation, commit_uncertain, confirm,
  state_store_failed, persist, Fallible,
}
use unetic_core.Domain.Roaming.{RoamingRuntimeStatus, compile_applied_roaming}
use unetic_core.Domain.Operation.{
  OperationStatus, OperationSource, succeeded, failed, rollback_failed, user, operation_source_eq,
  PublicOperation, LastOperation,
}
use unetic_core.Domain.Config.{DesiredConfig, ready, degraded}
use unetic_core.Platform.{RouterBackend, Host}
use unetic_core.App.State.{Inner, StateTopic}
use unetic_core.App.Monad.{Action, ◌>>=◌, ◌>>◌, pure, gets, try, modify_inner}
use unetic_core.App.Store.{persist_config, clear_transaction}
use unetic_core.App.Publisher.{publish}
use unetic_core.App.Observation.{refresh_observed}
use unetic_core.Transaction.Context.{ChangeContext, context_intent}

mark_active :
    String
    → OperationStatus
    → Option LegacyAppError
    → Option PublicOperation
    → Option PublicOperation
mark_active id status error none = none
mark_active id status error (some active) =
    some (if active.id == id then record active { status = status; error = error } else active)

-- The configuration that a change makes of the current one.
unfoldable pub with_new_wifi : ChangeContext → DesiredConfig → DesiredConfig
with_new_wifi context config =
    let wifi = config.wifi in
    record config {
      revision = context.target_revision;
      wifi = record wifi {
        primary = context.new_wifi;
        roaming = context.new_roaming;
        backhaul = elim context.backhaul [ none ↦ wifi.backhaul | some b ↦ some b ];
        radio_channels =
            if is_empty context.radio_channels then wifi.radio_channels else context.radio_channels;
      };
    }

unfoldable pub make_wifi_last_op :
    ChangeContext → OperationStatus → ℕ → Option LegacyAppError → ℕ → LastOperation
make_wifi_last_op context status revision error now_ms = record {
  id = context.operation_id;
  request_id = context.request_id;
  source = context.source;
  kind = "wifi.set_config";
  status = status;
  revision = revision;
  requested_ssid = context.new_wifi.ssid;
  intent = some (context_intent context);
  error = error;
  finished_at_ms = now_ms;
}

abbrev pub u32_max : ℕ
u32_max = 4_294_967_295

-- `saturating_add(1)` on a `u8`
abbrev pub next_failure : ℕ → ℕ
next_failure n = if leb 255 n then 255 else n + 1

-- Only a change that a user asked for is remembered as the user's.
abbrev pub remember : OperationSource → LastOperation → Option LastOperation → Option LastOperation
remember source last previous = if source == user then some last else previous

-- the last block of `apply_wifi_success_state`
after_success : OperationSource → Option LegacyAppError → Inner → Inner
after_success source (some error) inner = record inner {
  lifecycle = degraded;
  health = record inner.health { core = "error" };
  last_system_error = some error;
}
after_success source none inner = record inner {
  lifecycle = if not inner.maintenance then ready else inner.lifecycle;
  health = record inner.health { core = "ok" };
  last_system_error = if source != user then none else inner.last_system_error;
}

unfoldable pub apply_wifi_success_state :
    ChangeContext → LastOperation → Option LegacyAppError → Inner → Inner
unfolding after_success
apply_wifi_success_state context last store_error inner =
    let wifi = context.new_wifi in
    after_success context.source store_error (record inner {
      last_user_operation = remember context.source last inner.last_user_operation;
      active_operation = none;
      observed_configs = collect (λ t. record wifi { targets = t ∷ [] }) context.targets;
      observed_roaming =
          some
            (compile_applied_roaming context.new_roaming wifi.ssid wifi.encryption context.targets);
      roaming_runtime = record {
        available = true;
        local_bss =
            if leb (length context.targets) u32_max then length context.targets else u32_max;
        remote_bss = inner.roaming_runtime.remote_bss;
        status = RoamingRuntimeStatus.ready;
        error = none;
      };
      runtime_healthy = true;
      repair_failures = 0;
      health = record inner.health { wireless = "ok" };
    })

-- the first block of `apply_wifi_failure_state`
note_failure : OperationSource → LastOperation → LegacyAppError → Bool → Inner → Inner
note_failure source last error store_failed inner =
    if source == user
    then record inner {
      last_user_operation = some last;
      last_system_error =
          if store_failed
          then some (new_error state_store_failed persist "failed to clear transaction journal")
          else inner.last_system_error;
    }
    else record inner {
      repair_failures = next_failure inner.repair_failures;
      last_system_error = some error;
    }

-- After three failed repairs in a row the core gives up on the router.
degrade : Bool → Bool → Inner → Inner
degrade rolled_badly store_failed inner =
    if rolled_badly || store_failed || leb 3 inner.repair_failures
    then record inner { lifecycle = degraded; health = record inner.health { core = "error" } }
    else inner

unfoldable pub apply_wifi_failure_state :
    ChangeContext → LastOperation → LegacyAppError → Bool → Bool → Inner → Inner
unfolding note_failure degrade
apply_wifi_failure_state context last error rolled_badly store_failed inner =
    let noted = note_failure context.source last error store_failed inner in
    let settled = degrade rolled_badly store_failed (record noted { active_operation = none }) in
    record settled { health = record settled.health { wireless = "error" } }

abbrev pub store_error_of : Fallible (Unit {0}) → Option LegacyAppError
store_error_of (ok _) = none
store_error_of (err error) = some error

abbrev pub has_failed : Fallible (Unit {0}) → Bool
has_failed (ok _) = false
has_failed (err error) = true

abbrev pub uncertain_error : LegacyAppError → String → Option String → LegacyAppError
uncertain_error error operation_id request_id =
    with_operation
      (retryable
        (new_error commit_uncertain confirm
          ("desired state is durable, but UCI confirm failed: " ++ error.message))
        true)
      operation_id request_id

module _ {W : Type 0} ⦃host : Host W⦄ where
  unfoldable pub set_operation_status_with_kind :
      String → String → OperationStatus → Option LegacyAppError → Action W (Unit {0})
  unfolding mark_active
  set_operation_status_with_kind operation_id kind status error = do
    modify_inner (λ inner. record inner {
      active_operation = mark_active operation_id status error inner.active_operation;
    })
    publish StateTopic.wifi
    pure tt

  unfoldable pub set_operation_status :
      ChangeContext → OperationStatus → Option LegacyAppError → Action W (Unit {0})
  unfolding set_operation_status_with_kind
  set_operation_status context status error =
      set_operation_status_with_kind context.operation_id "wifi.set_config" status error

  unfoldable pub persist_new_desired : ChangeContext → Action W (Unit {0})
  persist_new_desired context = do
    config ← gets (λ s. with_new_wifi context s.inner.config)
    persist_config config
    modify_inner (λ inner. record inner { config = config })

  -- `if context.source == User && .. && let Err(error) = self.store.clear_transaction()`
  unfoldable pub clear_journal_if : Bool → Action W (Fallible (Unit {0}))
  clear_journal_if wanted = if wanted then try clear_transaction else pure (ok tt)

  unfoldable pub complete_success : ChangeContext → Action W (Unit {0})
  unfolding clear_journal_if
  complete_success context = do
    last ← gets (λ s.
        make_wifi_last_op context succeeded s.inner.config.revision none (host.now_ms s.world))
    cleared ← clear_journal_if (context.source == user)
    modify_inner (apply_wifi_success_state context last (store_error_of cleared))
    publish StateTopic.wifi
    pure tt

  unfoldable pub mark_commit_uncertain : ChangeContext → LegacyAppError → Action W (Unit {0})
  mark_commit_uncertain context error = do
    let uncertain = uncertain_error error context.operation_id context.request_id
    last ← gets (λ s.
        make_wifi_last_op context failed s.inner.config.revision (some uncertain)
          (host.now_ms s.world))
    modify_inner (λ inner. record inner {
      last_user_operation = remember context.source last inner.last_user_operation;
      active_operation = none;
      lifecycle = degraded;
      health = record inner.health { core = "error" };
      last_system_error = some uncertain;
    })
    publish StateTopic.wifi
    pure tt

  unfoldable pub mark_degraded : LegacyAppError → Action W (Unit {0})
  mark_degraded error = do
    modify_inner (λ inner. record inner {
      lifecycle = degraded;
      health = record inner.health { core = "error" };
      last_system_error = some error;
    })
    publish StateTopic.wifi
    pure tt

  module _ ⦃backend : RouterBackend W⦄ where
    unfoldable pub complete_failure : ChangeContext → LegacyAppError → Bool → Action W (Unit {0})
    unfolding clear_journal_if
    complete_failure context failure rolled_badly = do
      let error = with_operation failure context.operation_id context.request_id
      let status = if rolled_badly then rollback_failed else failed
      last ← gets (λ s.
          make_wifi_last_op context status s.inner.config.revision (some error)
            (host.now_ms s.world))
      cleared ← clear_journal_if (context.source == user && not rolled_badly)
      modify_inner (apply_wifi_failure_state context last error rolled_badly (has_failed cleared))
      refresh_observed
      publish StateTopic.wifi
      pure tt

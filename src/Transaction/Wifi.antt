-- ===== src/Transaction/Wifi.antt =====
-- src/application/transaction.rs: the Wi-Fi change, from staging to confirmation or rollback.
use Prim.Native.String.{◌++◌}
use unetic_core.Prelude.{
  Bool, true, false, ◌&&◌, none, some, String, ◌==◌, ◌!=◌, if◌then◌else◌, ok, err,
}
use unetic_core.Domain.Errors.{
  LegacyAppError, new_error, with_operation, ErrorCode, uci_stage_mismatch, stage, confirm_failed,
  persist, rollback, Fallible, error_code_eq, error_stage_eq,
}
use unetic_core.Domain.Roaming.{compile_applied_roaming, applied_roaming_config_eq}
use unetic_core.Domain.Wan.{extender, wan_protocol_eq}
use unetic_core.Domain.Operation.{
  staging, applying, verifying, persisting, confirming, rolling_back, user, operation_source_eq,
}
use unetic_core.Platform.{RouterBackend, Host}
use unetic_core.App.Monad.{Action, ◌>>=◌, ◌>>◌, pure, raise, gets, lift, call, try, ignore}
use unetic_core.App.WifiOperations.{
  set_operation_status, persist_new_desired, complete_success, complete_failure,
  mark_commit_uncertain,
}
use unetic_core.Transaction.Context.{ChangeContext}
use unetic_core.Transaction.Verify.{any_mismatch, verify_wifi}

-- `attach`
abbrev pub attach : LegacyAppError → ChangeContext → LegacyAppError
attach error context = with_operation error context.operation_id context.request_id

abbrev mismatch_error : String → LegacyAppError
mismatch_error message = new_error uci_stage_mismatch stage message

abbrev pub rollback_error : String → LegacyAppError → LegacyAppError → LegacyAppError
rollback_error what original error =
    new_error ErrorCode.rollback_failed rollback (original.message ++ what ++ error.message)

-- `if condition { return Err(error) }`
abbrev pub raise_if : {W : Type 0} → Bool → LegacyAppError → Action W (Unit {0})
raise_if true error = raise error
raise_if false error = pure tt

module _ {W : Type 0} ⦃backend : RouterBackend W⦄ ⦃host : Host W⦄ where
  unfoldable pub stage_and_verify : ChangeContext → String → Action W (Unit {0})
  stage_and_verify context session = do
    set_operation_status context staging none
    is_extender ← gets (λ s. s.inner.config.wan.proto == extender)
    call (
        backend.stage_wifi_config session context.targets context.new_wifi context.new_roaming
          is_extender)
    staged ← call (backend.read_wifi_configs context.targets (some session))
    raise_if (any_mismatch staged context.targets context.new_wifi)
        (mismatch_error "staged UCI values do not match requested Wi-Fi configuration")
    let expected_roaming =
        compile_applied_roaming context.new_roaming context.new_wifi.ssid
          context.new_wifi.encryption context.targets
    staged_roaming ← call (backend.read_roaming_config context.targets (some session))
    raise_if (staged_roaming != expected_roaming) (
        mismatch_error
          "staged wireless or usteer roaming policy does not match requested configuration")

  -- a failed `apply` is undone at once
  unfoldable pub undo_apply : String → Fallible (Unit {0}) → Action W (Unit {0})
  undo_apply session (ok _) = pure tt
  undo_apply session (err error) = do
    ignore (call (backend.rollback session))
    ignore (call (backend.revert_staged session))
    raise error

  unfoldable pub apply_and_verify : ChangeContext → String → Action W (Unit {0})
  apply_and_verify context session = do
    set_operation_status context applying none
    timing ← gets (λ s. s.timing)
    applied ← try (call (backend.apply session timing.rpcd_rollback_timeout_secs))
    undo_apply session applied
    set_operation_status context verifying none
    verify_wifi context.targets context.new_wifi context.new_roaming timing.verify_timeout

  unfoldable pub persist_if_user : ChangeContext → Action W (Unit {0})
  persist_if_user context =
      if context.source == user
      then (do set_operation_status context persisting none; persist_new_desired context)
      else pure tt

  unfoldable pub persist_and_confirm : ChangeContext → String → Action W (Unit {0})
  unfolding persist_if_user
  persist_and_confirm context session = do
    persist_if_user context
    set_operation_status context confirming none
    call (backend.confirm session)

  unfoldable pub verify_old :
      ChangeContext → LegacyAppError → Fallible (Unit {0}) → Action W (Unit {0})
  verify_old context original (ok _) = complete_failure context original false
  verify_old context original (err error) =
      complete_failure context
        (attach (rollback_error "; rollback verification failed: " original error) context) true

  unfoldable pub after_rollback :
      ChangeContext → LegacyAppError → Fallible (Unit {0}) → Action W (Unit {0})
  unfolding verify_old
  after_rollback context original (err error) =
      complete_failure context
        (attach (rollback_error "; rollback failed: " original error) context) true
  after_rollback context original (ok _) = do
    timeout ← gets (λ s. s.timing.rollback_verify_timeout)
    verified ← try (verify_wifi context.targets context.old_wifi context.old_roaming timeout)
    verify_old context original verified

  unfoldable pub rollback_to_old : ChangeContext → String → LegacyAppError → Action W (Unit {0})
  unfolding after_rollback
  rollback_to_old context session original = do
    ignore (set_operation_status context rolling_back (some original))
    undone ← try (call (backend.rollback session))
    after_rollback context original undone

  -- What `execute` does with each kind of failure after the new state has been verified.
  unfoldable pub settle_persist : ChangeContext → String → Fallible (Unit {0}) → Action W (Unit {0})
  settle_persist context session (ok _) = complete_success context
  settle_persist context session (err error) =
      if context.source == user && error.code == confirm_failed
      then mark_commit_uncertain context error
      else if error.stage == persist
      then rollback_to_old context session (attach error context)
      else complete_failure context (attach error context) false

  unfoldable pub settle_apply : ChangeContext → String → Fallible (Unit {0}) → Action W (Unit {0})
  unfolding settle_persist
  settle_apply context session (err error) = rollback_to_old context session error
  settle_apply context session (ok _) = do
    persisted ← try (persist_and_confirm context session)
    settle_persist context session persisted

  unfoldable pub settle_stage : ChangeContext → String → Fallible (Unit {0}) → Action W (Unit {0})
  unfolding settle_apply
  settle_stage context session (err error) = do
    ignore (call (backend.revert_staged session))
    complete_failure context (attach error context) false
  settle_stage context session (ok _) = do
    applied ← try (apply_and_verify context session)
    settle_apply context session applied

  -- The body of `execute`, between the session's creation and the end of its guard.
  unfoldable pub execute_in : ChangeContext → String → Action W (Unit {0})
  unfolding settle_stage
  execute_in context session = do
    staged ← try (stage_and_verify context session)
    settle_stage context session staged

  abbrev rethrow : Fallible (Unit {0}) → Action W (Unit {0})
  rethrow result = lift result

  -- `SessionGuard::new` with its error marked, and `drop` at the end, whatever the result.
  unfoldable pub within_session : ChangeContext → Fallible String → Action W (Unit {0})
  within_session context (err error) = raise (attach error context)
  within_session context (ok session) = do
    result ← try (execute_in context session)
    ignore (call (backend.destroy_session session))
    rethrow result

  unfoldable pub execute : ChangeContext → Action W (Unit {0})
  execute context = do created ← try (call backend.create_session); within_session context created

  abbrev pub on_error : ChangeContext → Fallible (Unit {0}) → Action W (Unit {0})
  on_error context (ok _) = pure tt
  on_error context (err error) = complete_failure context error false

  unfoldable pub run_change : ChangeContext → Action W (Unit {0})
  run_change context = do result ← try (execute context); on_error context result

-- ===== src/Transaction/Wan.antt =====
-- src/application/wan.rs: the WAN change, from staging to confirmation or rollback.
pub mod Quiet
pub mod Conclusion
pub mod Persistence
pub mod Atomicity
pub mod Termination
pub mod Completion
use Prim.Native.String.{◌++◌}
use unetic_core.Prelude.{
  ℕ, zero, suc, ◌+◌, Bool, true, false, not, ◌&&◌, ◌||◌, Option, none, some, String, ◌==◌,
  if◌then◌else◌, ltb, ok, err,
}
use unetic_core.Domain.Errors.{
  LegacyAppError, new_error, retryable, with_operation, ErrorCode, uci_stage_mismatch, stage,
  confirm_failed, rollback, verify_timeout, verify, Fallible, error_code_eq,
}
use unetic_core.Domain.Wan.{WanDesired, WanPublicState, connected, wan_status_eq}
use unetic_core.Domain.Operation.{
  OperationStatus, staging, applying, verifying, persisting, confirming, rolling_back, user,
  operation_source_eq,
}
use unetic_core.Wan.Normalization.{wan_config_matches}
use unetic_core.Platform.{RouterBackend, Host}
use unetic_core.App.Monad.{
  Action, ◌>>=◌, ◌>>◌, pure, raise, hang, gets, lift, call, host_call, try, ignore,
}
use unetic_core.App.WifiOperations.{set_operation_status_with_kind}
use unetic_core.App.WanOperations.{
  persist_new_desired_wan, complete_wan_success, complete_wan_failure, mark_wan_commit_uncertain,
}
use unetic_core.Transaction.Context.{WanChangeContext}

-- `attach`
abbrev pub attach_wan : LegacyAppError → WanChangeContext → LegacyAppError
attach_wan error context = with_operation error context.operation_id context.request_id

abbrev pub wan_rollback_error : LegacyAppError → String → LegacyAppError → LegacyAppError
wan_rollback_error original action error =
    new_error ErrorCode.rollback_failed rollback
      (original.message ++ "; " ++ action ++ ": " ++ error.message)

abbrev pub attach_cleanup_error : LegacyAppError → Fallible (Unit {0}) → LegacyAppError
attach_cleanup_error original (ok _) = original
attach_cleanup_error original (err cleanup) =
    retryable
      (new_error original.code original.stage
        (original.message ++ "; staged cleanup failed: " ++ cleanup.message))
      (original.retryable || cleanup.retryable)

-- `is_ok_and(|wan| wan_config_matches(&wan, expected))`
abbrev matches_wan : WanDesired → Fallible WanDesired → Bool
matches_wan expected (ok wan) = wan_config_matches wan expected
matches_wan expected (err error) = false

abbrev is_connected : Fallible WanPublicState → Bool
is_connected (ok status) = status.status == connected
is_connected (err error) = false

abbrev pub wan_not_converged : LegacyAppError
wan_not_converged =
    retryable (new_error verify_timeout verify "WAN configuration did not converge before timeout")
      true

module _ {W : Type 0} ⦃backend : RouterBackend W⦄ where
  unfoldable pub stage_wan_candidate : String → WanDesired → Action W (Unit {0})
  stage_wan_candidate session desired = do
    call (backend.stage_wan_config session desired)
    staged ← call (backend.read_wan_config (some session))
    (if wan_config_matches staged desired
        then pure tt
        else raise (
            new_error uci_stage_mismatch stage
              "staged WAN configuration does not match desired state"))

  -- one round of the loop, up to the sleep
  unfoldable pub sample_wan : WanDesired → Action W Bool
  sample_wan expected = do
    config ← try (call (backend.read_wan_config none))
    (if matches_wan expected config && not expected.present
        then pure true
        else if matches_wan expected config
        then (do status ← try (call backend.read_wan_runtime_status); pure (is_connected status))
        else pure false)

  module _ ⦃host : Host W⦄ where
    unfoldable pub wan_verify_loop : WanDesired → ℕ → ℕ → Action W (Unit {0})
    wan_verify_loop expected zero deadline s = hang s
    wan_verify_loop expected (suc rounds) deadline s =
        let next : Action W (Unit {0}) = do
          healthy ← sample_wan expected
          (if healthy then pure tt else (do
            delay ← gets (λ s. s.timing.verify_sample_delay)
            host_call (λ w. (tt {0}, host.sleep delay w))
            wan_verify_loop expected rounds deadline))
        in (if ltb (host.instant s.world) deadline then next else raise wan_not_converged) s

    unfoldable pub verify_wan_configuration : WanDesired → ℕ → Action W (Unit {0})
    verify_wan_configuration expected timeout s =
        wan_verify_loop expected (suc timeout) (host.instant s.world + timeout) s

    unfoldable pub set_wan_status :
        WanChangeContext → OperationStatus → Option LegacyAppError → Action W (Unit {0})
    set_wan_status context status error =
        set_operation_status_with_kind context.operation_id "wan.set_config" status error

    unfoldable pub stage_and_verify_wan : WanChangeContext → String → Action W (Unit {0})
    stage_and_verify_wan context session = do
      set_wan_status context staging none
      stage_wan_candidate session context.new_wan

    unfoldable pub verify_wan_ready : WanChangeContext → Action W (Unit {0})
    verify_wan_ready context = do
      set_wan_status context verifying none
      timeout ← gets (λ s. s.timing.verify_timeout)
      verify_wan_configuration context.new_wan timeout

    unfoldable pub apply_and_verify_wan : WanChangeContext → String → Action W (Unit {0})
    apply_and_verify_wan context session = do
      set_wan_status context applying none
      timeout ← gets (λ s. s.timing.rpcd_rollback_timeout_secs)
      call (backend.apply session timeout)
      verify_wan_ready context

    unfoldable pub persist_wan_if_user : WanChangeContext → Action W (Unit {0})
    persist_wan_if_user context =
        if context.source == user
        then (do set_wan_status context persisting none; persist_new_desired_wan context)
        else pure tt

    unfoldable pub persist_and_confirm_wan : WanChangeContext → String → Action W (Unit {0})
    persist_and_confirm_wan context session = do
      persist_wan_if_user context
      set_wan_status context confirming none
      call (backend.confirm session)

    unfoldable pub verify_old_wan :
        WanChangeContext → LegacyAppError → Fallible (Unit {0}) → Action W (Unit {0})
    verify_old_wan context original (ok _) =
        complete_wan_failure context (attach_wan original context) false
    verify_old_wan context original (err error) =
        complete_wan_failure context
          (attach_wan (wan_rollback_error original "rollback verification failed" error) context)
          true

    unfoldable pub after_wan_rollback :
        WanChangeContext → LegacyAppError → Fallible (Unit {0}) → Action W (Unit {0})
    after_wan_rollback context original (err error) =
        complete_wan_failure context
          (attach_wan (wan_rollback_error original "rollback failed" error) context) true
    after_wan_rollback context original (ok _) = do
      timeout ← gets (λ s. s.timing.rollback_verify_timeout)
      verified ← try (verify_wan_configuration context.old_wan timeout)
      verify_old_wan context original verified

    unfoldable pub rollback_to_old_wan :
        WanChangeContext → String → LegacyAppError → Action W (Unit {0})
    rollback_to_old_wan context session original = do
      ignore (set_wan_status context rolling_back (some original))
      undone ← try (call (backend.rollback session))
      after_wan_rollback context original undone

    -- What `execute_wan` does with the result of each of its parts.
    unfoldable pub settle_wan_persist :
        WanChangeContext → String → Fallible (Unit {0}) → Action W (Unit {0})
    settle_wan_persist context session (ok _) = complete_wan_success context
    settle_wan_persist context session (err error) =
        if error.code == confirm_failed
        then mark_wan_commit_uncertain context error
        else rollback_to_old_wan context session error

    unfoldable pub settle_wan_apply :
        WanChangeContext → String → Fallible (Unit {0}) → Action W (Unit {0})
    settle_wan_apply context session (err error) = rollback_to_old_wan context session error
    settle_wan_apply context session (ok _) = do
      persisted ← try (persist_and_confirm_wan context session)
      settle_wan_persist context session persisted

    unfoldable pub settle_wan_stage :
        WanChangeContext → String → Fallible (Unit {0}) → Action W (Unit {0})
    settle_wan_stage context session (err error) = do
      cleanup ← try (call (backend.revert_staged session))
      complete_wan_failure context (attach_wan (attach_cleanup_error error cleanup) context) false
    settle_wan_stage context session (ok _) = do
      applied ← try (apply_and_verify_wan context session)
      settle_wan_apply context session applied

    unfoldable pub execute_wan_in : WanChangeContext → String → Action W (Unit {0})
    execute_wan_in context session = do
      staged ← try (stage_and_verify_wan context session)
      settle_wan_stage context session staged

    unfoldable pub within_wan_session : WanChangeContext → Fallible String → Action W (Unit {0})
    within_wan_session context (err error) = raise (attach_wan error context)
    within_wan_session context (ok session) = do
      result ← try (execute_wan_in context session)
      ignore (call (backend.destroy_session session))
      lift result

    unfoldable pub execute_wan : WanChangeContext → Action W (Unit {0})
    execute_wan context = do
      created ← try (call backend.create_session)
      within_wan_session context created

    abbrev pub on_wan_error : WanChangeContext → Fallible (Unit {0}) → Action W (Unit {0})
    on_wan_error context (ok _) = pure tt
    on_wan_error context (err error) = complete_wan_failure context error false

    unfoldable pub run_wan_change : WanChangeContext → Action W (Unit {0})
    run_wan_change context = do result ← try (execute_wan context); on_wan_error context result

-- ===== src/Transaction/Completion.antt =====
-- A Wi-Fi change comes to an end and concludes, over a router and a host whose clock does not run back.
use unetic_core.Prelude.{◌≡◌, refl, Bool, true, false, String, ok, err, ◌≤◌}
use unetic_core.Domain.Errors.{LegacyAppError, Fallible, error_code_eq, error_stage_eq}
use unetic_core.Domain.Operation.{operation_source_eq}
use unetic_core.Platform.{RouterBackend, Host}
use unetic_core.App.State.{App}
use unetic_core.App.Monad.{returns}
use unetic_core.App.Timely.{IsSteady, Timely, Timely-pure, Timely-raise, timely_rules}
use unetic_core.Transaction.Context.{ChangeContext}
use unetic_core.Transaction.Wifi.{
  raise_if, stage_and_verify, apply_and_verify, persist_if_user, persist_and_confirm, verify_old,
  after_rollback, rollback_to_old, settle_persist, settle_apply, settle_stage, execute_in,
  within_session, execute, on_error, run_change,
}
use unetic_core.Transaction.Conclusion.{wifi_subject}
use unetic_core.Transaction.Outcome.{IsConcluded, settled}
use unetic_core.App.WifiOperations.{with_new_wifi}
use unetic_core.Transaction.Atomicity.{run_change-Concluded}
use unetic_core.Transaction.Termination.{Timely-verify_wifi}
use unetic_core.Transaction.SyncTermination.{Timely-undo_apply}
use unetic_core.Transaction.Marks.{
  Timely-set_operation_status, Timely-persist_new_desired, Timely-complete_success,
  Timely-mark_commit_uncertain, Timely-complete_failure,
}

module _ {W : Type 0} ⦃backend : RouterBackend W⦄ ⦃host : Host W⦄ (steady : IsSteady backend host)
    (context : ChangeContext) where
  Timely-raise_if : (b : Bool) (e : LegacyAppError) → Timely {W = W} (raise_if b e)
  Timely-raise_if true e = Timely-raise e
  Timely-raise_if false e = Timely-pure tt

  Timely-stage_and_verify : (session : String) → Timely {W = W} (stage_and_verify context session)
  unfolding stage_and_verify
  Timely-stage_and_verify session =
      search
        (
          timely_rules, Timely-set_operation_status, Timely-raise_if, steady.stage_wifi_config,
          steady.read_wifi_configs, steady.read_roaming_config,
        )
        depth 12

  Timely-apply_and_verify : (session : String) → Timely {W = W} (apply_and_verify context session)
  unfolding apply_and_verify
  Timely-apply_and_verify session =
      search
        (
          timely_rules,
          Timely-set_operation_status,
          Timely-undo_apply steady,
          Timely-verify_wifi,
          steady.apply,
        )
        depth 12

  Timely-persist_and_confirm :
      (session : String) → Timely {W = W} (persist_and_confirm context session)
  unfolding persist_and_confirm persist_if_user
  Timely-persist_and_confirm session =
      search (timely_rules, Timely-set_operation_status, Timely-persist_new_desired, steady.confirm)

  Timely-verify_old :
      (original : LegacyAppError) (verified : Fallible (Unit {0}))
      → Timely {W = W} (verify_old context original verified)
  unfolding verify_old
  Timely-verify_old original (ok _) = Timely-complete_failure steady context _ _
  Timely-verify_old original (err error) = Timely-complete_failure steady context _ _

  Timely-after_rollback :
      (original : LegacyAppError) (undone : Fallible (Unit {0}))
      → Timely {W = W} (after_rollback context original undone)
  unfolding after_rollback
  Timely-after_rollback original (err error) = Timely-complete_failure steady context _ _
  Timely-after_rollback original (ok _) =
      search (timely_rules, Timely-verify_wifi, Timely-verify_old)

  Timely-rollback_to_old :
      (session : String) (original : LegacyAppError)
      → Timely {W = W} (rollback_to_old context session original)
  unfolding rollback_to_old
  Timely-rollback_to_old session original =
      search (timely_rules, Timely-set_operation_status, Timely-after_rollback, steady.rollback)

  Timely-settle_persist :
      (session : String) (persisted : Fallible (Unit {0}))
      → Timely {W = W} (settle_persist context session persisted)
  unfolding settle_persist
  Timely-settle_persist session (ok _) = Timely-complete_success steady context
  Timely-settle_persist session (err error) =
      search (
        timely_rules, Timely-mark_commit_uncertain, Timely-rollback_to_old, Timely-complete_failure,
      )

  Timely-settle_apply :
      (session : String) (applied : Fallible (Unit {0}))
      → Timely {W = W} (settle_apply context session applied)
  unfolding settle_apply
  Timely-settle_apply session (err error) = Timely-rollback_to_old session error
  Timely-settle_apply session (ok _) =
      search (timely_rules, Timely-persist_and_confirm, Timely-settle_persist)

  Timely-settle_stage :
      (session : String) (staged : Fallible (Unit {0}))
      → Timely {W = W} (settle_stage context session staged)
  unfolding settle_stage
  Timely-settle_stage session (err error) =
      search (timely_rules, Timely-complete_failure, steady.revert_staged)
  Timely-settle_stage session (ok _) =
      search (timely_rules, Timely-apply_and_verify, Timely-settle_apply)

  Timely-execute_in : (session : String) → Timely {W = W} (execute_in context session)
  unfolding execute_in
  Timely-execute_in session = search (timely_rules, Timely-stage_and_verify, Timely-settle_stage)

  Timely-within_session :
      (created : Fallible String) → Timely {W = W} (within_session context created)
  unfolding within_session
  Timely-within_session (err error) = Timely-raise _
  Timely-within_session (ok session) =
      search (timely_rules, Timely-execute_in, steady.destroy_session)

  Timely-execute : Timely {W = W} (execute context)
  unfolding execute
  Timely-execute = search (timely_rules, Timely-within_session, steady.create_session)

  Timely-on_error : (result : Fallible (Unit {0})) → Timely {W = W} (on_error context result)
  Timely-on_error (ok _) = Timely-pure tt
  Timely-on_error (err error) = Timely-complete_failure steady context _ _

  pub Timely-run_change : Timely {W = W} (run_change context)
  unfolding run_change
  Timely-run_change = search (timely_rules, Timely-execute, Timely-on_error)

module _ {W : Type 0} ⦃backend : RouterBackend W⦄ ⦃host : Host W⦄ where
  -- Whatever the router answers and whether or not the files can be written, a Wi-Fi change that runs
  -- while the delay between two samples is not zero, over a clock that does not run back, returns. The
  -- core is then idle; its desired configuration is the one that it had or the one with the new Wi-Fi
  -- state; and if a user asked for the change, the last operation of the user is this one, with the
  -- revision in force, and is either a success without an error, in which case the new configuration
  -- is in force and on the disk, or no success and has an error.
  pub run_change-Concludes :
      (steady : IsSteady backend host) (context : ChangeContext) (s : App W)
      → 1 ≤ s.timing.verify_sample_delay
      → (t : App W) × (run_change context s ≡ (returns tt, t))
        × IsConcluded (wifi_subject context) s.inner.config (with_new_wifi context s.inner.config) t
  run_change-Concludes steady context s d =
      settled (run_change context s) ((Timely-run_change steady context).at s d).1
        (run_change-Concluded context s.inner.config s refl)

-- ===== src/Transaction/Wan/Completion.antt =====
-- A WAN change comes to an end and concludes, over a router and a host whose clock does not run back.
use unetic_core.Prelude.{◌≡◌, refl, String, ok, err, ◌≤◌}
use unetic_core.Domain.Errors.{LegacyAppError, Fallible, error_code_eq, error_stage_eq}
use unetic_core.Domain.Operation.{operation_source_eq}
use unetic_core.Platform.{RouterBackend, Host}
use unetic_core.App.State.{App}
use unetic_core.App.Monad.{returns}
use unetic_core.App.Timely.{IsSteady, Timely, Timely-pure, Timely-raise, timely_rules}
use unetic_core.Transaction.Context.{WanChangeContext}
use unetic_core.Transaction.Wan.{
  stage_wan_candidate, stage_and_verify_wan, verify_wan_ready, apply_and_verify_wan,
  persist_wan_if_user, persist_and_confirm_wan, verify_old_wan, after_wan_rollback,
  rollback_to_old_wan, settle_wan_persist, settle_wan_apply, settle_wan_stage, execute_wan_in,
  within_wan_session, execute_wan, on_wan_error, run_wan_change,
}
use unetic_core.Domain.Wan.{WanDesired}
use unetic_core.Transaction.Wan.Conclusion.{wan_subject}
use unetic_core.Transaction.Outcome.{IsConcluded, settled}
use unetic_core.App.WanOperations.{with_new_wan}
use unetic_core.Transaction.Wan.Atomicity.{run_wan_change-Concluded}
use unetic_core.Transaction.Wan.Termination.{Timely-verify_wan_configuration}
use unetic_core.Transaction.Wan.Termination.{
  Timely-set_wan_status, Timely-persist_new_desired_wan, Timely-complete_wan_success,
  Timely-mark_wan_commit_uncertain, Timely-complete_wan_failure,
}

module _ {W : Type 0} ⦃backend : RouterBackend W⦄ ⦃host : Host W⦄ (steady : IsSteady backend host)
    (context : WanChangeContext) where
  Timely-stage_wan_candidate :
      (session : String) (desired : WanDesired)
      → Timely {W = W} (stage_wan_candidate session desired)
  unfolding stage_wan_candidate
  Timely-stage_wan_candidate session desired =
      search (timely_rules, steady.stage_wan_config, steady.read_wan_config) depth 12

  Timely-stage_and_verify_wan :
      (session : String) → Timely {W = W} (stage_and_verify_wan context session)
  unfolding stage_and_verify_wan
  Timely-stage_and_verify_wan session =
      search (timely_rules, Timely-set_wan_status, Timely-stage_wan_candidate)

  Timely-verify_wan_ready : Timely {W = W} (verify_wan_ready context)
  unfolding verify_wan_ready
  Timely-verify_wan_ready =
      search (timely_rules, Timely-set_wan_status, Timely-verify_wan_configuration)

  Timely-apply_and_verify_wan :
      (session : String) → Timely {W = W} (apply_and_verify_wan context session)
  unfolding apply_and_verify_wan
  Timely-apply_and_verify_wan session =
      search (timely_rules, Timely-set_wan_status, Timely-verify_wan_ready, steady.apply) depth 12

  Timely-persist_and_confirm_wan :
      (session : String) → Timely {W = W} (persist_and_confirm_wan context session)
  unfolding persist_and_confirm_wan persist_wan_if_user
  Timely-persist_and_confirm_wan session =
      search (timely_rules, Timely-set_wan_status, Timely-persist_new_desired_wan, steady.confirm)

  Timely-verify_old_wan :
      (original : LegacyAppError) (verified : Fallible (Unit {0}))
      → Timely {W = W} (verify_old_wan context original verified)
  unfolding verify_old_wan
  Timely-verify_old_wan original (ok _) = Timely-complete_wan_failure steady context _ _
  Timely-verify_old_wan original (err error) = Timely-complete_wan_failure steady context _ _

  Timely-after_wan_rollback :
      (original : LegacyAppError) (undone : Fallible (Unit {0}))
      → Timely {W = W} (after_wan_rollback context original undone)
  unfolding after_wan_rollback
  Timely-after_wan_rollback original (err error) = Timely-complete_wan_failure steady context _ _
  Timely-after_wan_rollback original (ok _) =
      search (timely_rules, Timely-verify_wan_configuration, Timely-verify_old_wan)

  Timely-rollback_to_old_wan :
      (session : String) (original : LegacyAppError)
      → Timely {W = W} (rollback_to_old_wan context session original)
  unfolding rollback_to_old_wan
  Timely-rollback_to_old_wan session original =
      search (timely_rules, Timely-set_wan_status, Timely-after_wan_rollback, steady.rollback)

  Timely-settle_wan_persist :
      (session : String) (persisted : Fallible (Unit {0}))
      → Timely {W = W} (settle_wan_persist context session persisted)
  unfolding settle_wan_persist
  Timely-settle_wan_persist session (ok _) = Timely-complete_wan_success steady context
  Timely-settle_wan_persist session (err error) = search (
    timely_rules, Timely-mark_wan_commit_uncertain, Timely-rollback_to_old_wan,
    Timely-complete_wan_failure,
  )

  Timely-settle_wan_apply :
      (session : String) (applied : Fallible (Unit {0}))
      → Timely {W = W} (settle_wan_apply context session applied)
  unfolding settle_wan_apply
  Timely-settle_wan_apply session (err error) = Timely-rollback_to_old_wan session error
  Timely-settle_wan_apply session (ok _) =
      search (timely_rules, Timely-persist_and_confirm_wan, Timely-settle_wan_persist)

  Timely-settle_wan_stage :
      (session : String) (staged : Fallible (Unit {0}))
      → Timely {W = W} (settle_wan_stage context session staged)
  unfolding settle_wan_stage
  Timely-settle_wan_stage session (err error) =
      search (timely_rules, Timely-complete_wan_failure, steady.revert_staged)
  Timely-settle_wan_stage session (ok _) =
      search (timely_rules, Timely-apply_and_verify_wan, Timely-settle_wan_apply)

  Timely-execute_wan_in : (session : String) → Timely {W = W} (execute_wan_in context session)
  unfolding execute_wan_in
  Timely-execute_wan_in session =
      search (timely_rules, Timely-stage_and_verify_wan, Timely-settle_wan_stage)

  Timely-within_wan_session :
      (created : Fallible String) → Timely {W = W} (within_wan_session context created)
  unfolding within_wan_session
  Timely-within_wan_session (err error) = Timely-raise _
  Timely-within_wan_session (ok session) =
      search (timely_rules, Timely-execute_wan_in, steady.destroy_session)

  Timely-execute_wan : Timely {W = W} (execute_wan context)
  unfolding execute_wan
  Timely-execute_wan = search (timely_rules, Timely-within_wan_session, steady.create_session)

  Timely-on_wan_error :
      (result : Fallible (Unit {0})) → Timely {W = W} (on_wan_error context result)
  Timely-on_wan_error (ok _) = Timely-pure tt
  Timely-on_wan_error (err error) = Timely-complete_wan_failure steady context _ _

  pub Timely-run_wan_change : Timely {W = W} (run_wan_change context)
  unfolding run_wan_change
  Timely-run_wan_change = search (timely_rules, Timely-execute_wan, Timely-on_wan_error)

module _ {W : Type 0} ⦃backend : RouterBackend W⦄ ⦃host : Host W⦄ where
  -- Whatever the router answers and whether or not the files can be written, a WAN change that runs
  -- while the delay between two samples is not zero, over a clock that does not run back, returns. The
  -- core is then idle; its desired configuration is the one that it had or the one with the new WAN
  -- state; and if a user asked for the change, the last operation of the user is this one, with the
  -- revision in force, and is either a success without an error, in which case the new configuration
  -- is in force and on the disk, or no success and has an error.
  pub run_wan_change-Concludes :
      (steady : IsSteady backend host) (context : WanChangeContext) (s : App W)
      → 1 ≤ s.timing.verify_sample_delay
      → (t : App W) × (run_wan_change context s ≡ (returns tt, t))
        × IsConcluded (wan_subject context) s.inner.config (with_new_wan context s.inner.config) t
  run_wan_change-Concludes steady context s d =
      settled (run_wan_change context s) ((Timely-run_wan_change steady context).at s d).1
        (run_wan_change-Concluded context s.inner.config s refl)

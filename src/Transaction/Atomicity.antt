-- ===== src/Transaction/Atomicity.antt =====
-- The Wi-Fi change is atomic for the desired configuration: whatever the router and the disk do, the
-- core ends idle, with the old configuration or the new one, and reports which.
use unetic_core.Prelude.{◌≡◌, inl, refl, ◌∙◌, false, ◌&&◌, String, ◌==◌, if◌then◌else◌, ok, err}
use unetic_core.Domain.Errors.{
  LegacyAppError, Fallible, confirm_failed, persist, error_code_eq, error_stage_eq,
}
use unetic_core.Domain.Operation.{user, operation_source_eq}
use unetic_core.Domain.Config.{DesiredConfig}
use unetic_core.Platform.{RouterBackend, Host}
use unetic_core.App.State.{App}
use unetic_core.App.WifiOperations.{complete_failure, mark_commit_uncertain}
use unetic_core.App.Quiet.{Quietly-call, Quietly-try, Quietly-ignore, Quietly-set_operation_status}
use unetic_core.App.Ends.{
  Leaves, Leaves-sure, Ends, Returns-ignore, Returns-ignore-call, Returns-set_operation_status,
  Ends-Quiet, Ends-gets, Ends-try,
}
use unetic_core.App.Leaves.{Leaves-Quiet, Leaves-try, Leaves-if}
use unetic_core.Transaction.Context.{ChangeContext}
use unetic_core.Transaction.Wifi.{
  attach, rollback_to_old, after_rollback, verify_old, settle_persist, settle_apply, settle_stage,
  execute_in, within_session, execute, run_change,
}
use unetic_core.Transaction.Persistence.{Persisted, persist_and_confirm-Leaves}
use unetic_core.Transaction.Quiet.{
  Quietly-verify_wifi, Quietly-stage_and_verify, Quietly-apply_and_verify,
}
use unetic_core.Transaction.Conclusion.{
  Concluded, Pending, complete_failure-Concluded, complete_success-Concluded,
  mark_commit_uncertain-Concluded,
}
use unetic_core.Transaction.Outcome.{kept, Quiet-Concluded}

module _ {W : Type 0} ⦃backend : RouterBackend W⦄ ⦃host : Host W⦄ (context : ChangeContext)
    (old : DesiredConfig) where
  abbrev Ended : App W → Type 0
  Ended = Concluded context old

  abbrev Waiting : App W → Type 0
  Waiting = Pending context old

  verify_old-Concluded :
      (original : LegacyAppError) (verified : Fallible (Unit {0})) (s : App W)
      → Waiting s
      → Ends Ended (verify_old context original verified s)
  unfolding verify_old
  verify_old-Concluded original (ok _) s p = complete_failure-Concluded context old _ _ s p
  verify_old-Concluded original (err error) s p = complete_failure-Concluded context old _ _ s p

  after_rollback-Concluded :
      (original : LegacyAppError) (undone : Fallible (Unit {0})) (s : App W)
      → Waiting s
      → Ends Ended (after_rollback context original undone s)
  unfolding after_rollback
  after_rollback-Concluded original (err error) s p = complete_failure-Concluded context old _ _ s p
  after_rollback-Concluded original (ok _) s p = Ends-gets Ended _ _ s (
      Ends-try Ended _ _ s (Quietly-verify_wifi _ _ _ _)
        λ verified t q. verify_old-Concluded original verified t (kept q.config p))

  rollback_to_old-Concluded :
      (session : String) (original : LegacyAppError) (s : App W)
      → Waiting s
      → Ends Ended (rollback_to_old context session original s)
  unfolding rollback_to_old
  rollback_to_old-Concluded session original s p =
      Ends-Quiet Ended _ _ s (Returns-ignore _ (Returns-set_operation_status _ _ _))
        (Quietly-ignore _ (Quietly-set_operation_status _ _ _))
        λ _ t q.
          Ends-try Ended _ _ t (Quietly-call _) λ undone u q₂.
            after_rollback-Concluded original undone u (kept (q₂.config ∙ q.config) p)

  abbrev NoError : LegacyAppError → App W → Type 0
  NoError _ _ = ⊥

  settle_persist-Concluded :
      (session : String) (persisted : Fallible (Unit {0})) (s : App W)
      → Waiting s
      → ((u : Unit {0}) → persisted ≡ ok u → Persisted context old s)
      → Ends Ended (settle_persist context session persisted s)
  unfolding settle_persist
  settle_persist-Concluded session (ok u) s p d =
      complete_success-Concluded context old s p (d u refl).1
  settle_persist-Concluded session (err error) s p d =
      let marked = attach error context in
      Leaves-if (λ _. Ended) NoError (context.source == user && error.code == confirm_failed)
        (mark_commit_uncertain context error)
        (if error.stage == persist
          then rollback_to_old context session marked
          else complete_failure context marked false)
        s (mark_commit_uncertain-Concluded context old error s p)
        (Leaves-if (λ _. Ended) NoError (error.stage == persist)
          (rollback_to_old context session marked) (complete_failure context marked false) s
          (rollback_to_old-Concluded session marked s p)
          (complete_failure-Concluded context old marked false s p))

  settle_apply-Concluded :
      (session : String) (applied : Fallible (Unit {0})) (s : App W)
      → s.inner.config ≡ old
      → Ends Ended (settle_apply context session applied s)
  unfolding settle_apply
  settle_apply-Concluded session (err error) s p = rollback_to_old-Concluded session error s (inl p)
  settle_apply-Concluded session (ok _) s p =
      Leaves-try (λ _. Persisted context old) (λ _. Waiting) (λ _. Ended) NoError _ _ s
        (persist_and_confirm-Leaves context old session s p)
        (λ u t h. settle_persist-Concluded session (ok u) t h.0 (λ _ _. h))
        (λ e t h. settle_persist-Concluded session (err e) t h (λ _ h'. cc))

  settle_stage-Concluded :
      (session : String) (staged : Fallible (Unit {0})) (s : App W)
      → s.inner.config ≡ old
      → Ends Ended (settle_stage context session staged s)
  unfolding settle_stage
  settle_stage-Concluded session (err error) s p =
      Ends-Quiet Ended _ _ s (Returns-ignore-call _) (Quietly-ignore _ (Quietly-call _))
        λ _ t q. complete_failure-Concluded context old _ _ t (inl (q.config ∙ p))
  settle_stage-Concluded session (ok _) s p =
      Ends-try Ended _ _ s (Quietly-apply_and_verify context session)
        λ applied t q. settle_apply-Concluded session applied t (q.config ∙ p)

  execute_in-Concluded :
      (session : String) (s : App W)
      → s.inner.config ≡ old
      → Ends Ended (execute_in context session s)
  unfolding execute_in
  execute_in-Concluded session s p =
      Ends-try Ended _ _ s (Quietly-stage_and_verify context session)
        λ staged t q. settle_stage-Concluded session staged t (q.config ∙ p)

  abbrev Untouched : LegacyAppError → App W → Type 0
  Untouched _ t = t.inner.config ≡ old

  within_session-Leaves :
      (created : Fallible String) (s : App W)
      → s.inner.config ≡ old
      → Leaves (λ _. Ended) Untouched (within_session context created s)
  unfolding within_session
  within_session-Leaves (err error) s p = p
  within_session-Leaves (ok session) s p =
      Leaves-try (λ _. Ended) NoError (λ _. Ended) Untouched _ _ s
        (execute_in-Concluded session s p)
        (λ _ t h.
          Leaves-sure (λ _. Ended) Untouched _ _ t (Returns-ignore-call _)
            (Quietly-ignore _ (Quietly-call _)) (λ _ u q. Quiet-Concluded q h))
        (λ e t h. absurd h)

  execute-Leaves :
      (s : App W) → s.inner.config ≡ old → Leaves (λ _. Ended) Untouched (execute context s)
  unfolding execute
  execute-Leaves s p =
      Leaves-Quiet (λ _. Ended) Untouched _ _ s (Quietly-try _ (Quietly-call _))
        (λ created t q. within_session-Leaves created t (q.config ∙ p)) (λ _ t q. q.config ∙ p)

  pub run_change-Concluded : (s : App W) → s.inner.config ≡ old → Ends Ended (run_change context s)
  unfolding run_change
  run_change-Concluded s p =
      Leaves-try (λ _. Ended) Untouched (λ _. Ended) NoError _ _ s (execute-Leaves s p) (λ _ t h. h)
        (λ e t h. complete_failure-Concluded context old e false t (inl h))

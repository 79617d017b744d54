-- ===== src/Transaction/Wan/Atomicity.antt =====
-- The WAN change is atomic for the desired configuration: whatever the router and the disk do, the
-- core ends idle, with the old configuration or the new one, and reports which.
use unetic_core.Prelude.{◌≡◌, inl, refl, ◌∙◌, false, String, ◌==◌, ok, err}
use unetic_core.Domain.Errors.{
  LegacyAppError, Fallible, confirm_failed, error_code_eq, error_stage_eq,
}
use unetic_core.Domain.Operation.{operation_source_eq}
use unetic_core.Domain.Config.{DesiredConfig}
use unetic_core.Platform.{RouterBackend, Host}
use unetic_core.App.State.{App}
use unetic_core.App.WanOperations.{mark_wan_commit_uncertain}
use unetic_core.App.Quiet.{Quietly-call, Quietly-try, Quietly-ignore}
use unetic_core.App.Ends.{
  Leaves, Leaves-sure, Ends, Returns-ignore, Returns-try-call, Returns-ignore-call, Ends-Quiet,
  Ends-gets, Ends-try,
}
use unetic_core.App.Leaves.{Leaves-Quiet, Leaves-try, Leaves-if}
use unetic_core.Transaction.Context.{WanChangeContext}
use unetic_core.Transaction.Wan.{
  rollback_to_old_wan, after_wan_rollback, verify_old_wan, settle_wan_persist, settle_wan_apply,
  settle_wan_stage, execute_wan_in, within_wan_session, execute_wan, run_wan_change,
}
use unetic_core.Transaction.Wan.Persistence.{Persisted, persist_and_confirm_wan-Leaves}
use unetic_core.Transaction.Wan.Quiet.{
  Quietly-set_wan_status, Returns-set_wan_status, Quietly-verify_wan_configuration,
  Quietly-stage_and_verify_wan, Quietly-apply_and_verify_wan,
}
use unetic_core.Transaction.Wan.Conclusion.{
  Concluded, Pending, complete_wan_failure-Concluded, complete_wan_success-Concluded,
  mark_wan_commit_uncertain-Concluded,
}
use unetic_core.Transaction.Outcome.{kept, Quiet-Concluded}

module _ {W : Type 0} ⦃backend : RouterBackend W⦄ ⦃host : Host W⦄ (context : WanChangeContext)
    (old : DesiredConfig) where
  abbrev Ended : App W → Type 0
  Ended = Concluded context old

  abbrev Waiting : App W → Type 0
  Waiting = Pending context old

  verify_old_wan-Concluded :
      (original : LegacyAppError) (verified : Fallible (Unit {0})) (s : App W)
      → Waiting s
      → Ends Ended (verify_old_wan context original verified s)
  unfolding verify_old_wan
  verify_old_wan-Concluded original (ok _) s p = complete_wan_failure-Concluded context old _ _ s p
  verify_old_wan-Concluded original (err error) s p =
      complete_wan_failure-Concluded context old _ _ s p

  after_wan_rollback-Concluded :
      (original : LegacyAppError) (undone : Fallible (Unit {0})) (s : App W)
      → Waiting s
      → Ends Ended (after_wan_rollback context original undone s)
  unfolding after_wan_rollback
  after_wan_rollback-Concluded original (err error) s p =
      complete_wan_failure-Concluded context old _ _ s p
  after_wan_rollback-Concluded original (ok _) s p = Ends-gets Ended _ _ s (
      Ends-try Ended _ _ s (Quietly-verify_wan_configuration _ _)
        λ verified t q. verify_old_wan-Concluded original verified t (kept q.config p))

  rollback_to_old_wan-Concluded :
      (session : String) (original : LegacyAppError) (s : App W)
      → Waiting s
      → Ends Ended (rollback_to_old_wan context session original s)
  unfolding rollback_to_old_wan
  rollback_to_old_wan-Concluded session original s p =
      Ends-Quiet Ended _ _ s (Returns-ignore _ (Returns-set_wan_status _ _ _))
        (Quietly-ignore _ (Quietly-set_wan_status _ _ _))
        λ _ t q. Ends-try Ended _ _ t (Quietly-call _) λ undone u q₂.
          after_wan_rollback-Concluded original undone u (kept (q₂.config ∙ q.config) p)

  abbrev NoError : LegacyAppError → App W → Type 0
  NoError _ _ = ⊥

  settle_wan_persist-Concluded :
      (session : String) (persisted : Fallible (Unit {0})) (s : App W)
      → Waiting s
      → ((u : Unit {0}) → persisted ≡ ok u → Persisted context old s)
      → Ends Ended (settle_wan_persist context session persisted s)
  unfolding settle_wan_persist
  settle_wan_persist-Concluded session (ok u) s p d =
      complete_wan_success-Concluded context old s p (d u refl).1
  settle_wan_persist-Concluded session (err error) s p d =
      Leaves-if (λ _. Ended) NoError (error.code == confirm_failed)
        (mark_wan_commit_uncertain context error) (rollback_to_old_wan context session error) s
        (mark_wan_commit_uncertain-Concluded context old error s p)
        (rollback_to_old_wan-Concluded session error s p)

  settle_wan_apply-Concluded :
      (session : String) (applied : Fallible (Unit {0})) (s : App W)
      → s.inner.config ≡ old
      → Ends Ended (settle_wan_apply context session applied s)
  unfolding settle_wan_apply
  settle_wan_apply-Concluded session (err error) s p =
      rollback_to_old_wan-Concluded session error s (inl p)
  settle_wan_apply-Concluded session (ok _) s p =
      Leaves-try (λ _. Persisted context old) (λ _. Waiting) (λ _. Ended) NoError _ _ s
        (persist_and_confirm_wan-Leaves context old session s p)
        (λ u t h. settle_wan_persist-Concluded session (ok u) t h.0 (λ _ _. h))
        (λ e t h. settle_wan_persist-Concluded session (err e) t h (λ _ h'. cc))

  settle_wan_stage-Concluded :
      (session : String) (staged : Fallible (Unit {0})) (s : App W)
      → s.inner.config ≡ old
      → Ends Ended (settle_wan_stage context session staged s)
  unfolding settle_wan_stage
  settle_wan_stage-Concluded session (err error) s p =
      Ends-Quiet Ended _ _ s (Returns-try-call _) (Quietly-try _ (Quietly-call _))
        λ _ t q. complete_wan_failure-Concluded context old _ _ t (inl (q.config ∙ p))
  settle_wan_stage-Concluded session (ok _) s p =
      Ends-try Ended _ _ s (Quietly-apply_and_verify_wan context session)
        λ applied t q. settle_wan_apply-Concluded session applied t (q.config ∙ p)

  execute_wan_in-Concluded :
      (session : String) (s : App W)
      → s.inner.config ≡ old
      → Ends Ended (execute_wan_in context session s)
  unfolding execute_wan_in
  execute_wan_in-Concluded session s p =
      Ends-try Ended _ _ s (Quietly-stage_and_verify_wan context session)
        λ staged t q. settle_wan_stage-Concluded session staged t (q.config ∙ p)

  abbrev Untouched : LegacyAppError → App W → Type 0
  Untouched _ t = t.inner.config ≡ old

  within_wan_session-Leaves :
      (created : Fallible String) (s : App W)
      → s.inner.config ≡ old
      → Leaves (λ _. Ended) Untouched (within_wan_session context created s)
  unfolding within_wan_session
  within_wan_session-Leaves (err error) s p = p
  within_wan_session-Leaves (ok session) s p =
      Leaves-try (λ _. Ended) NoError (λ _. Ended) Untouched _ _ s
        (execute_wan_in-Concluded session s p)
        (λ _ t h.
          Leaves-sure (λ _. Ended) Untouched _ _ t (Returns-ignore-call _)
            (Quietly-ignore _ (Quietly-call _)) (λ _ u q. Quiet-Concluded q h))
        (λ e t h. absurd h)

  execute_wan-Leaves :
      (s : App W) → s.inner.config ≡ old → Leaves (λ _. Ended) Untouched (execute_wan context s)
  unfolding execute_wan
  execute_wan-Leaves s p =
      Leaves-Quiet (λ _. Ended) Untouched _ _ s (Quietly-try _ (Quietly-call _))
        (λ created t q. within_wan_session-Leaves created t (q.config ∙ p)) (λ _ t q. q.config ∙ p)

  pub run_wan_change-Concluded :
      (s : App W) → s.inner.config ≡ old → Ends Ended (run_wan_change context s)
  unfolding run_wan_change
  run_wan_change-Concluded s p =
      Leaves-try (λ _. Ended) Untouched (λ _. Ended) NoError _ _ s (execute_wan-Leaves s p)
        (λ _ t h. h) (λ e t h. complete_wan_failure-Concluded context old e false t (inl h))

-- ===== src/Transaction/Wan/Conclusion.antt =====
-- How a WAN change ends: what its last step leaves in the state of the core.
use unetic_core.Prelude.{
  ℕ, ◌≡◌, inl, inr, refl, ◌∙◌, ap, sym, Bool, false, Option, some, if◌then◌else◌,
}
use unetic_core.Domain.Errors.{LegacyAppError}
use unetic_core.Domain.Wan.{WanPublicState}
use unetic_core.Domain.Operation.{failed, rollback_failed, user, operation_source_eq}
use unetic_core.Domain.Config.{DesiredConfig}
use unetic_core.Platform.{RouterBackend, Host}
use unetic_core.App.State.{App}
use unetic_core.App.EndStates.{
  apply_wan_failure_state-EndState, apply_wan_success_state-EndState, remember-user,
}
use unetic_core.App.WanOperations.{
  with_new_wan, make_wan_last_op, apply_wan_failure_state, complete_wan_success,
  complete_wan_failure, mark_wan_commit_uncertain,
}
use unetic_core.App.Quiet.{
  Quiet-trans, Quietly-clear_journal_if, Quietly-try, Quietly-call, Quietly-refresh_observed,
  Quietly-publish,
}
use unetic_core.App.Ends.{
  Ends, Ends-Quiet, Ends-gets, Ends-modify, Returns-publish, Returns-try-call,
  Returns-clear_journal_if, Returns-refresh_observed,
}
use unetic_core.Transaction.Context.{WanChangeContext}
use unetic_core.Transaction.Outcome.{
  Subject, IsReported, OldOrNew, IsConcluded, kept, is_failure, Quiet-Concluded, Concluded-write,
}

abbrev pub wan_subject : WanChangeContext → Subject
wan_subject context = record {
  operation_id = context.operation_id;
  request_id = context.request_id;
  source = context.source;
}

module _ {W : Type 0} ⦃backend : RouterBackend W⦄ ⦃host : Host W⦄ (context : WanChangeContext)
    (old : DesiredConfig) where
  abbrev pub Concluded : App W → Type 0
  Concluded = IsConcluded (wan_subject context) old (with_new_wan context old)

  abbrev pub Pending : App W → Type 0
  Pending s = OldOrNew old (with_new_wan context old) s.inner.config

  Reported-failure :
      (error : LegacyAppError) (badly : Bool) (s : App W) (now : ℕ) {config : DesiredConfig}
      {stored : Option DesiredConfig}
      → config ≡ s.inner.config
      → IsReported (wan_subject context) (with_new_wan context old) config stored (
          make_wan_last_op context
            (if badly then rollback_failed else failed)
            s.inner.config.revision
            (some error)
            now)
  unfolding make_wan_last_op
  Reported-failure error badly s now q = record {
    id = refl;
    request_id = refl;
    revision = ap (λ (c : DesiredConfig). c.revision) (sym q);
    result = inr (is_failure badly, λ p. cc);
  }

  Concluded-failure :
      (status : WanPublicState) (error : LegacyAppError) (badly uncleared : Bool) (s t : App W)
      (now : ℕ)
      → t.inner.config ≡ s.inner.config
      → Pending s
      → Concluded (record t {
        inner =
            apply_wan_failure_state context
              (make_wan_last_op context
                (if badly then rollback_failed else failed)
                s.inner.config.revision
                (some error)
                now)
              status
              error
              badly
              uncleared
              t.inner;
      })
  Concluded-failure status error badly uncleared s t now q p =
      let last =
        make_wan_last_op context (if badly then rollback_failed else failed) s.inner.config.revision
          (some error) now in
      let e = apply_wan_failure_state-EndState context last status error badly uncleared t.inner in
      Concluded-write last _ e.idle (kept (e.config ∙ q) p) e.last_op
        λ u. Reported-failure error badly s now (e.config ∙ q)

  pub complete_wan_failure-Concluded :
      (error : LegacyAppError) (badly : Bool) (s : App W)
      → Pending s
      → Ends Concluded (complete_wan_failure context error badly s)
  unfolding complete_wan_failure
  complete_wan_failure-Concluded error badly s p = Ends-gets Concluded _ _ s (
      Ends-Quiet Concluded _ _ s (Returns-clear_journal_if _) (Quietly-clear_journal_if _)
        λ cleared t₁ q₁.
          Ends-Quiet Concluded _ _ t₁ (Returns-try-call _) (Quietly-try _ (Quietly-call _))
            λ status t r.
              let q = Quiet-trans q₁ r in
              Ends-modify Concluded _ _ t (
                Ends-Quiet Concluded _ _ _ Returns-refresh_observed Quietly-refresh_observed
                  λ _ u q₂.
                    Ends-Quiet Concluded _ _ u (Returns-publish _) (Quietly-publish _) λ _ v q₃.
                      Quiet-Concluded (Quiet-trans q₂ q₃)
                        (Concluded-failure _ _ badly _ s t _ q.config p)))

  pub complete_wan_success-Concluded :
      (s : App W)
      → Pending s
      → (context.source ≡ user
          → (s.inner.config ≡ with_new_wan context old)
            × (s.store.config ≡ some (with_new_wan context old)))
      → Ends Concluded (complete_wan_success context s)
  unfolding complete_wan_success make_wan_last_op
  complete_wan_success-Concluded s p new = Ends-gets Concluded _ _ s (
      Ends-Quiet Concluded _ _ s (Returns-clear_journal_if _) (Quietly-clear_journal_if _)
        λ cleared t₁ q₁.
          Ends-Quiet Concluded _ _ t₁ (Returns-try-call _) (Quietly-try _ (Quietly-call _))
            λ status u₁ r.
              let q = Quiet-trans q₁ r in
              Ends-modify Concluded _ _ u₁ (
                Ends-Quiet Concluded _ _ _ (Returns-publish _) (Quietly-publish _) λ _ u q₂.
                  let e = apply_wan_success_state-EndState context _ _ _ u₁.inner in
                  Quiet-Concluded q₂ (
                    Concluded-write _ _ e.idle (kept (e.config ∙ q.config) p) e.last_op λ is_user.
                      record {
                        id = refl;
                        request_id = refl;
                        revision =
                            ap (λ (c : DesiredConfig). c.revision) (sym (e.config ∙ q.config));
                        result = inl (
                          refl,
                          refl,
                          e.config ∙ q.config ∙ (new is_user).0,
                          q.stored ∙ (new is_user).1,
                        );
                      })))

  pub mark_wan_commit_uncertain-Concluded :
      (error : LegacyAppError) (s : App W)
      → Pending s
      → Ends Concluded (mark_wan_commit_uncertain context error s)
  unfolding mark_wan_commit_uncertain make_wan_last_op
  mark_wan_commit_uncertain-Concluded error s p = Ends-gets Concluded _ _ s (
      Ends-modify Concluded _ _ s (
        Ends-Quiet Concluded _ _ _ (Returns-publish _) (Quietly-publish _) λ _ u q.
          Quiet-Concluded q (
            Concluded-write _ _ refl p (remember-user _ _ _) λ _. record {
              id = refl;
              request_id = refl;
              revision = refl;
              result = inr (is_failure false, λ p. cc);
            })))

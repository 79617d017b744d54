-- ===== src/Transaction/Conclusion.antt =====
-- How a Wi-Fi change ends: what its last step leaves in the state of the core.
use unetic_core.Prelude.{
  ℕ, ◌≡◌, inl, inr, refl, ◌∙◌, ap, sym, Bool, false, Option, some, if◌then◌else◌,
}
use unetic_core.Domain.Errors.{LegacyAppError}
use unetic_core.Domain.Operation.{failed, rollback_failed, user, operation_source_eq}
use unetic_core.Domain.Config.{DesiredConfig}
use unetic_core.Platform.{RouterBackend, Host}
use unetic_core.App.State.{App}
use unetic_core.App.EndStates.{
  apply_wifi_failure_state-EndState, apply_wifi_success_state-EndState, remember-user,
}
use unetic_core.App.WifiOperations.{
  with_new_wifi, make_wifi_last_op, apply_wifi_failure_state, complete_success, complete_failure,
  mark_commit_uncertain,
}
use unetic_core.App.Quiet.{
  Quiet-trans, Quietly-clear_journal_if, Quietly-refresh_observed, Quietly-publish,
}
use unetic_core.App.Ends.{
  Ends, Ends-Quiet, Ends-gets, Ends-modify, Returns-publish, Returns-clear_journal_if,
  Returns-refresh_observed,
}
use unetic_core.Transaction.Context.{ChangeContext}
use unetic_core.Transaction.Outcome.{
  Subject, IsReported, OldOrNew, IsConcluded, kept, is_failure, Quiet-Concluded, Concluded-write,
}

abbrev pub wifi_subject : ChangeContext → Subject
wifi_subject context = record {
  operation_id = context.operation_id;
  request_id = context.request_id;
  source = context.source;
}

module _ {W : Type 0} ⦃backend : RouterBackend W⦄ ⦃host : Host W⦄ (context : ChangeContext)
    (old : DesiredConfig) where
  abbrev pub Concluded : App W → Type 0
  Concluded = IsConcluded (wifi_subject context) old (with_new_wifi context old)

  abbrev pub Pending : App W → Type 0
  Pending s = OldOrNew old (with_new_wifi context old) s.inner.config

  Reported-failure :
      (error : LegacyAppError) (badly : Bool) (s : App W) (now : ℕ) {config : DesiredConfig}
      {stored : Option DesiredConfig}
      → config ≡ s.inner.config
      → IsReported (wifi_subject context) (with_new_wifi context old) config stored (
          make_wifi_last_op context
            (if badly then rollback_failed else failed)
            s.inner.config.revision
            (some error)
            now)
  unfolding make_wifi_last_op
  Reported-failure error badly s now q = record {
    id = refl;
    request_id = refl;
    revision = ap (λ (c : DesiredConfig). c.revision) (sym q);
    result = inr (is_failure badly, λ p. cc);
  }

  Concluded-failure :
      (error : LegacyAppError) (badly uncleared : Bool) (s t : App W) (now : ℕ)
      → t.inner.config ≡ s.inner.config
      → Pending s
      → Concluded (record t {
        inner =
            apply_wifi_failure_state context
              (make_wifi_last_op context
                (if badly then rollback_failed else failed)
                s.inner.config.revision
                (some error)
                now)
              error
              badly
              uncleared
              t.inner;
      })
  Concluded-failure error badly uncleared s t now q p =
      let last =
        make_wifi_last_op context (if badly then rollback_failed else failed)
          s.inner.config.revision (some error) now in
      let e = apply_wifi_failure_state-EndState context last error badly uncleared t.inner in
      Concluded-write last _ e.idle (kept (e.config ∙ q) p) e.last_op
        λ u. Reported-failure error badly s now (e.config ∙ q)

  pub complete_failure-Concluded :
      (error : LegacyAppError) (badly : Bool) (s : App W)
      → Pending s
      → Ends Concluded (complete_failure context error badly s)
  unfolding complete_failure
  complete_failure-Concluded error badly s p = Ends-gets Concluded _ _ s (
      Ends-Quiet Concluded _ _ s (Returns-clear_journal_if _) (Quietly-clear_journal_if _)
        λ cleared t q. Ends-modify Concluded _ _ t (
          Ends-Quiet Concluded _ _ _ Returns-refresh_observed Quietly-refresh_observed λ _ u q₂.
            Ends-Quiet Concluded _ _ u (Returns-publish _) (Quietly-publish _) λ _ v q₃.
              Quiet-Concluded (Quiet-trans q₂ q₃) (Concluded-failure _ badly _ s t _ q.config p)))

  pub complete_success-Concluded :
      (s : App W)
      → Pending s
      → (context.source ≡ user
          → (s.inner.config ≡ with_new_wifi context old)
            × (s.store.config ≡ some (with_new_wifi context old)))
      → Ends Concluded (complete_success context s)
  unfolding complete_success make_wifi_last_op
  complete_success-Concluded s p new = Ends-gets Concluded _ _ s (
      Ends-Quiet Concluded _ _ s (Returns-clear_journal_if _) (Quietly-clear_journal_if _)
        λ cleared t q. Ends-modify Concluded _ _ t (
          Ends-Quiet Concluded _ _ _ (Returns-publish _) (Quietly-publish _) λ _ u q₂.
            let e = apply_wifi_success_state-EndState context _ _ t.inner in
            Quiet-Concluded q₂ (
              Concluded-write _ _ e.idle (kept (e.config ∙ q.config) p) e.last_op λ is_user.
                record {
                  id = refl;
                  request_id = refl;
                  revision = ap (λ (c : DesiredConfig). c.revision) (sym (e.config ∙ q.config));
                  result = inl (
                    refl,
                    refl,
                    e.config ∙ q.config ∙ (new is_user).0,
                    q.stored ∙ (new is_user).1,
                  );
                })))

  pub mark_commit_uncertain-Concluded :
      (error : LegacyAppError) (s : App W)
      → Pending s
      → Ends Concluded (mark_commit_uncertain context error s)
  unfolding mark_commit_uncertain make_wifi_last_op
  mark_commit_uncertain-Concluded error s p = Ends-gets Concluded _ _ s (
      Ends-modify Concluded _ _ s (
        Ends-Quiet Concluded _ _ _ (Returns-publish _) (Quietly-publish _) λ _ u q.
          Quiet-Concluded q (
            Concluded-write _ _ refl p (remember-user _ _ _) λ _. record {
              id = refl;
              request_id = refl;
              revision = refl;
              result = inr (is_failure false, λ p. cc);
            })))

-- ===== src/Transaction/Persistence.antt =====
-- The writing of the new configuration in a Wi-Fi change, and the confirmation after it.
use unetic_core.Prelude.{
  ◌≡◌, inl, inr, ◌∙◌, ap, Bool, true, false, none, some, String, ==-eq, if◌then◌else◌,
}
use unetic_core.Domain.Errors.{error_code_eq, error_stage_eq}
use unetic_core.Domain.Operation.{persisting, user, operation_source_eq}
use unetic_core.Domain.Config.{DesiredConfig}
use unetic_core.Platform.{RouterBackend, Host, FileOutcome, done, failed_before, failed_after}
use unetic_core.App.State.{App}
use unetic_core.App.Monad.{◌>>=◌, ◌>>◌, continue, modify_inner, pure, call}
use unetic_core.App.Store.{settle, persist_config}
use unetic_core.App.WifiOperations.{with_new_wifi, set_operation_status, persist_new_desired}
use unetic_core.App.Quiet.{Quiet-trans, Quietly-call, Quietly-set_operation_status}
use unetic_core.App.Ends.{Leaves}
use unetic_core.App.Leaves.{Leaves-Quiet, Leaves-bind, Leaves-weaken, Leaves-Quietly}
use unetic_core.Transaction.Context.{ChangeContext}
use unetic_core.Transaction.Wifi.{persist_if_user, persist_and_confirm}
use unetic_core.Transaction.Conclusion.{Pending}
use unetic_core.Transaction.Outcome.{kept}

module _ {W : Type 0} ⦃backend : RouterBackend W⦄ ⦃host : Host W⦄ (context : ChangeContext)
    (old : DesiredConfig) where
  abbrev Kept : App W → Type 0
  Kept = Pending context old

  -- What the writing of the new configuration leaves: the new one if it returns.
  abbrev pub Written : App W → Type 0
  Written t =
      (t.inner.config ≡ with_new_wifi context old)
      × (t.store.config ≡ some (with_new_wifi context old))

  write_config-Leaves :
      (s : App W) (outcome : FileOutcome)
      → s.inner.config ≡ old
      → Leaves
          (λ _. Written)
          (λ _. Kept)
          (continue
            (settle
              (λ files. record files { config = some (with_new_wifi context s.inner.config) })
              outcome
              s)
            (λ (_ : Unit {0}).
              modify_inner
                (λ inner. record inner { config = with_new_wifi context s.inner.config })))
  unfolding settle
  write_config-Leaves s done p =
      (ap (with_new_wifi context) p, ap (λ c. some (with_new_wifi context c)) p)
  write_config-Leaves s (failed_before message) p = inl p
  write_config-Leaves s (failed_after message) p = inl p

  persist_new_desired-Leaves :
      (s : App W)
      → s.inner.config ≡ old
      → Leaves (λ _. Written) (λ _. Kept) (persist_new_desired context s)
  unfolding persist_new_desired persist_config ◌>>=◌
  persist_new_desired-Leaves s p =
      let (outcome, w) = host.write_file "config.json" s.world in
      write_config-Leaves (record s { world = w }) outcome p

  abbrev pub Persisted : App W → Type 0
  Persisted t = Kept t × (context.source ≡ user → Written t)

  choose-Leaves :
      (wanted : Bool) (s : App W)
      → s.inner.config ≡ old
      → (context.source ≡ user → wanted ≡ true)
      → Leaves
          (λ _. Persisted)
          (λ _. Kept)
          ((if wanted
              then set_operation_status context persisting none >> persist_new_desired context
              else pure tt)
            s)
  choose-Leaves true s p h =
      Leaves-Quiet (λ _. Persisted) (λ _. Kept) _ _ s (Quietly-set_operation_status _ _ _)
        (λ _ t q.
          Leaves-weaken (λ _. Written) (λ _. Persisted) (λ _. Kept) _ (λ _ u w. (inr w.0, λ _. w))
            (persist_new_desired-Leaves t (q.config ∙ p)))
        (λ _ t q. inl (q.config ∙ p))
  choose-Leaves false s p h = (inl p, λ u. absurd (let e = h u in cc))

  persist_if_user-Leaves :
      (s : App W)
      → s.inner.config ≡ old
      → Leaves (λ _. Persisted) (λ _. Kept) (persist_if_user context s)
  unfolding persist_if_user
  persist_if_user-Leaves s p = choose-Leaves _ s p (==-eq _ _)

  pub persist_and_confirm-Leaves :
      (session : String) (s : App W)
      → s.inner.config ≡ old
      → Leaves (λ _. Persisted) (λ _. Kept) (persist_and_confirm context session s)
  unfolding persist_and_confirm
  persist_and_confirm-Leaves session s p =
      Leaves-bind (λ _. Persisted) (λ _. Kept) (λ _. Persisted) _ _ s (persist_if_user-Leaves s p)
        λ _ t h.
          Leaves-Quiet (λ _. Persisted) (λ _. Kept) _ _ t (Quietly-set_operation_status _ _ _)
            (λ _ u q.
              Leaves-Quietly (λ _. Persisted) (λ _. Kept) (call (backend.confirm session)) u
                (Quietly-call _)
                (λ _ v q₂.
                  let r = Quiet-trans q q₂ in
                  (kept r.config h.0, λ i. (r.config ∙ (h.1 i).0, r.stored ∙ (h.1 i).1)))
                (λ _ v q₂. kept (q₂.config ∙ q.config) h.0))
            (λ _ u q. kept q.config h.0)

-- ===== src/Recovery/Completion.antt =====
-- A user's Wi-Fi change that a restart interrupted is concluded by the recovery of its journal.
use unetic_core.Prelude.{
  ◌≡◌, ◌≢◌, ◌⊎◌, inl, inr, refl, ap, sym, subst, ◌∙◌, arith, ℕ, none, some, Option, String, ==-eq,
}
use unetic_core.Domain.Errors.{LegacyAppError}
use unetic_core.Domain.Operation.{
  OperationStatus, accepted, succeeded, user, operation_source_eq, TransactionJournal,
}
use unetic_core.Domain.Config.{DesiredConfig}
use unetic_core.Platform.{RouterBackend, Host}
use unetic_core.App.State.{App}
use unetic_core.App.Monad.{Action, returns, ◌>>=◌, continue}
use unetic_core.App.WifiOperations.{with_new_wifi}
use unetic_core.App.Quiet.{Quiet}
use unetic_core.App.Ends.{Leaves}
use unetic_core.App.Leaves.{Leaves-Quiet}
use unetic_core.Transaction.Context.{ChangeContext, to_journal}
use unetic_core.Transaction.Conclusion.{wifi_subject}
use unetic_core.Transaction.Outcome.{IsConcluded, OldOrNew, Concluded-write, Quiet-Concluded}
use unetic_core.Transaction.SyncQuiet.{Quietly-force_state_sync}
use unetic_core.Recovery.Journal.{
  matches_old_wifi, matches_new_wifi, recovered_operation, record_recovered_operation,
  close_journal, recover_old_wifi, confirm_new_wifi, recover_wifi_journal, recover_from_journal,
}
use unetic_core.Recovery.Closing.{close_journal-Leaves}
use unetic_core.Recovery.Decision.{IsUserChange, matches_old, lacks_old, matches_new}

-- The desired configuration is where it was, in force and on the disk.
pub record IsUnmoved {W : Type 0} (s t : App W) : Type 0 where
  pub config : t.inner.config ≡ s.inner.config
  pub stored : t.store.config ≡ s.store.config

module _ {W : Type 0} where
  Unmoved-Quiet : {s t u : App W} → IsUnmoved s t → Quiet t u → IsUnmoved s u
  Unmoved-Quiet p q = record { config = q.config ∙ p.config; stored = q.stored ∙ p.stored }

  Leaves-step :
      {A B : Type 0} (R : B → App W → Type 0) (F : LegacyAppError → App W → Type 0) (m : Action W A)
      (f : A → Action W B) (s : App W) (a : A) (t : App W)
      → m s ≡ (returns a, t)
      → Leaves R F (f a t)
      → Leaves R F ((m >>= f) s)
  unfolding ◌>>=◌
  Leaves-step R F m f s a t e h = subst (λ r. Leaves R F (continue r f)) (sym e) h

-- the journal that `set_wifi_config` writes
abbrev accepted_journal : ChangeContext → TransactionJournal
accepted_journal context = to_journal context accepted

module _ {W : Type 0} ⦃host : Host W⦄ where
  abbrev noted : TransactionJournal → OperationStatus → ℕ → Option LegacyAppError → App W → App W
  noted journal status revision error s = record s {
    inner = record s.inner {
      last_user_operation =
          some (recovered_operation journal status revision error (host.now_ms s.world));
    };
  }

  recorded :
      (journal : TransactionJournal) (status : OperationStatus) (revision : ℕ)
      (error : Option LegacyAppError) (s : App W)
      → journal.source ≡ user
      → record_recovered_operation journal status revision error s
        ≡ (returns tt, noted journal status revision error s)
  unfolding record_recovered_operation ◌>>=◌
  recorded journal status revision error s h = rw (==-eq journal.source user h) refl

  module _ ⦃backend : RouterBackend W⦄ (context : ChangeContext) (config : DesiredConfig)
      (change : IsUserChange context config) (from_user : context.source ≡ user)
      (request_id : String) (named : context.request_id ≡ some request_id) where
    -- What a recovery that returns leaves.
    abbrev Recovered : App W → App W → Type 0
    Recovered s t =
        IsConcluded (wifi_subject context) config (with_new_wifi context config) t × IsUnmoved s t

    close-Recovered :
        (s t : App W)
        → Recovered s t
        → Leaves
            (λ _ u. Recovered s u × (u.store.transaction ≡ none))
            (λ _ u. IsUnmoved s u)
            (close_journal t)
    close-Recovered s t (concluded, unmoved) =
        close_journal-Leaves (Recovered s) (IsUnmoved s) t
          (λ u q. (Quiet-Concluded q concluded, Unmoved-Quiet unmoved q))
          (λ u q. Unmoved-Quiet unmoved q)

    noted-Recovered :
        (s t : App W) (status : OperationStatus) (revision : ℕ) (error : Option LegacyAppError)
        → IsUnmoved s t
        → t.inner.active_operation ≡ none
        → OldOrNew config (with_new_wifi context config) s.inner.config
        → revision ≡ s.inner.config.revision
        → (status ≡ succeeded)
            × (error ≡ none)
            × (s.inner.config ≡ with_new_wifi context config)
            × (s.store.config ≡ some (with_new_wifi context config))
          ⊎ (status ≢ succeeded) × (error ≢ none)
        → Recovered s (noted (accepted_journal context) status revision error t)
    unfolding recovered_operation to_journal
    noted-Recovered s t status revision error unmoved idle pending q result = (
      Concluded-write _ _ idle
          (elim pending [ inl p ↦ inl (unmoved.config ∙ p) | inr p ↦ inr (unmoved.config ∙ p) ])
          (λ _. refl)
          (λ _. record {
            id = refl;
            request_id = ground arith;
            revision = q ∙ ap (λ (c : DesiredConfig). c.revision) (sym unmoved.config);
            result = elim result [
              | inl r ↦ inl (r.0, r.1, unmoved.config ∙ r.2, unmoved.stored ∙ r.3)
              | inr r ↦ inr r
            ];
          }),
      record { config = unmoved.config; stored = unmoved.stored },
    )

    recover_old-Recovered :
        (s : App W)
        → s.inner.config ≡ config
        → s.inner.active_operation ≡ none
        → Leaves
            (λ _ u. Recovered s u × (u.store.transaction ≡ none))
            (λ _ u. IsUnmoved s u)
            (recover_old_wifi (accepted_journal context) s)
    unfolding recover_old_wifi to_journal
    recover_old-Recovered s old idle =
        Leaves-Quiet _ _ _ _ s (Quietly-force_state_sync _ _ _)
          (λ _ t q.
            Leaves-step _ _ _ _ t tt _ (recorded (accepted_journal context) _ _ _ t from_user) (
              close-Recovered s _ (
                noted-Recovered s t _ _ _ (record { config = q.config; stored = q.stored })
                  (q.idle idle) (inl old)
                  (change.base ∙ ap (λ (c : DesiredConfig). c.revision) (sym old))
                  (inr ((λ p. cc), (λ p. cc))))))
          (λ e t q. record { config = q.config; stored = q.stored })

    confirm_new-Recovered :
        (s : App W)
        → s.inner.config ≡ with_new_wifi context config
        → s.store.config ≡ some s.inner.config
        → s.inner.active_operation ≡ none
        → Leaves
            (λ _ u. Recovered s u × (u.store.transaction ≡ none))
            (λ _ u. IsUnmoved s u)
            (confirm_new_wifi (accepted_journal context) s)
    unfolding confirm_new_wifi to_journal with_new_wifi
    confirm_new-Recovered s new stored idle =
        Leaves-Quiet _ _ _ _ s (Quietly-force_state_sync _ _ _)
          (λ _ t q.
            Leaves-step _ _ _ _ t tt _ (recorded (accepted_journal context) _ _ _ t from_user) (
              close-Recovered s _ (
                noted-Recovered s t _ _ _ (record { config = q.config; stored = q.stored })
                  (q.idle idle) (inr new) (ap (λ (c : DesiredConfig). c.revision) (sym new))
                  (inl (refl, refl, new, stored ∙ ap some new)))))
          (λ e t q. record { config = q.config; stored = q.stored })

    -- The journal tells which of the two configurations is in force.
    pub recover_wifi-Recovered :
        (s : App W)
        → OldOrNew config (with_new_wifi context config) s.inner.config
        → s.store.config ≡ some s.inner.config
        → s.inner.active_operation ≡ none
        → Leaves
            (λ _ u. Recovered s u × (u.store.transaction ≡ none))
            (λ _ u. IsUnmoved s u)
            (recover_from_journal (accepted_journal context) s)
    unfolding recover_from_journal recover_wifi_journal to_journal
    recover_wifi-Recovered s (inl old) stored idle =
        rw
          (ap (λ c. matches_old_wifi c (accepted_journal context)) old
            ∙ matches_old context config change)
          (recover_old-Recovered s old idle)
    recover_wifi-Recovered s (inr new) stored idle =
        rw
          (ap (λ c. matches_old_wifi c (accepted_journal context)) new
            ∙ lacks_old context config change)
          (rw
            (ap (λ c. matches_new_wifi c (accepted_journal context)) new
              ∙ matches_new context config change)
            (confirm_new-Recovered s new stored idle))

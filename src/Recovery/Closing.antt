-- ===== src/Recovery/Closing.antt =====
-- The end of a recovery: the journal is gone, and what held before still does.
use unetic_core.Prelude.{◌≡◌, refl, ap, ◌∙◌, Bool, none, some, Option}
use unetic_core.Domain.Operation.{TransactionJournal}
use unetic_core.Platform.{RouterBackend, Host, FileOutcome, done, failed_before, failed_after}
use unetic_core.App.State.{App, StateStore}
use unetic_core.App.Monad.{Outcome, returns, fails, hangs, ◌>>=◌}
use unetic_core.App.Store.{clear_transaction, clear_present, settle}
use unetic_core.App.Quiet.{Quiet, Quiet-trans, Quietly-clear_transaction, Quietly-refresh_observed}
use unetic_core.App.Still.{Looks-refresh_observed}
use unetic_core.App.Ends.{Leaves}
use unetic_core.App.Leaves.{Leaves-bind}
use unetic_core.Requests.Steps.{Any, everywhere}
use unetic_core.Recovery.Journal.{close_journal}

module _ {W : Type 0} ⦃host : Host W⦄ where
  settled_clear :
      (outcome : FileOutcome) (s : App W)
      → Leaves
          (λ _ t. t.store.transaction ≡ none)
          Any
          (settle (λ files. record files { transaction = none }) outcome s)
  unfolding settle
  settled_clear done s = refl
  settled_clear (failed_before message) s = tt
  settled_clear (failed_after message) s = tt

  cleared_present :
      (file : Option TransactionJournal) (s : App W)
      → s.store.transaction ≡ file
      → Leaves (λ _ t. t.store.transaction ≡ none) Any (clear_present file s)
  unfolding clear_present ◌>>=◌
  cleared_present none s q = q
  cleared_present (some journal) s q = settled_clear _ _

  clear_transaction-clears :
      (s : App W) → Leaves (λ _ t. t.store.transaction ≡ none) Any (clear_transaction s)
  unfolding clear_transaction
  clear_transaction-clears s = cleared_present _ s refl

  both :
      {A : Type 0} (K P F : App W → Type 0) (r : Outcome A × App W)
      → K r.1
      → ((t : App W) → K t → F t)
      → Leaves (λ _. P) Any r
      → Leaves (λ _ t. K t × P t) (λ _. F) r
  both K P F (returns a, t) k f p = (k, p)
  both K P F (fails e, t) k f p = f t k
  both K P F (hangs, t) k f p = tt

  module _ ⦃backend : RouterBackend W⦄ where
    -- What a quiet action keeps, a recovery keeps while it closes the journal.
    pub close_journal-Leaves :
        (Q F : App W → Type 0) (s : App W)
        → ((t : App W) → Quiet s t → Q t)
        → ((t : App W) → Quiet s t → F t)
        → Leaves (λ _ t. Q t × (t.store.transaction ≡ none)) (λ _. F) (close_journal s)
    unfolding close_journal
    close_journal-Leaves Q F s q f =
        let closed : App W → Type 0 = λ t. t.store.transaction ≡ none in
        let both_hold : Unit {0} → App W → Type 0 =
          λ _ t. Quiet s t × (t.store.transaction ≡ none) in
        let goal : Unit {0} → App W → Type 0 = λ _ t. Q t × (t.store.transaction ≡ none) in
        Leaves-bind both_hold (λ _. F) goal _ _ s
          (both (Quiet s) closed F _ (Quietly-clear_transaction.at s) f
            (clear_transaction-clears s))
          λ _ t (kept, none_left).
            Leaves-bind (λ (_ : Bool) u. Quiet s u × (u.store.transaction ≡ none)) (λ _. F) goal _ _
              t
              (both (Quiet s) closed F _ (Quiet-trans kept (Quietly-refresh_observed.at t)) f (
                everywhere closed _ (
                  ap (λ (files : StateStore). files.transaction) (Looks-refresh_observed.at t).store
                  ∙ none_left)))
              λ _ u (kept₂, none_left₂). (q u kept₂, none_left₂)

-- ===== src/Requests/Steps.antt =====
-- What the steps of a request leave of the state.
use unetic_core.Prelude.{◌≡◌, refl, arith, some}
use unetic_core.Domain.Errors.{LegacyAppError}
use unetic_core.Domain.Operation.{TransactionJournal}
use unetic_core.Platform.{Host, FileOutcome, done, failed_before, failed_after}
use unetic_core.App.State.{App, StateTopic}
use unetic_core.App.Monad.{Outcome, returns, fails, hangs, ◌>>=◌, recover}
use unetic_core.App.Ends.{Leaves}
use unetic_core.App.Store.{settle, persist_transaction}
use unetic_core.App.Publisher.{publish, queue_state_update, send_pending_state}
use unetic_core.Requests.Repetition.{Kept}

module _ {W : Type 0} where
  pub recover-inner : {A : Type 0} (r : Outcome A × App W) → (recover r).1.inner ≡ r.1.inner
  recover-inner (returns a, t) = refl
  recover-inner (fails e, t) = refl
  recover-inner (hangs, t) = refl

  abbrev pub Any : LegacyAppError → App W → Type 0
  Any _ _ = Unit

  pub everywhere :
      {A : Type 0} (K : App W → Type 0) (r : Outcome A × App W) → K r.1 → Leaves (λ _. K) Any r
  everywhere K (returns a, t) h = h
  everywhere K (fails e, t) h = tt
  everywhere K (hangs, t) h = tt

  module _ ⦃host : Host W⦄ where
    pub publish-Kept : (topic : StateTopic) (s : App W) → Kept s.inner (publish topic s).1.inner
    unfolding publish queue_state_update send_pending_state
    publish-Kept topic s = record {
      base = record { config = ground arith; lifecycle = ground arith; maintenance = ground arith };
      active = ground arith;
      last = ground arith;
    }

    pub persist_inner :
        (journal : TransactionJournal) (s : App W)
        → (persist_transaction journal s).1.inner ≡ s.inner
    unfolding persist_transaction settle ◌>>=◌
    persist_inner journal s = ground arith

    -- the journal on the disk
    abbrev pub Holds : TransactionJournal → App W → Type 0
    Holds journal t = t.store.transaction ≡ some journal

    settled_journal :
        (journal : TransactionJournal) (outcome : FileOutcome) (s : App W)
        → Leaves
            (λ _. Holds journal)
            Any
            (settle (λ files. record files { transaction = some journal }) outcome s)
    unfolding settle
    settled_journal journal done s = refl
    settled_journal journal (failed_before message) s = tt
    settled_journal journal (failed_after message) s = tt

    pub persist_transaction-Holds :
        (journal : TransactionJournal) (s : App W)
        → Leaves (λ _. Holds journal) Any (persist_transaction journal s)
    unfolding persist_transaction ◌>>=◌
    persist_transaction-Holds journal s = settled_journal journal _ _

    pub publish_store :
        (topic : StateTopic) (s : App W)
        → (publish topic s).1.store.transaction ≡ s.store.transaction
    unfolding publish queue_state_update send_pending_state
    publish_store topic s = ground arith

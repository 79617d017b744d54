-- ===== src/Transaction/Outcome.antt =====
-- How a change of the desired configuration ends, whatever it changes.
use unetic_core.Prelude.{
  ◌≡◌, ◌≢◌, ◌⊎◌, inl, inr, refl, ◌∙◌, ap, sym, Bool, true, false, Option, none, some, String,
  if◌then◌else◌,
}
use unetic_core.Domain.Operation.{
  OperationSource, succeeded, failed, rollback_failed, user, LastOperation,
}
use unetic_core.Domain.Config.{DesiredConfig}
use unetic_core.App.State.{App}
use unetic_core.App.Monad.{Outcome, returns, fails, hangs}
use unetic_core.App.Quiet.{Quiet}
use unetic_core.App.Ends.{Ends}
use unetic_core.App.Timely.{Alive}

-- What is asked for, by whom.
pub record Subject : Type 0 where
  pub operation_id : String
  pub request_id : Option String
  pub source : OperationSource

-- The user's operation as it is reported at the end: a success without an error, and then the new
-- configuration is the one in force and the one on the disk, or a failure with an error.
pub record IsReported (subject : Subject) (new config : DesiredConfig)
    (stored : Option DesiredConfig) (last : LastOperation) : Type 0 where
  pub id : last.id ≡ subject.operation_id
  pub request_id : last.request_id ≡ subject.request_id
  pub revision : last.revision ≡ config.revision
  pub result :
      (last.status ≡ succeeded) × (last.error ≡ none) × (config ≡ new) × (stored ≡ some new)
      ⊎ (last.status ≢ succeeded) × (last.error ≢ none)

abbrev pub OldOrNew : DesiredConfig → DesiredConfig → DesiredConfig → Type 0
OldOrNew old new config = (config ≡ old) ⊎ (config ≡ new)

pub record IsConcluded {W : Type 0} (subject : Subject) (old new : DesiredConfig) (t : App W)
    : Type 0 where
  pub idle : t.inner.active_operation ≡ none
  pub config : OldOrNew old new t.inner.config
  pub reported :
      subject.source ≡ user
      → (last : LastOperation) × (t.inner.last_user_operation ≡ some last)
        × IsReported subject new t.inner.config t.store.config last

-- over the same configuration
pub kept : {old new c d : DesiredConfig} → d ≡ c → OldOrNew old new c → OldOrNew old new d
kept q (inl p) = inl (q ∙ p)
kept q (inr p) = inr (q ∙ p)

pub is_failure : (badly : Bool) → (if badly then rollback_failed else failed) ≢ succeeded
is_failure true p = cc
is_failure false p = cc

Result-kept :
    {subject : Subject} {new c d : DesiredConfig} {stored stored' : Option DesiredConfig}
    {last : LastOperation}
    → d ≡ c
    → stored' ≡ stored
    → IsReported subject new c stored last
    → IsReported subject new d stored' last
Result-kept q q₂ r = record {
  id = r.id;
  request_id = r.request_id;
  revision = r.revision ∙ ap (λ (c : DesiredConfig). c.revision) (sym q);
  result = elim r.result [ inl p ↦ inl (p.0, p.1, q ∙ p.2, q₂ ∙ p.3) | inr p ↦ inr p ];
}

module _ {W : Type 0} {subject : Subject} {old new : DesiredConfig} where
  pub Quiet-Concluded :
      {s t : App W} → Quiet s t → IsConcluded subject old new s → IsConcluded subject old new t
  Quiet-Concluded q c = record {
    idle = q.idle c.idle;
    config = kept q.config c.config;
    reported = λ u.
        let (last, known, r) = c.reported u in
        (last, q.last ∙ known, Result-kept q.config q.stored r);
  }

  -- what holds of the state that an operation's end is written into
  pub Concluded-write :
      (last : LastOperation) (t : App W)
      → t.inner.active_operation ≡ none
      → OldOrNew old new t.inner.config
      → (subject.source ≡ user → t.inner.last_user_operation ≡ some last)
      → (subject.source ≡ user → IsReported subject new t.inner.config t.store.config last)
      → IsConcluded subject old new t
  Concluded-write last t i p l r = record { idle = i; config = p; reported = λ u. (last, l u, r u) }

-- what does not hang and fails nowhere returns
abbrev pub Concludes : {W : Type 0} → (App W → Type 0) → Outcome (Unit {0}) × App W → Type 0
Concludes {W} Q r = (t : App W) × (r ≡ (returns tt, t)) × Q t

pub settled :
    {W : Type 0} {Q : App W → Type 0} (r : Outcome (Unit {0}) × App W)
    → Alive r.0
    → Ends Q r
    → Concludes Q r
settled (returns u, t) l h = (t, refl, h)
settled (fails e, t) l h = absurd h
settled (hangs, t) l h = absurd l

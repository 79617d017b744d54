-- ===== src/App/Ends.antt =====
-- How an action ends: what holds where it returns, given that it fails nowhere. An action that hangs
-- ends nowhere; that the loops of the core do not hang is proved apart.
use unetic_core.Prelude.{
  ◌≡◌, refl, arith, Bool, true, false, Option, List, String, Map, if◌then◌else◌, ok, err,
}
use unetic_core.Domain.Errors.{LegacyAppError, Fallible}
use unetic_core.Domain.Wifi.{WifiNetworkConfig}
use unetic_core.Domain.Roaming.{RoamingConfig}
use unetic_core.Platform.{RouterBackend, Host, Effect}
use unetic_core.App.State.{App, Inner, StateTopic}
use unetic_core.App.Monad.{
  Action, Outcome, returns, fails, hangs, ◌>>=◌, pure, gets, call, host_call, try, modify_inner,
  ignore, recover, continue,
}
use unetic_core.App.Publisher.{publish}
use unetic_core.App.Store.{clear_transaction}
use unetic_core.App.Observation.{with_inner, observe_wifi, refresh_observed}
use unetic_core.App.WifiOperations.{
  clear_journal_if, set_operation_status, set_operation_status_with_kind,
}
use unetic_core.Domain.Operation.{OperationStatus}
use unetic_core.Transaction.Context.{ChangeContext}
use unetic_core.App.Quiet.{Quiet, Quietly}

-- The state is related to the result where the action returns, and to the error where it fails.
abbrev pub Leaves :
    {W A : Type 0}
    → (A → App W → Type 0)
    → (LegacyAppError → App W → Type 0)
    → Outcome A × App W
    → Type 0
Leaves R F (returns a, t) = R a t
Leaves R F (fails e, t) = F e t
Leaves R F (hangs, t) = Unit

-- It fails nowhere, and `Q` holds where it returns.
abbrev pub Ends : {W A : Type 0} → (App W → Type 0) → Outcome A × App W → Type 0
Ends Q = Leaves (λ _. Q) (λ _ _. ⊥)

abbrev pub returned {ℓ} : {A : Type ℓ} → Outcome A → Bool
returned (returns a) = true
returned (fails e) = false
returned hangs = false

pub record Returns {W A : Type 0} (m : Action W A) : Type 0 where
  pub at : (s : App W) → returned (m s).0 ≡ true

module _ {W A : Type 0} where
  Returns-pure : (a : A) → Returns {W = W} (pure a)
  Returns-pure a = record { at = λ s. refl }

  Returns-gets : (f : App W → A) → Returns (gets f)
  Returns-gets f = record { at = λ s. refl }

  Returns-host_call : (f : W → A × W) → Returns (host_call f)
  Returns-host_call f = record { at = λ s. refl }

  recover-returned : (r : Outcome A × App W) → returned r.0 ≡ true → returned (recover r).0 ≡ true
  recover-returned (returns a, t) h = refl
  recover-returned (fails e, t) h = refl
  recover-returned (hangs, t) h = h

  -- a call of the router returns or fails
  pub Returns-try-call : (f : Effect W A) → Returns (try (call f))
  Returns-try-call f = record { at = λ s. ground arith }

  Returns-try : (m : Action W A) → Returns m → Returns (try m)
  Returns-try m h = record { at = λ s. recover-returned (m s) (h.at s) }

  Returns-if : (b : Bool) (m n : Action W A) → Returns m → Returns n → Returns (if b then m else n)
  Returns-if true m n p q = p
  Returns-if false m n p q = q

module _ {W A B : Type 0} where
  continue-returned :
      (r : Outcome A × App W) (f : A → Action W B)
      → returned r.0 ≡ true
      → ((a : A) → Returns (f a))
      → returned (continue r f).0 ≡ true
  continue-returned (returns a, t) f h k = (k a).at t
  continue-returned (fails e, t) f h k = cc
  continue-returned (hangs, t) f h k = cc

  Returns-bind :
      (m : Action W A) (f : A → Action W B)
      → Returns m
      → ((a : A) → Returns (f a))
      → Returns (m >>= f)
  unfolding ◌>>=◌
  Returns-bind m f q k = record { at = λ s. continue-returned (m s) f (q.at s) k }

module _ {W A : Type 0} where
  pub Returns-ignore : (m : Action W A) → Returns m → Returns (ignore m)
  unfolding ignore
  Returns-ignore m h = Returns-bind _ _ (Returns-try m h) λ _. Returns-pure tt

  pub Returns-ignore-call : (f : Effect W A) → Returns (ignore (call f))
  unfolding ignore
  Returns-ignore-call f = Returns-bind _ _ (Returns-try-call f) λ _. Returns-pure tt

-- The rules for `Ends`, one for each way in which an action begins.
module _ {W A B : Type 0} (R : B → App W → Type 0) (F : LegacyAppError → App W → Type 0) where
  continue-sure :
      (s : App W) (r : Outcome A × App W) (f : A → Action W B)
      → returned r.0 ≡ true
      → Quiet s r.1
      → ((a : A) (t : App W) → Quiet s t → Leaves R F (f a t))
      → Leaves R F (continue r f)
  continue-sure s (returns a, t) f h q k = k a t q
  continue-sure s (fails e, t) f h q k = absurd (cc)
  continue-sure s (hangs, t) f h q k = absurd (cc)

  -- a beginning that returns and is quiet
  pub Leaves-sure :
      (m : Action W A) (f : A → Action W B) (s : App W)
      → Returns m
      → Quietly m
      → ((a : A) (t : App W) → Quiet s t → Leaves R F (f a t))
      → Leaves R F ((m >>= f) s)
  unfolding ◌>>=◌
  Leaves-sure m f s h q k = continue-sure s (m s) f (h.at s) (q.at s) k

module _ {W A B : Type 0} (Q : App W → Type 0) where
  pub Ends-Quiet :
      (m : Action W A) (f : A → Action W B) (s : App W)
      → Returns m
      → Quietly m
      → ((a : A) (t : App W) → Quiet s t → Ends Q (f a t))
      → Ends Q ((m >>= f) s)
  Ends-Quiet = Leaves-sure (λ _. Q) (λ _ _. ⊥)

  pub Ends-gets :
      (g : App W → A) (f : A → Action W B) (s : App W)
      → Ends Q (f (g s) s)
      → Ends Q ((gets g >>= f) s)
  unfolding ◌>>=◌
  Ends-gets g f s h = h

  recover-Ends :
      (s : App W) (r : Outcome A × App W) (f : Fallible A → Action W B)
      → Quiet s r.1
      → ((a : Fallible A) (t : App W) → Quiet s t → Ends Q (f a t))
      → Ends Q (continue (recover r) f)
  recover-Ends s (returns a, t) f q k = k (ok a) t q
  recover-Ends s (fails e, t) f q k = k (err e) t q
  recover-Ends s (hangs, t) f q k = tt

  -- a part that is quiet, whatever its result
  pub Ends-try :
      (m : Action W A) (f : Fallible A → Action W B) (s : App W)
      → Quietly m
      → ((a : Fallible A) (t : App W) → Quiet s t → Ends Q (f a t))
      → Ends Q ((try m >>= f) s)
  unfolding ◌>>=◌
  Ends-try m f s q k = recover-Ends s (m s) f (q.at s) k

module _ {W B : Type 0} (Q : App W → Type 0) where
  pub Ends-modify :
      (g : Inner → Inner) (f : Unit {0} → Action W B) (s : App W)
      → Ends Q (f tt (record s { inner = g s.inner }))
      → Ends Q ((modify_inner g >>= f) s)
  unfolding ◌>>=◌
  Ends-modify g f s h = h

module _ {W : Type 0} ⦃host : Host W⦄ where
  Returns-modify : (g : Inner → Inner) → Returns {W = W} (modify_inner g)
  Returns-modify g = record { at = λ s. refl }

  pub Returns-publish : (topic : StateTopic) → Returns (publish {W = W} topic)
  unfolding publish
  Returns-publish topic = record { at = λ s. refl }

  pub Returns-set_operation_status_with_kind :
      (id kind : String) (status : OperationStatus) (error : Option LegacyAppError)
      → Returns {W = W} (set_operation_status_with_kind id kind status error)
  unfolding set_operation_status_with_kind
  Returns-set_operation_status_with_kind id kind status error =
      Returns-bind _ _ (Returns-modify _)
        λ _. Returns-bind _ _ (Returns-publish _) λ _. Returns-pure tt

  pub Returns-set_operation_status :
      (context : ChangeContext) (status : OperationStatus) (error : Option LegacyAppError)
      → Returns {W = W} (set_operation_status context status error)
  unfolding set_operation_status
  Returns-set_operation_status context status error =
      Returns-set_operation_status_with_kind context.operation_id "wifi.set_config" status error

  pub Returns-clear_journal_if : (wanted : Bool) → Returns (clear_journal_if {W = W} wanted)
  unfolding clear_journal_if clear_transaction ◌>>=◌
  Returns-clear_journal_if wanted = record { at = λ s. ground arith }

module _ {W : Type 0} ⦃backend : RouterBackend W⦄ where
  Returns-with_inner : (f : Inner → Inner × Bool) → Returns {W = W} (with_inner f)
  unfolding with_inner
  Returns-with_inner f = record { at = λ s. refl }

  Returns-observe_wifi :
      (targets : List String) (desired : WifiNetworkConfig) (roaming : RoamingConfig)
      (changed : Bool) (configs : Fallible (Map WifiNetworkConfig))
      → Returns {W = W} (observe_wifi targets desired roaming changed configs)
  unfolding observe_wifi
  Returns-observe_wifi targets desired roaming changed (ok configs) =
      Returns-bind _ _ (Returns-try-call _) λ _.
        Returns-bind _ _ (Returns-host_call _)
          λ _. Returns-bind _ _ (Returns-try-call _) λ _. Returns-with_inner _
  Returns-observe_wifi targets desired roaming changed (err error) =
      Returns-bind _ _ (Returns-host_call _) λ _. Returns-with_inner _

  pub Returns-refresh_observed : Returns {W = W} refresh_observed
  unfolding refresh_observed
  Returns-refresh_observed = Returns-bind _ _ (Returns-gets _) λ desired.
      Returns-bind _ _ (Returns-gets _) λ roaming.
        Returns-bind _ _ (Returns-try-call _) λ observation.
          Returns-bind _ _ (Returns-with_inner _) λ changed.
            Returns-if _ _ _ (Returns-pure _) (
              Returns-bind _ _ (Returns-try-call _) λ configs. Returns-observe_wifi _ _ _ _ configs)

-- ===== src/App/Monad.antt =====
-- A method of `App`: it reads and changes the state, and returns, fails, or hangs, as where a loop
-- runs out of the rounds that its model has. Locks are in Mutex.
use unetic_core.Prelude.{ok, err}
use unetic_core.Domain.Errors.{LegacyAppError, Fallible}
use unetic_core.Platform.{Effect}
use unetic_core.App.State.{App, Inner}

pub data Outcome {ℓ} (A : Type ℓ) : Type ℓ where
  returns : A → Outcome A
  fails : LegacyAppError → Outcome A
  hangs : Outcome A

abbrev pub Action : Type 0 → Type 0 → Type 0
Action W A = App W → Outcome A × App W

abbrev of_result : {A : Type 0} → Fallible A → Outcome A
of_result (ok a) = returns a
of_result (err e) = fails e

module _ {W A : Type 0} where
  abbrev pub pure : A → Action W A
  pure a s = (returns a, s)

  abbrev pub raise : LegacyAppError → Action W A
  raise e s = (fails e, s)

  abbrev pub hang : Action W A
  hang s = (hangs, s)

  abbrev pub gets : (App W → A) → Action W A
  gets f s = (returns (f s), s)

  -- a pure check with `?`
  abbrev pub lift : Fallible A → Action W A
  lift r s = (of_result r, s)

  -- a call of the router
  abbrev pub call : Effect W A → Action W A
  call effect s = let (r, w) = effect s.world in (of_result r, record s { world = w })

  -- the call as a value: `match self.backend.f(..) { Ok(a) => .., Err(e) => .. }`
  abbrev pub recover : Outcome A × App W → Outcome (Fallible A) × App W
  recover (returns a, s) = (returns (ok a), s)
  recover (fails e, s) = (returns (err e), s)
  recover (hangs, s) = (hangs, s)

  abbrev pub try : Action W A → Action W (Fallible A)
  try m s = recover (m s)

  -- a call of the host
  abbrev pub host_call : (W → A × W) → Action W A
  host_call f s = let (a, w) = f s.world in (returns a, record s { world = w })

module _ {W A B : Type 0} where
  abbrev pub continue : Outcome A × App W → (A → Action W B) → Outcome B × App W
  continue (returns a, s) f = f a s
  continue (fails e, s) f = (fails e, s)
  continue (hangs, s) f = (hangs, s)

  infixl 5 ◌>>=◌ ◌>>◌
  unfoldable pub ◌>>=◌ : Action W A → (A → Action W B) → Action W B
  ◌>>=◌ m f s = continue (m s) f

  abbrev pub ◌>>◌ : Action W A → Action W B → Action W B
  m >> n = m >>= λ _. n

module _ {W A : Type 0} where
  -- `let _ = self.backend.f(..);`
  unfoldable pub ignore : Action W A → Action W (Unit {0})
  unfolding ◌>>=◌
  ignore m = try m >>= λ _. pure tt

module _ {W : Type 0} where
  abbrev pub modify_inner : (Inner → Inner) → Action W (Unit {0})
  modify_inner f s = (returns tt, record s { inner = f s.inner })

-- ===== src/App/Mutex.antt =====
-- The mutex around the state of `App` (src/application/app/mod.rs), as the thread sees it that runs a
-- method. It is not reentrant: a thread that locks it while it holds it hangs.
use unetic_core.App.State.{App}
use unetic_core.App.Monad.{Action, Outcome, returns, fails, hangs}

pub data Mutex : Type 0 where
  free held : Mutex

-- A method that says when it takes the lock.
abbrev pub Locking : Type 0 → Type 0 → Type 0
Locking W A = Mutex → App W → Outcome A × Mutex × App W

module _ {W A : Type 0} where
  -- a step that takes no lock itself
  abbrev pub step : Action W A → Locking W A
  step m x s = let (r, t) = m s in (r, x, t)

  abbrev pub pure : A → Locking W A
  pure a x s = (returns a, x, s)

  -- the guard is dropped on every way out of its scope
  abbrev pub release : Outcome A × Mutex × App W → Outcome A × Mutex × App W
  release (returns a, x, s) = (returns a, free, s)
  release (fails e, x, s) = (fails e, free, s)
  release (hangs, x, s) = (hangs, x, s)

  -- `{ let inner = self.inner.lock(); body }`
  unfoldable pub scope : Locking W A → Locking W A
  scope body free s = release (body held s)
  scope body held s = (hangs, held, s)

module _ {W A B : Type 0} where
  abbrev pub continue : Outcome A × Mutex × App W → (A → Locking W B) → Outcome B × Mutex × App W
  continue (returns a, x, s) f = f a x s
  continue (fails e, x, s) f = (fails e, x, s)
  continue (hangs, x, s) f = (hangs, x, s)

  infixl 5 ◌>>=◌ ◌>>◌
  unfoldable pub ◌>>=◌ : Locking W A → (A → Locking W B) → Locking W B
  ◌>>=◌ m f x s = continue (m x s) f

  abbrev pub ◌>>◌ : Locking W A → Locking W B → Locking W B
  m >> n = m >>= λ _. n

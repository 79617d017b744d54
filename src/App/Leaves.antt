-- ===== src/App/Leaves.antt =====
-- What an action leaves behind, told apart by whether it returns or fails.
use unetic_core.Prelude.{Bool, true, false, ok, err, if◌then◌else◌}
use unetic_core.Domain.Errors.{LegacyAppError, Fallible}
use unetic_core.App.State.{App, Inner}
use unetic_core.App.Monad.{
  Action, Outcome, returns, fails, hangs, ◌>>=◌, try, recover, continue, gets, modify_inner,
}
use unetic_core.App.Quiet.{Quiet, Quietly}
use unetic_core.App.Ends.{Leaves}

module _ {W A B : Type 0} (R : B → App W → Type 0) (F : LegacyAppError → App W → Type 0) where
  continue-Leaves :
      (s : App W) (r : Outcome A × App W) (f : A → Action W B)
      → Quiet s r.1
      → ((a : A) (t : App W) → Quiet s t → Leaves R F (f a t))
      → ((e : LegacyAppError) (t : App W) → Quiet s t → F e t)
      → Leaves R F (continue r f)
  continue-Leaves s (returns a, t) f q k l = k a t q
  continue-Leaves s (fails e, t) f q k l = l e t q
  continue-Leaves s (hangs, t) f q k l = tt

  -- an action that begins quietly
  pub Leaves-Quiet :
      (m : Action W A) (f : A → Action W B) (s : App W)
      → Quietly m
      → ((a : A) (t : App W) → Quiet s t → Leaves R F (f a t))
      → ((e : LegacyAppError) (t : App W) → Quiet s t → F e t)
      → Leaves R F ((m >>= f) s)
  unfolding ◌>>=◌
  Leaves-Quiet m f s q k l = continue-Leaves s (m s) f (q.at s) k l

module _ {W A : Type 0} (R : A → App W → Type 0) (F : LegacyAppError → App W → Type 0) where
  outcome-Leaves :
      (s : App W) (r : Outcome A × App W)
      → Quiet s r.1
      → ((a : A) (t : App W) → Quiet s t → R a t)
      → ((e : LegacyAppError) (t : App W) → Quiet s t → F e t)
      → Leaves R F r
  outcome-Leaves s (returns a, t) q k l = k a t q
  outcome-Leaves s (fails e, t) q k l = l e t q
  outcome-Leaves s (hangs, t) q k l = tt

  -- an action that is quiet to its end
  pub Leaves-Quietly :
      (m : Action W A) (s : App W)
      → Quietly m
      → ((a : A) (t : App W) → Quiet s t → R a t)
      → ((e : LegacyAppError) (t : App W) → Quiet s t → F e t)
      → Leaves R F (m s)
  Leaves-Quietly m s q k l = outcome-Leaves s (m s) (q.at s) k l

module _ {W A B : Type 0} (P : A → App W → Type 0) (F : LegacyAppError → App W → Type 0) where
  chain-Leaves :
      (S : B → App W → Type 0) (r : Outcome A × App W) (f : A → Action W B)
      → Leaves P F r
      → ((a : A) (t : App W) → P a t → Leaves S F (f a t))
      → Leaves S F (continue r f)
  chain-Leaves S (returns a, t) f h k = k a t h
  chain-Leaves S (fails e, t) f h k = h
  chain-Leaves S (hangs, t) f h k = tt

  pub Leaves-bind :
      (S : B → App W → Type 0) (m : Action W A) (f : A → Action W B) (s : App W)
      → Leaves P F (m s)
      → ((a : A) (t : App W) → P a t → Leaves S F (f a t))
      → Leaves S F ((m >>= f) s)
  unfolding ◌>>=◌
  Leaves-bind S m f s h k = chain-Leaves S (m s) f h k

module _ {W A : Type 0} (P R : A → App W → Type 0) (F : LegacyAppError → App W → Type 0) where
  pub Leaves-weaken :
      (r : Outcome A × App W) → ((a : A) (t : App W) → P a t → R a t) → Leaves P F r → Leaves R F r
  Leaves-weaken (returns a, t) k h = k a t h
  Leaves-weaken (fails e, t) k h = h
  Leaves-weaken (hangs, t) k h = tt

module _ {W A B : Type 0} (R : A → App W → Type 0) (F : LegacyAppError → App W → Type 0)
    (S : B → App W → Type 0) (G : LegacyAppError → App W → Type 0) where
  recover-Leaves :
      (r : Outcome A × App W) (f : Fallible A → Action W B)
      → Leaves R F r
      → ((a : A) (t : App W) → R a t → Leaves S G (f (ok a) t))
      → ((e : LegacyAppError) (t : App W) → F e t → Leaves S G (f (err e) t))
      → Leaves S G (continue (recover r) f)
  recover-Leaves (returns a, t) f h k l = k a t h
  recover-Leaves (fails e, t) f h k l = l e t h
  recover-Leaves (hangs, t) f h k l = tt

  -- an action whose error is looked at
  pub Leaves-try :
      (m : Action W A) (f : Fallible A → Action W B) (s : App W)
      → Leaves R F (m s)
      → ((a : A) (t : App W) → R a t → Leaves S G (f (ok a) t))
      → ((e : LegacyAppError) (t : App W) → F e t → Leaves S G (f (err e) t))
      → Leaves S G ((try m >>= f) s)
  unfolding ◌>>=◌
  Leaves-try m f s h k l = recover-Leaves (m s) f h k l

module _ {W A : Type 0} (R : A → App W → Type 0) (F : LegacyAppError → App W → Type 0) where
  pub Leaves-if :
      (b : Bool) (m n : Action W A) (s : App W)
      → Leaves R F (m s)
      → Leaves R F (n s)
      → Leaves R F ((if b then m else n) s)
  Leaves-if true m n s h k = h
  Leaves-if false m n s h k = k

module _ {W A B : Type 0} (R : B → App W → Type 0) (F : LegacyAppError → App W → Type 0) where
  pub Leaves-gets :
      (g : App W → A) (f : A → Action W B) (s : App W)
      → Leaves R F (f (g s) s)
      → Leaves R F ((gets g >>= f) s)
  unfolding ◌>>=◌
  Leaves-gets g f s h = h

module _ {W B : Type 0} (R : B → App W → Type 0) (F : LegacyAppError → App W → Type 0) where
  pub Leaves-modify :
      (g : Inner → Inner) (f : Unit {0} → Action W B) (s : App W)
      → Leaves R F (f tt (record s { inner = g s.inner }))
      → Leaves R F ((modify_inner g >>= f) s)
  unfolding ◌>>=◌
  Leaves-modify g f s h = h

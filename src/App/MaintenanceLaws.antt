-- ===== src/App/MaintenanceLaws.antt =====
-- How maintenance begins and ends.
use unetic_core.Prelude.{◌≡◌, ◌≢◌, ◌↔◌, refl, true, false, Option, none, some, String, arith}
use unetic_core.Platform.{Host}
use unetic_core.App.State.{App}
use unetic_core.App.Monad.{Outcome, hangs}
use unetic_core.App.Mutex.{Mutex, free, scope, ◌>>=◌}
use unetic_core.App.Publisher.{publish}
use unetic_core.App.Maintenance.{
  state, maintenance_get, maintenance_enter, maintenance_exit, leave, after_leave, spawn_exit,
}

-- A method comes to its end, and holds no lock then.
abbrev pub ComesBack : {W A : Type 0} → Outcome A × Mutex × App W → Type 0
ComesBack r = (r.0 ≢ hangs) × (r.1 ≡ free)

module _ {W : Type 0} ⦃host : Host W⦄ where
  spawn_exit-ComesBack :
      (failure : Option String) (s : App W) → ComesBack (spawn_exit failure free s)
  unfolding spawn_exit state publish scope ◌>>=◌
  spawn_exit-ComesBack none s = (λ h. cc, refl)
  spawn_exit-ComesBack (some message) s = (λ h. cc, refl)

  -- Called by a thread that does not hold the lock of the state, maintenance_get and maintenance_enter
  -- come to their end and hold no lock then; maintenance_exit does so exactly if the core is in
  -- maintenance, and otherwise it hangs.
  pub maintenance_exit-hangs :
      (reason : Option String) (s : App W)
      → ComesBack (maintenance_get free s)
        × ComesBack (maintenance_enter reason free s)
        × (ComesBack (maintenance_exit free s) ↔ (s.inner.maintenance ≡ true))
        × (((maintenance_exit free s).0 ≡ hangs) ↔ (s.inner.maintenance ≡ false))
  unfolding maintenance_get maintenance_enter maintenance_exit leave after_leave state scope publish
      ◌>>=◌
  maintenance_exit-hangs reason s = (
    (λ h. cc, refl),
    (λ h. ground arith, ground arith),
    (
      λ h. ground arith,
      λ h. (λ e. ground (arith, spawn_exit-ComesBack _ _), grind (arith, spawn_exit-ComesBack)),
    ),
    (λ h. grind (arith, spawn_exit-ComesBack), λ h. ground arith),
  )

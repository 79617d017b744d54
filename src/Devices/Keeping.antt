-- ===== src/Devices/Keeping.antt =====
-- Actions that keep the registered devices well-formed.
use unetic_core.Prelude.{
  ◌≡◌, refl, sym, subst, ap, arith, Bool, true, false, some, List, String, ok, err, if◌then◌else◌,
  ◌!=◌, string_eq, fail_if,
}
use unetic_core.Domain.Errors.{Fallible, LegacyAppError}
use unetic_core.Domain.Device.{RegisteredDevice}
use unetic_core.Platform.{Host, FileOutcome, done, failed_before, failed_after}
use unetic_core.App.State.{App}
use unetic_core.App.Monad.{
  Action, Outcome, returns, fails, hangs, ◌>>=◌, ◌>>◌, pure, lift, continue, modify_inner,
}
use unetic_core.App.Store.{settle, persist_config}
use unetic_core.App.Quiet.{Quietly}
use unetic_core.Devices.Operations
use unetic_core.Devices.Registry.{IsRegistry, IsRegistryIf, IsRegistryRest, Improves, IsValid}
use unetic_core.Devices.Rules.{ok_eq}

abbrev pub AreRegistered : {W : Type 0} → App W → Type 0
AreRegistered s = IsRegistry s.inner.config.registered_devices

-- An action that keeps them so, however it ends.
pub record Keeps {W A : Type 0} (m : Action W A) : Type 0 where
  pub at : (s : App W) → AreRegistered s → AreRegistered (m s).1

module _ {W A : Type 0} where
  pub Keeps-Quietly : (m : Action W A) → Quietly m → Keeps m
  Keeps-Quietly m q = record {
    at = λ s h. subst IsRegistry (ap (λ c. c.registered_devices) (sym (q.at s).config)) h;
  }

  pub Keeps-if : (b : Bool) (m n : Action W A) → Keeps m → Keeps n → Keeps (if b then m else n)
  Keeps-if true m n p q = p
  Keeps-if false m n p q = q

module _ {W A B : Type 0} where
  continue-Keeps :
      (r : Outcome A × App W) (f : A → Action W B)
      → AreRegistered r.1
      → ((a : A) → Keeps (f a))
      → AreRegistered (continue r f).1
  continue-Keeps (returns a, t) f h k = (k a).at t h
  continue-Keeps (fails e, t) f h k = h
  continue-Keeps (hangs, t) f h k = h

  pub Keeps-bind :
      (m : Action W A) (f : A → Action W B) → Keeps m → ((a : A) → Keeps (f a)) → Keeps (m >>= f)
  unfolding ◌>>=◌
  Keeps-bind m f q k = record { at = λ s h. continue-Keeps (m s) f (q.at s h) k }

  -- the rest of an action after a check
  pub checked-Keeps :
      (r : Fallible A) (f : A → Action W B)
      → ((a : A) → r ≡ ok a → Keeps (f a))
      → Keeps (lift {W = W} r >>= f)
  unfolding ◌>>=◌
  checked-Keeps (ok a) f k = record { at = λ s h. (k a refl).at s h }
  checked-Keeps (err e) f k = record { at = λ s h. h }

-- an update whose result is well-formed
abbrev pub IsUpdated : {T : Type 0} → Fallible (T × List RegisteredDevice) → Type 0
IsUpdated (ok (result, devices)) = IsRegistry devices
IsUpdated (err error) = Unit

pub replaced :
    (id : String) (device : RegisteredDevice)
    → IsValid device
    → device.id ≡ id
    → Improves id (λ _. ok device)
replaced id device v i d e j q =
    subst (λ x. (x.id ≡ id) × (IsValid d → IsValid x)) (ok_eq device e q) (i, λ _. v)

pub same_id :
    (device : RegisteredDevice) (id : String) (error : LegacyAppError)
    → fail_if (device.id != id) error ≡ ok tt
    → device.id ≡ id
same_id device id error h = ground (arith, h)

pub removed-IsUpdated :
    (r : Fallible (RegisteredDevice × List RegisteredDevice)) → IsRegistryRest r → IsUpdated r
removed-IsUpdated (ok (removed, devices)) h = h
removed-IsUpdated (err error) h = tt

pub changed-IsUpdated :
    (r : Fallible (List RegisteredDevice)) → IsRegistryIf r → IsUpdated (Operations.no_result r)
changed-IsUpdated (ok devices) h = h
changed-IsUpdated (err error) h = tt

module _ {W : Type 0} ⦃host : Host W⦄ where
  written-Keeps :
      {T : Type 0} (result : T) (devices : List RegisteredDevice) (s : App W)
      → IsRegistry devices
      → AreRegistered s
      → (world : W) (outcome : FileOutcome)
      → AreRegistered
          ((settle
                (λ files. record files {
                  config = some (Operations.with_devices devices s.inner.config);
                })
                outcome
              >>= (λ _. (do
                modify_inner (λ inner. record inner {
                  config = Operations.with_devices devices s.inner.config;
                })
                pure result)))
            (record s { world = world })).1
  unfolding settle ◌>>=◌
  written-Keeps result devices s k h world done = k
  written-Keeps result devices s k h world (failed_before message) = h
  written-Keeps result devices s k h world (failed_after message) = h

  updated-Keeps :
      {T : Type 0} (r : Fallible (T × List RegisteredDevice)) (s : App W)
      → IsUpdated r
      → AreRegistered s
      → AreRegistered
          ((lift r >>= (λ updated. (do
            persist_config (Operations.with_devices updated.1 s.inner.config)
            modify_inner (λ inner. record inner {
              config = Operations.with_devices updated.1 s.inner.config;
            })
            pure updated.0)))
            s).1
  unfolding persist_config ◌>>=◌
  updated-Keeps (ok (result, devices)) s k h = written-Keeps result devices s k h _ _
  updated-Keeps (err error) s k h = h

  pub Keeps-update :
      {T : Type 0} (update : List RegisteredDevice → Fallible (T × List RegisteredDevice))
      → ((devices : List RegisteredDevice) → IsRegistry devices → IsUpdated (update devices))
      → Keeps {W = W} (Operations.update_registered_devices update)
  unfolding Operations.update_registered_devices ◌>>=◌
  Keeps-update update k = record {
    at = λ s h.
        updated-Keeps (update s.inner.config.registered_devices) s
          (k s.inner.config.registered_devices h) h;
  }

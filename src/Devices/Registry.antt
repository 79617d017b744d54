-- ===== src/Devices/Registry.antt =====
-- When the list of the registered devices is well-formed, and that the operations on it keep it so.
use unetic_core.Prelude.{
  ◌≡◌, ◌≢◌, refl, sym, subst, ==-true, ◌∙◌, Bool, true, false, ◌!=◌, ◌==◌, string_eq, List, [], ◌∷◌,
  ◌++◌, String, All, retain, ok, err, Bool-cases, inl, inr, if◌then◌else◌,
}
use unetic_core.Domain.Errors.{Fallible}
use unetic_core.Domain.Device.{RegisteredDevice}
use unetic_core.Devices.Validation.{validate_device}
use unetic_core.Devices.Registration.{
  put_device, change_device, remove_device, keep_first, put_back, pass_over,
}

-- A device that is accepted, and one that no other device has the id of.
abbrev pub IsValid : RegisteredDevice → Type 0
IsValid device = validate_device device ≡ ok tt

abbrev pub IsNew : RegisteredDevice → List RegisteredDevice → Type 0
IsNew device devices = All (λ other. other.id ≢ device.id) devices

-- Every device is accepted, and no two have the same id.
abbrev pub IsRegistry : List RegisteredDevice → Type 0
IsRegistry [] = Unit
IsRegistry (device ∷ devices) = (IsValid device × IsNew device devices) × IsRegistry devices

abbrev pub IsRegistryIf : Fallible (List RegisteredDevice) → Type 0
IsRegistryIf (ok devices) = IsRegistry devices
IsRegistryIf (err error) = Unit

All-retain :
    (P : RegisteredDevice → Type 0) (p : RegisteredDevice → Bool) (devices : List RegisteredDevice)
    → All P devices
    → All P (retain p devices)
unfolding retain
All-retain P p [] h = tt
All-retain P p (d ∷ devices) h = elim (Bool-cases (p d)) [
  | inl b ↦ rw b (h.0, All-retain P p devices h.1)
  | inr b ↦ rw b (All-retain P p devices h.1)
]

retain-IsRegistry :
    (p : RegisteredDevice → Bool) (devices : List RegisteredDevice)
    → IsRegistry devices
    → IsRegistry (retain p devices)
unfolding retain
retain-IsRegistry p [] h = tt
retain-IsRegistry p (d ∷ devices) h = elim (Bool-cases (p d)) [
  | inl b ↦ rw b ((h.0.0, All-retain _ p devices h.0.1), retain-IsRegistry p devices h.1)
  | inr b ↦ rw b (retain-IsRegistry p devices h.1)
]

retain-IsNew :
    (device : RegisteredDevice) (devices : List RegisteredDevice)
    → IsNew device (retain (λ d. d.id != device.id) devices)
unfolding retain
retain-IsNew device [] = tt
retain-IsNew device (d ∷ devices) =
    elim (string_eq.dec_eq d.id device.id)
      as (λ c. IsNew device (
        if (elim c [ yes _ ↦ false | no _ ↦ true ])
        then d ∷ retain (λ d. d.id != device.id) devices
        else retain (λ d. d.id != device.id) devices)) [
          | yes e ↦ retain-IsNew device devices
          | no n ↦ (n, retain-IsNew device devices)
        ]

snoc-All :
    (P : RegisteredDevice → Type 0) (devices : List RegisteredDevice) (d : RegisteredDevice)
    → All P devices
    → P d
    → All P (devices ++ d ∷ [])
snoc-All P [] d h p = (p, tt)
snoc-All P (x ∷ devices) d h p = (h.0, snoc-All P devices d h.1 p)

snoc-IsRegistry :
    (devices : List RegisteredDevice) (d : RegisteredDevice)
    → IsRegistry devices
    → IsNew d devices
    → IsValid d
    → IsRegistry (devices ++ d ∷ [])
snoc-IsRegistry [] d h n v = ((v, tt), tt)
snoc-IsRegistry (x ∷ devices) d h n v = (
  (h.0.0, snoc-All (λ other. other.id ≢ x.id) devices d h.0.1 (λ e. n.0 (sym e))),
  snoc-IsRegistry devices d h.1 n.1 v,
)

pub put_device-IsRegistry :
    (device : RegisteredDevice) (devices : List RegisteredDevice)
    → IsValid device
    → IsRegistry devices
    → IsRegistry (put_device device devices)
unfolding put_device
put_device-IsRegistry device devices v h =
    snoc-IsRegistry _ device (retain-IsRegistry _ devices h) (retain-IsNew device devices) v

-- A change of the device with an id that keeps the id and an accepted device accepted.
abbrev pub Improves : String → (RegisteredDevice → Fallible RegisteredDevice) → Type 0
Improves id f =
    (d e : RegisteredDevice) → d.id ≡ id → f d ≡ ok e → (e.id ≡ id) × (IsValid d → IsValid e)

abbrev IsNewIf : RegisteredDevice → Fallible (List RegisteredDevice) → Type 0
IsNewIf x (ok devices) = IsNew x devices
IsNewIf x (err error) = Unit

keep_first-IsNewIf :
    (x d : RegisteredDevice) (r : Fallible (List RegisteredDevice))
    → d.id ≢ x.id
    → IsNewIf x r
    → IsNewIf x (keep_first d r)
keep_first-IsNewIf x d (ok devices) n h = (n, h)
keep_first-IsNewIf x d (err error) n h = tt

keep_first-IsRegistryIf :
    (d : RegisteredDevice) (r : Fallible (List RegisteredDevice))
    → IsValid d
    → IsNewIf d r
    → IsRegistryIf r
    → IsRegistryIf (keep_first d r)
keep_first-IsRegistryIf d (ok devices) v n h = ((v, n), h)
keep_first-IsRegistryIf d (err error) v n h = tt

module _ (id : String) (f : RegisteredDevice → Fallible RegisteredDevice) (g : Improves id f) where
  put_back-IsNewIf :
      (x d : RegisteredDevice) (devices : List RegisteredDevice) (r : Fallible RegisteredDevice)
      → f d ≡ r
      → d.id ≡ id
      → d.id ≢ x.id
      → IsNew x devices
      → IsNewIf x (put_back devices r)
  put_back-IsNewIf x d devices (ok e) q i n h = ((λ k. n (i ∙ sym (g d e i q).0 ∙ k)), h)
  put_back-IsNewIf x d devices (err error) q i n h = tt

  change_device-IsNewIf :
      (x : RegisteredDevice) (devices : List RegisteredDevice)
      → IsNew x devices
      → IsNewIf x (change_device id f devices)
  unfolding change_device
  change_device-IsNewIf x [] h = tt
  change_device-IsNewIf x (d ∷ devices) h = elim (Bool-cases (d.id == id)) [
    | inl b ↦ rw b (put_back-IsNewIf x d devices (f d) refl (==-true d.id id b) h.0 h.1)
    | inr b ↦ rw b (keep_first-IsNewIf x d _ h.0 (change_device-IsNewIf x devices h.1))
  ]

  put_back-IsRegistryIf :
      (d : RegisteredDevice) (devices : List RegisteredDevice) (r : Fallible RegisteredDevice)
      → f d ≡ r
      → d.id ≡ id
      → IsRegistry (d ∷ devices)
      → IsRegistryIf (put_back devices r)
  put_back-IsRegistryIf d devices (ok e) q i h =
      let (same, valid) = g d e i q in
      ((valid h.0.0, subst (λ k. All (λ other. other.id ≢ k) devices) (i ∙ sym same) h.0.1), h.1)
  put_back-IsRegistryIf d devices (err error) q i h = tt

  pub change_device-IsRegistry :
      (devices : List RegisteredDevice)
      → IsRegistry devices
      → IsRegistryIf (change_device id f devices)
  unfolding change_device
  change_device-IsRegistry [] h = tt
  change_device-IsRegistry (d ∷ devices) h = elim (Bool-cases (d.id == id)) [
    | inl b ↦ rw b (put_back-IsRegistryIf d devices (f d) refl (==-true d.id id b) h)
    | inr b ↦ rw b (
        keep_first-IsRegistryIf d _ h.0.0 (change_device-IsNewIf d devices h.0.1)
          (change_device-IsRegistry devices h.1))
  ]

-- What is left after a removal.
abbrev IsNewRest : RegisteredDevice → Fallible (RegisteredDevice × List RegisteredDevice) → Type 0
IsNewRest x (ok (removed, devices)) = IsNew x devices
IsNewRest x (err error) = Unit

abbrev pub IsRegistryRest : Fallible (RegisteredDevice × List RegisteredDevice) → Type 0
IsRegistryRest (ok (removed, devices)) = IsRegistry devices
IsRegistryRest (err error) = Unit

pass_over-IsRegistryRest :
    (d : RegisteredDevice) (r : Fallible (RegisteredDevice × List RegisteredDevice))
    → IsValid d
    → IsNewRest d r
    → IsRegistryRest r
    → IsRegistryRest (pass_over d r)
pass_over-IsRegistryRest d (ok (removed, devices)) v n h = ((v, n), h)
pass_over-IsRegistryRest d (err error) v n h = tt

pass_over-IsNewRest :
    (x d : RegisteredDevice) (r : Fallible (RegisteredDevice × List RegisteredDevice))
    → d.id ≢ x.id
    → IsNewRest x r
    → IsNewRest x (pass_over d r)
pass_over-IsNewRest x d (ok (removed, devices)) n h = (n, h)
pass_over-IsNewRest x d (err error) n h = tt

remove_device-IsNewRest :
    (id : String) (x : RegisteredDevice) (devices : List RegisteredDevice)
    → IsNew x devices
    → IsNewRest x (remove_device id devices)
unfolding remove_device
remove_device-IsNewRest id x [] h = tt
remove_device-IsNewRest id x (d ∷ devices) h = elim (Bool-cases (d.id == id)) [
  | inl b ↦ rw b h.1
  | inr b ↦ rw b (pass_over-IsNewRest x d _ h.0 (remove_device-IsNewRest id x devices h.1))
]

pub remove_device-IsRegistryRest :
    (id : String) (devices : List RegisteredDevice)
    → IsRegistry devices
    → IsRegistryRest (remove_device id devices)
unfolding remove_device
remove_device-IsRegistryRest id [] h = tt
remove_device-IsRegistryRest id (d ∷ devices) h = elim (Bool-cases (d.id == id)) [
  | inl b ↦ rw b h.1
  | inr b ↦ rw b (
      pass_over-IsRegistryRest d _ h.0.0 (remove_device-IsNewRest id d devices h.0.1)
        (remove_device-IsRegistryRest id devices h.1))
]

-- ===== src/Devices/Rules.antt =====
-- What the port forwards of a registered device do to its being accepted.
use unetic_core.Prelude.{
  ◌≡◌, refl, arith, subst, true, false, List, [], ◌∷◌, ◌++◌, String, Bool, retain, ok, err, ◌>>◌,
  Bool-cases, inl, inr, if◌then◌else◌,
}
use unetic_core.Domain.Errors.{Fallible, LegacyAppError}
use unetic_core.Domain.Device.{PortForward, RegisteredDevice}
use unetic_core.Devices.Validation.{
  validate_device, validate_fields, validate_rules, validate_port_forward,
}
use unetic_core.Devices.Registration.{with_rule, without_rule}
use unetic_core.Devices.Registry.{IsValid, Improves}

pub ok_eq : (d e : RegisteredDevice) → ◌≡◌ {A = Fallible RegisteredDevice} (ok d) (ok e) → d ≡ e
ok_eq d e h = ground arith

if_ok :
    (b : Bool) (error : LegacyAppError) (d e : RegisteredDevice)
    → ◌≡◌ {A = Fallible RegisteredDevice} (if b then err error else ok d) (ok e)
    → d ≡ e
if_ok true error d e h = ground (arith, h)
if_ok false error d e h = ok_eq d e h

then_ok : (r q : Fallible (Unit {0})) → r ≡ ok tt → q ≡ ok tt → (r >> q) ≡ ok tt
then_ok r q h k = rw (h, k) refl

first_ok : (r q : Fallible (Unit {0})) → (r >> q) ≡ ok tt → (r ≡ ok tt) × (q ≡ ok tt)
first_ok (ok u) q h = (refl, h)
first_ok (err e) q h = ground (arith, h)

retain-rules :
    (p : PortForward → Bool) (rules : List PortForward)
    → validate_rules rules ≡ ok tt
    → validate_rules (retain p rules) ≡ ok tt
unfolding validate_rules retain
retain-rules p [] h = refl
retain-rules p (rule ∷ rules) h =
    let (v, k) = first_ok (validate_port_forward rule) (validate_rules rules) h in
    elim (Bool-cases (p rule)) [
      | inl b ↦ rw b (then_ok _ _ v (retain-rules p rules k))
      | inr b ↦ rw b (retain-rules p rules k)
    ]

snoc-rules :
    (rules : List PortForward) (rule : PortForward)
    → validate_rules rules ≡ ok tt
    → validate_port_forward rule ≡ ok tt
    → validate_rules (rules ++ rule ∷ []) ≡ ok tt
unfolding validate_rules
snoc-rules [] rule h v = then_ok (validate_port_forward rule) (ok tt) v refl
snoc-rules (r ∷ rules) rule h v =
    let (w, k) = first_ok (validate_port_forward r) (validate_rules rules) h in
    then_ok (validate_port_forward r) _ w (snoc-rules rules rule k v)

-- an accepted device with other rules that are accepted
with_rules-IsValid :
    (d : RegisteredDevice) (rules : List PortForward)
    → IsValid d
    → (validate_rules d.port_forwards ≡ ok tt → validate_rules rules ≡ ok tt)
    → IsValid (record d { port_forwards = rules })
unfolding validate_device
with_rules-IsValid d rules v f =
    let (a, b) = first_ok (validate_fields d.id d.mac d.name) (validate_rules d.port_forwards) v in
    then_ok _ _ a (f b)

pub with_rule-Improves :
    (id : String) (rule : PortForward)
    → validate_port_forward rule ≡ ok tt
    → Improves id (with_rule rule)
unfolding with_rule
with_rule-Improves id rule v d e i q =
    subst (λ x. (x.id ≡ id) × (IsValid d → IsValid x)) (ok_eq _ e q)
      (i, λ h. with_rules-IsValid d _ h (λ r. snoc-rules _ rule (retain-rules _ _ r) v))

pub without_rule-Improves : (id rule_id : String) → Improves id (without_rule rule_id)
unfolding without_rule
without_rule-Improves id rule_id d e i q =
    subst (λ x. (x.id ≡ id) × (IsValid d → IsValid x)) (if_ok _ _ _ e q)
      (i, λ h. with_rules-IsValid d _ h (retain-rules _ _))

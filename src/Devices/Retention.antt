-- ===== src/Devices/Retention.antt =====
-- What an inventory holds after a snapshot.
use unetic_core.Prelude.{
  ℕ, ◌-◌, ◌≤◌, ◌≡◌, ◌⊎◌, inl, inr, refl, arith, Bool, true, false, ◌||◌, not, List, [], ◌∷◌, map,
  String, All, insert, contains_key, retain, lowercase, Bool-cases, if◌then◌else◌, ◌==◌, string_eq,
}
use Prim.Native.String.{compare}
use Prim.Native.Nat.{Ordering}
use unetic_core.Domain.Device.{Device, DeviceRuntime}
use unetic_core.Devices.Inventory.{
  DeviceInventory, device_history_retention_ms, replace_snapshot, observe, extend, add_registered,
  mark_registered, prune, is_retained, name_device, update, switch_off, is_registered,
}

-- An entry stands under the address of its device.
abbrev pub IsKeyed : String × DeviceRuntime → Type 0
IsKeyed (mac, runtime) = runtime.device.mac ≡ mac

-- A device that is neither registered nor online was seen within the time of retention.
abbrev pub IsRecent : ℕ → String × DeviceRuntime → Type 0
IsRecent now_ms (mac, runtime) =
    (runtime.registered ≡ true)
    ⊎ (runtime.online ≡ true)
    ⊎ (now_ms - runtime.last_seen_ms ≤ device_history_retention_ms)

module _ (P : String × DeviceRuntime → Type 0) where
  pub All-insert :
      (k : String) (v : DeviceRuntime) (m : DeviceInventory)
      → P (k, v)
      → All P m
      → All P (insert k v m)
  unfolding insert
  All-insert k v [] p h = (p, tt)
  All-insert k v ((j, w) ∷ m) p h =
      elim (compare k j)
        as (λ o. All P (elim o [
          | Ordering.lt ↦ (k, v) ∷ (j, w) ∷ m
          | Ordering.eq ↦ (k, v) ∷ m
          | Ordering.gt ↦ (j, w) ∷ insert k v m
        ])) [
          | Ordering.lt ↦ (p, h)
          | Ordering.eq ↦ (p, h.1)
          | Ordering.gt ↦ (h.0, All-insert k v m p h.1)
        ]

  All-map :
      (Q : String × DeviceRuntime → Type 0) (f : String × DeviceRuntime → String × DeviceRuntime)
      → ((e : String × DeviceRuntime) → P e → Q (f e))
      → (m : DeviceInventory) → All P m
      → All Q (map f m)
  All-map Q f g [] h = tt
  All-map Q f g (e ∷ m) h = (g e h.0, All-map Q f g m h.1)

  All-retain :
      (p : String × DeviceRuntime → Bool) (m : DeviceInventory)
      → All P m
      → All (λ e. P e × (p e ≡ true)) (retain p m)
  unfolding retain
  All-retain p [] h = tt
  All-retain p (e ∷ m) h = elim (Bool-cases (p e)) [
    | inl b ↦ rw b ((h.0, b), All-retain p m h.1)
    | inr b ↦ rw b (All-retain p m h.1)
  ]

  All-extend : (m n : DeviceInventory) → All P m → All P n → All P (extend m n)
  unfolding extend
  All-extend m [] h k = h
  All-extend m ((mac, runtime) ∷ n) h k =
      All-extend (insert mac runtime m) n (All-insert mac runtime m k.0 h) k.1

observe-IsKeyed :
    (inventory : DeviceInventory) (now_ms : ℕ) (devices : List Device) (observed : DeviceInventory)
    → All IsKeyed observed
    → All IsKeyed (observe inventory now_ms devices observed)
unfolding observe
observe-IsKeyed inventory now_ms [] observed h = h
observe-IsKeyed inventory now_ms (found ∷ devices) observed h =
    observe-IsKeyed inventory now_ms devices _ (All-insert IsKeyed _ _ observed refl h)

if-first : {A : Type 0} (P : A → Type 0) (b : Bool) (x y : A) → P x → P y → P (if b then x else y)
if-first P true x y h k = h
if-first P false x y h k = k

add_registered-IsKeyed :
    (macs : List String) (m : DeviceInventory)
    → All IsKeyed m
    → All IsKeyed (add_registered macs m).0
unfolding add_registered
add_registered-IsKeyed [] m h = h
add_registered-IsKeyed (mac ∷ macs) m h =
    if-first (λ (r : DeviceInventory × Bool). All IsKeyed r.0) (contains_key m mac) _ _
      (add_registered-IsKeyed macs m h)
      (add_registered-IsKeyed macs _ (All-insert IsKeyed mac _ m refl h))

name_device-IsKeyed : (e : String × DeviceRuntime) → IsKeyed e → IsKeyed (e.0, name_device e.1)
unfolding name_device
name_device-IsKeyed (mac, runtime) h = if-first (λ r. IsKeyed (mac, r)) (runtime.id == "") _ _ h h

switch_off-IsKeyed :
    (observed : DeviceInventory) (e : String × DeviceRuntime)
    → IsKeyed e
    → IsKeyed (switch_off observed e)
switch_off-IsKeyed observed e h =
    if-first IsKeyed (contains_key observed e.0 || not e.1.online) _ _ h h

is_retained-IsRecent :
    (now_ms : ℕ) (e : String × DeviceRuntime) → is_retained now_ms e ≡ true → IsRecent now_ms e
unfolding is_retained
is_retained-IsRecent now_ms (mac, runtime) h = ground (arith, h)

-- An entry is kept under its address, with the mark of the registered devices, and no longer than the
-- time of retention.
abbrev pub IsKept : List String → ℕ → String × DeviceRuntime → Type 0
IsKept macs now_ms e = (IsKeyed e × (e.1.registered ≡ is_registered macs e.1)) × IsRecent now_ms e

abbrev IsMarked : List String → String × DeviceRuntime → Type 0
IsMarked macs e = IsKeyed e × (e.1.registered ≡ is_registered macs e.1)

pub All-weaken :
    (P Q : String × DeviceRuntime → Type 0) (m : DeviceInventory)
    → ((e : String × DeviceRuntime) → P e → Q e)
    → All P m
    → All Q m
All-weaken P Q [] f h = tt
All-weaken P Q (e ∷ m) f h = (f e h.0, All-weaken P Q m f h.1)

-- before the marks are set
pub added-IsKeyed :
    (devices : List Device) (macs : List String) (now_ms : ℕ) (inventory : DeviceInventory)
    → All IsKeyed inventory
    → All IsKeyed
        (add_registered macs (
          extend
            (map
              (switch_off (observe (update name_device inventory) now_ms devices []))
              (update name_device inventory))
            (observe (update name_device inventory) now_ms devices []))).0
added-IsKeyed devices macs now_ms inventory h =
    let named = All-map IsKeyed IsKeyed _ name_device-IsKeyed inventory h in
    let seen = observe (update name_device inventory) now_ms devices [] in
    let observed = observe-IsKeyed (update name_device inventory) now_ms devices [] tt in
    let off = All-map IsKeyed IsKeyed (switch_off seen) (switch_off-IsKeyed seen) _ named in
    add_registered-IsKeyed macs _ (All-extend IsKeyed _ seen off observed)

pub replace_snapshot-IsKept :
    (devices : List Device) (registered : List String) (now_ms : ℕ) (inventory : DeviceInventory)
    → All IsKeyed inventory
    → All
        (IsKept (map lowercase registered) now_ms)
        (replace_snapshot devices registered now_ms inventory).0
unfolding replace_snapshot prune mark_registered
replace_snapshot-IsKept devices registered now_ms inventory h =
    let macs = map lowercase registered in
    let added = added-IsKeyed devices macs now_ms inventory h in
    let marked = All-map IsKeyed (IsMarked macs) _ (λ e k. (k, refl)) _ added in
    All-weaken _ _ _ (λ e k. (k.0, is_retained-IsRecent now_ms e k.1))
      (All-retain (IsMarked macs) (is_retained now_ms) _ marked)

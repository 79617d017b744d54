-- ===== src/Devices/Lookup.antt =====
-- What a look into the inventory finds after each step of a snapshot.
use unetic_core.Prelude.{
  ◌≡◌, ◌⊎◌, get-insert_same, Option-cases, refl, ◌∙◌, sym, ap, subst, arith, Bool, true, false,
  none, some, List, [], ◌∷◌, map, String, All, get, insert, get-insert, contains_key, retain, ◌==◌,
  string_eq, ==-eq, ==-true, Bool-cases, inl, inr, if◌then◌else◌,
}
use unetic_core.Domain.Device.{DeviceRuntime}
use unetic_core.Devices.Inventory.{DeviceInventory, extend, add_registered, never_seen}

abbrev Entry : Type 0
Entry = String × DeviceRuntime

abbrev pub IsOneOf : {A : Type 0} → A → List A → Type 0
IsOneOf a [] = ⊥
IsOneOf a (x ∷ xs) = (x ≡ a) ⊎ IsOneOf a xs

get-cons :
    (k j : String) (v : DeviceRuntime) (m : DeviceInventory)
    → get ((j, v) ∷ m) k ≡ (if j == k then some v else get m k)
unfolding get
get-cons k j v m = refl

pub get-map :
    (g : Entry → Entry) (m : DeviceInventory) (k : String) (v : DeviceRuntime)
    → ((e : Entry) → (g e).0 ≡ e.0)
    → get m k ≡ some v
    → get (map g m) k ≡ some (g (k, v)).1
unfolding get
get-map g [] k v keeps h = cc
get-map g ((j, w) ∷ m) k v keeps h = elim (Bool-cases (j == k)) [
  | inl e ↦
      let same : (g (j, w)).0 ≡ k = keeps (j, w) ∙ ==-true j k e in
      let found : w ≡ v = ground arith in
      get-cons k (g (j, w)).0 (g (j, w)).1 (map g m)
      ∙ (rw (==-eq (g (j, w)).0 k same)
          (ap (λ (p : Entry). some (g p).1) (λ i. (==-true j k e i, found i))))
  | inr e ↦
      let other : ((g (j, w)).0 == k) ≡ false = rw (keeps (j, w)) e in
      get-cons k (g (j, w)).0 (g (j, w)).1 (map g m)
      ∙ (rw other (get-map g m k v keeps (ground arith)))
]

pub get-map_none :
    (g : Entry → Entry) (m : DeviceInventory) (k : String)
    → ((e : Entry) → (g e).0 ≡ e.0)
    → get m k ≡ none
    → get (map g m) k ≡ none
unfolding get
get-map_none g [] k keeps h = refl
get-map_none g ((j, w) ∷ m) k keeps h =
    let other : (j == k) ≡ false = ground arith in
    let still : ((g (j, w)).0 == k) ≡ false = rw (keeps (j, w)) other in
    get-cons k (g (j, w)).0 (g (j, w)).1 (map g m)
    ∙ (rw still (get-map_none g m k keeps (ground arith)))

pub get-retain :
    (p : Entry → Bool) (m : DeviceInventory) (k : String) (v : DeviceRuntime)
    → get m k ≡ some v
    → p (k, v) ≡ true
    → get (retain p m) k ≡ some v
unfolding get retain
get-retain p [] k v h q = cc
get-retain p ((j, w) ∷ m) k v h q = elim (Bool-cases (j == k)) [
  | inl e ↦
      let found : w ≡ v = ground arith in
      let kept : p (j, w) ≡ true = ap p (λ i. (==-true j k e i, found i)) ∙ q in
      rw kept (ground arith)
  | inr e ↦ ground (arith, get-retain p m k v)
]

pub All-get :
    (P : Entry → Type 0) (m : DeviceInventory) (k : String) (v : DeviceRuntime)
    → All P m
    → get m k ≡ some v
    → P (k, v)
unfolding get
All-get P [] k v h e = absurd cc
All-get P ((j, w) ∷ m) k v h e = elim (Bool-cases (j == k)) [
  | inl q ↦ let found : w ≡ v = ground arith in subst P (λ i. (==-true j k q i, found i)) h.0
  | inr q ↦ All-get P m k v h.1 (ground arith)
]

pub get-extend_other :
    (m n : DeviceInventory) (k : String) → contains_key n k ≡ false → get (extend m n) k ≡ get m k
unfolding extend get
get-extend_other m [] k h = refl
get-extend_other m ((j, w) ∷ n) k h = elim (Bool-cases (j == k)) [
  | inl e ↦ ground arith
  | inr e ↦ get-extend_other (insert j w m) n k (ground arith) ∙ (get-insert j k w m ∙ (rw e refl))
]

pub get-extend :
    (P : Entry → Type 0) (m n : DeviceInventory) (k : String)
    → All P n
    → contains_key n k ≡ true
    → (v : DeviceRuntime) × (get (extend m n) k ≡ some v) × P (k, v)
unfolding extend get
get-extend P m [] k h c = absurd cc
get-extend P m ((j, w) ∷ n) k h c = elim (Bool-cases (contains_key n k)) [
  | inl later ↦ get-extend P (insert j w m) n k h.1 later
  | inr last ↦
      let here : (j == k) ≡ true = ground arith in
      (
        w,
        get-extend_other (insert j w m) n k last ∙ (get-insert j k w m ∙ (rw here refl)),
        subst (λ x. P (x, w)) (==-true j k here) h.0,
      )
]

if-either :
    {A : Type 0} (P : A → Type 0) (b : Bool) (x y : A)
    → (b ≡ true → P x)
    → (b ≡ false → P y)
    → P (if b then x else y)
if-either P true x y h k = h refl
if-either P false x y h k = k refl

contains_key-some :
    (m : DeviceInventory) (k : String)
    → contains_key m k ≡ true
    → (v : DeviceRuntime) × (get m k ≡ some v)
contains_key-some m k h = elim (Option-cases (get m k)) [
  | inl e ↦ absurd (ground arith)
  | inr e ↦ e
]

pub get-add_registered :
    (macs : List String) (m : DeviceInventory) (k : String) (v : DeviceRuntime)
    → get m k ≡ some v
    → get (add_registered macs m).0 k ≡ some v
unfolding add_registered
get-add_registered [] m k v h = h
get-add_registered (mac ∷ macs) m k v h =
    if-either (λ (r : DeviceInventory × Bool). get r.0 k ≡ some v) (contains_key m mac) _ _
      (λ c. get-add_registered macs m k v h)
      (λ c.
        get-add_registered macs (insert mac (never_seen mac) m) k v
          (ground (arith, get-insert mac k (never_seen mac) m, ==-true mac k)))

-- A registered address has an entry.
pub add_registered-some :
    (macs : List String) (m : DeviceInventory) (mac : String)
    → IsOneOf mac macs
    → (v : DeviceRuntime) × (get (add_registered macs m).0 mac ≡ some v)
unfolding add_registered
add_registered-some [] m mac h = absurd h
add_registered-some (j ∷ macs) m mac (inl e) =
    if-either (λ (r : DeviceInventory × Bool). (v : DeviceRuntime) × (get r.0 mac ≡ some v))
      (contains_key m j) _ _
      (λ c.
        let old = contains_key-some m mac (ap (contains_key m) (sym e) ∙ c) in
        (old.0, get-add_registered macs m mac old.0 old.1))
      (λ c. (
        never_seen j,
        get-add_registered macs (insert j (never_seen j) m) mac (never_seen j)
            (ap (get (insert j (never_seen j) m)) (sym e) ∙ get-insert_same j (never_seen j) m),
      ))
add_registered-some (j ∷ macs) m mac (inr h) =
    if-either (λ (r : DeviceInventory × Bool). (v : DeviceRuntime) × (get r.0 mac ≡ some v))
      (contains_key m j) _ _ (λ c. add_registered-some macs m mac h)
      (λ c. add_registered-some macs (insert j (never_seen j) m) mac h)

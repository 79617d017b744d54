-- ===== src/Devices/Snapshot.antt =====
-- What a snapshot of the devices leaves in the inventory.
use unetic_core.Prelude.{
  ℕ, ◌-◌, ◌≤◌, ◌≡◌, ◌≢◌, ◌⊎◌, ◌↔◌, inl, inr, subst, Bool-cases, refl, sym, ap, ◌∙◌, arith, true,
  false, some, List, [], ◌∷◌, map, String, All, any, get, contains_key, lowercase, Option-cases,
  ◌==◌, string_eq, ==-eq, ==-true,
}
use unetic_core.Domain.Device.{Device, DeviceRuntime}
use unetic_core.Devices.Inventory.{
  DeviceInventory, device_history_retention_ms, replace_snapshot, observe, extend, add_registered,
  mark_registered, prune, is_retained, name_device, update, switch_off, is_registered,
}
use unetic_core.Devices.Lookup.{
  IsOneOf, get-map, get-map_none, get-retain, All-get, get-extend_other, get-extend,
  get-add_registered, add_registered-some,
}
use unetic_core.Devices.Retention.{
  IsKeyed, IsRecent, IsKept, All-weaken, added-IsKeyed, replace_snapshot-IsKept,
}
use unetic_core.Devices.Observed.{
  WasSeen, observe-WasSeen, observe-contains, observe-contains_other,
}

-- An entry stands under the address of its device, is marked as registered exactly if the address is,
-- and, unless it is registered or online, was seen within the time of retention.
abbrev pub IsCurrent : List String → ℕ → String × DeviceRuntime → Type 0
IsCurrent macs now_ms e =
    IsKeyed e × ((e.1.registered ≡ true) ↔ IsOneOf e.0 macs) × IsRecent now_ms e

-- The inventory after a snapshot, given the registered addresses in lower case.
pub record IsSnapshot (devices : List Device) (macs : List String) (now_ms : ℕ)
    (inventory result : DeviceInventory) : Type 0 where
  pub current : All (IsCurrent macs now_ms) result
  pub seen :
      (device : Device)
      → IsOneOf device devices
      → (runtime : DeviceRuntime) × (get result (lowercase device.mac) ≡ some runtime)
        × WasSeen inventory now_ms devices (lowercase device.mac, runtime)
  pub unseen :
      (mac : String) (old : DeviceRuntime)
      → get inventory mac ≡ some old
      → All (λ (device : Device). lowercase device.mac ≢ mac) devices
      → IsOneOf mac macs ⊎ (now_ms - old.last_seen_ms ≤ device_history_retention_ms)
      → (runtime : DeviceRuntime) × (get result mac ≡ some runtime)
        × (runtime.online ≡ false)
        × (runtime.device ≡ old.device)
        × (runtime.last_seen_ms ≡ old.last_seen_ms)
  pub registered :
      (mac : String)
      → IsOneOf mac macs
      → (runtime : DeviceRuntime) × (get result mac ≡ some runtime) × (runtime.registered ≡ true)

is_registered_iff :
    (macs : List String) (runtime : DeviceRuntime)
    → (is_registered macs runtime ≡ true) ↔ IsOneOf runtime.device.mac macs
unfolding is_registered any
is_registered_iff [] runtime = (λ h. cc, λ h. absurd h)
is_registered_iff (mac ∷ macs) runtime =
    let rest = is_registered_iff macs runtime in
    (
      λ h. elim (Bool-cases (mac == runtime.device.mac)) [
        | inl e ↦ inl (==-true mac _ e)
        | inr e ↦ inr (rest.0 (ground arith))
      ],
      λ h. elim h [ inl e ↦ rw (==-eq mac _ e) refl | inr m ↦ let more = rest.1 m in ground arith ],
    )

IsKept-IsCurrent :
    (macs : List String) (now_ms : ℕ) (e : String × DeviceRuntime)
    → IsKept macs now_ms e
    → IsCurrent macs now_ms e
IsKept-IsCurrent macs now_ms (mac, runtime) h =
    let marked = is_registered_iff macs runtime in
    (
      h.0.0,
      (
        λ on. subst (λ k. IsOneOf k macs) h.0.0 (marked.0 (sym h.0.1 ∙ on)),
        λ m. h.0.1 ∙ marked.1 (subst (λ k. IsOneOf k macs) (sym h.0.0) m),
      ),
      h.1,
    )

name_device-same :
    (old : DeviceRuntime)
    → ((name_device old).online ≡ old.online)
      × ((name_device old).device ≡ old.device)
      × ((name_device old).last_seen_ms ≡ old.last_seen_ms)
unfolding name_device
name_device-same old = (ground arith, ground arith, ground arith)

named-known :
    (inventory : DeviceInventory) (mac : String) (named : DeviceRuntime)
    → get (update name_device inventory) mac ≡ some named
    → (old : DeviceRuntime) × (get inventory mac ≡ some old) × (name_device old ≡ named)
named-known inventory mac named h =
    let g : String × DeviceRuntime → String × DeviceRuntime = λ e. (e.0, name_device e.1) in
    elim (Option-cases (get inventory mac)) [
      | inl e ↦ let missing = get-map_none g inventory mac (λ e. refl) e in absurd cc
      | inr (old, e) ↦ let known = get-map g inventory mac old (λ e. refl) e in (old, e, cc)
    ]

WasSeen-named :
    (inventory : DeviceInventory) (now_ms : ℕ) (devices : List Device) (mac : String)
    (runtime : DeviceRuntime)
    → WasSeen (update name_device inventory) now_ms devices (mac, runtime)
    → WasSeen inventory now_ms devices (mac, runtime)
WasSeen-named inventory now_ms devices mac runtime (on, found, inl seen) = (on, found, inl seen)
WasSeen-named inventory now_ms devices mac runtime
      (on, found, inr (named, known, was_on, same, seen)) =
    let (old, before, e) = named-known inventory mac named known in
    let kept = name_device-same old in
    (
      on,
      found,
      inr (
        old,
        before,
        sym kept.0 ∙ ap (λ (r : DeviceRuntime). r.online) e ∙ was_on,
        sym kept.1 ∙ ap (λ (r : DeviceRuntime). r.device) e ∙ same,
        seen ∙ ap (λ (r : DeviceRuntime). r.last_seen_ms) (sym e) ∙ kept.2,
      ),
    )

switch_off-key :
    (observed : DeviceInventory) (e : String × DeviceRuntime) → (switch_off observed e).0 ≡ e.0
switch_off-key observed e = ground arith

switch_off_lem :
    (observed : DeviceInventory) (mac : String) (runtime : DeviceRuntime)
    → contains_key observed mac ≡ false
    → ((switch_off observed (mac, runtime)).1.online ≡ false)
      × ((switch_off observed (mac, runtime)).1.device ≡ runtime.device)
      × ((switch_off observed (mac, runtime)).1.last_seen_ms ≡ runtime.last_seen_ms)
switch_off_lem observed mac runtime h = (ground arith, ground arith, ground arith)

module _ (devices : List Device) (macs : List String) (now_ms : ℕ)
    (inventory : DeviceInventory) where
  abbrev named : DeviceInventory
  named = update name_device inventory

  abbrev observed : DeviceInventory
  observed = observe named now_ms devices []

  abbrev merged : DeviceInventory
  merged = extend (map (switch_off observed) named) observed

  -- from the entries before the registered addresses are added to the ones in the end
  abbrev settle : DeviceInventory → DeviceInventory
  settle m = (prune now_ms (update (mark_registered macs) (add_registered macs m).0)).0

  settled :
      (m : DeviceInventory) (mac : String) (runtime : DeviceRuntime)
      → get (add_registered macs m).0 mac ≡ some runtime
      → is_retained now_ms (mac, mark_registered macs runtime) ≡ true
      → get (settle m) mac ≡ some (mark_registered macs runtime)
  unfolding prune
  settled m mac runtime h r =
      get-retain (is_retained now_ms) _ mac (mark_registered macs runtime)
        (get-map (λ e. (e.0, mark_registered macs e.1)) _ mac runtime (λ e. refl) h) r

  was_seen :
      (device : Device)
      → IsOneOf device devices
      → (runtime : DeviceRuntime) × (get (settle merged) (lowercase device.mac) ≡ some runtime)
        × WasSeen inventory now_ms devices (lowercase device.mac, runtime)
  unfolding mark_registered is_retained
  was_seen device among =
      let mac = lowercase device.mac in
      let (found, got, seen) =
        get-extend (WasSeen named now_ms devices) (map (switch_off observed) named) observed mac
          (observe-WasSeen named now_ms devices devices [] (λ d m. m) tt)
          (observe-contains named now_ms devices [] device among) in
      (
        mark_registered macs found,
        settled merged mac found (get-add_registered macs merged mac found got)
            (let on = seen.0 in ground arith),
        WasSeen-named inventory now_ms devices mac (mark_registered macs found) seen,
      )

  module _ (keyed : All IsKeyed inventory) where
    was_not_seen :
        (mac : String) (old : DeviceRuntime)
        → get inventory mac ≡ some old
        → All (λ (device : Device). lowercase device.mac ≢ mac) devices
        → IsOneOf mac macs ⊎ (now_ms - old.last_seen_ms ≤ device_history_retention_ms)
        → (runtime : DeviceRuntime) × (get (settle merged) mac ≡ some runtime)
          × (runtime.online ≡ false)
          × (runtime.device ≡ old.device)
          × (runtime.last_seen_ms ≡ old.last_seen_ms)
    unfolding mark_registered is_retained get
    was_not_seen mac old known other reason =
        let absent = observe-contains_other named now_ms devices [] mac other refl in
        let off = (switch_off observed (mac, name_device old)).1 in
        let same = name_device-same old in
        let turned = switch_off_lem observed mac (name_device old) absent in
        let got =
          get-extend_other (map (switch_off observed) named) observed mac absent
          ∙ get-map (switch_off observed) named mac (name_device old) (switch_off-key observed)
              (get-map (λ e. (e.0, name_device e.1)) inventory mac old (λ e. refl) known) in
        let address : off.device.mac ≡ mac =
          ap (λ (d : Device). d.mac) (turned.1 ∙ same.1)
          ∙ All-get IsKeyed inventory mac old keyed known in
        let retained : is_retained now_ms (mac, mark_registered macs off) ≡ true = elim reason [
          | inl m ↦
              let marked =
                (is_registered_iff macs off).1 (subst (λ k. IsOneOf k macs) (sym address) m) in
              ground arith
          | inr recent ↦ let kept = turned.2 ∙ same.2 in ground arith
        ] in
        (
          mark_registered macs off,
          settled merged mac off (get-add_registered macs merged mac off got) retained,
          turned.0,
          turned.1 ∙ same.1,
          turned.2 ∙ same.2,
        )

    is_listed :
        (mac : String)
        → IsOneOf mac macs
        → (runtime : DeviceRuntime) × (get (settle merged) mac ≡ some runtime)
          × (runtime.registered ≡ true)
    unfolding mark_registered is_retained
    is_listed mac among =
        let (found, got) = add_registered-some macs merged mac among in
        let address : found.device.mac ≡ mac =
          All-get IsKeyed _ mac found (added-IsKeyed devices macs now_ms inventory keyed) got in
        let marked : is_registered macs found ≡ true =
          (is_registered_iff macs found).1 (subst (λ k. IsOneOf k macs) (sym address) among) in
        (mark_registered macs found, settled merged mac found got (ground arith), marked)

-- After a snapshot of the devices that the router sees, over an inventory whose entries stand under the
-- addresses of their devices: every entry still does, is marked as registered exactly if its address is,
-- and, unless it is registered or online, was seen within the time of retention. Each device of the
-- snapshot has an online entry, which shows one of the devices of the snapshot with this address, seen
-- now or when it was last found to be the same device. A known device that is not in the snapshot is
-- kept offline, with its device and the time when it was last seen, if it is registered or was seen within the time of retention. Each
-- registered address has an entry.
pub replace_snapshot-IsSnapshot :
    (devices : List Device) (registered : List String) (now_ms : ℕ) (inventory : DeviceInventory)
    → All IsKeyed inventory
    → IsSnapshot devices
        (map lowercase registered)
        now_ms
        inventory
        (replace_snapshot devices registered now_ms inventory).0
unfolding replace_snapshot
replace_snapshot-IsSnapshot devices registered now_ms inventory keyed =
    let macs = map lowercase registered in
    record {
      current =
          All-weaken _ _ _ (IsKept-IsCurrent macs now_ms)
            (replace_snapshot-IsKept devices registered now_ms inventory keyed);
      seen = was_seen devices macs now_ms inventory;
      unseen = was_not_seen devices macs now_ms inventory keyed;
      registered = is_listed devices macs now_ms inventory keyed;
    }

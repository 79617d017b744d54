-- ===== src/Devices/Observed.antt =====
-- The loop over the devices of a snapshot.
use unetic_core.Prelude.{
  ℕ, ◌≡◌, ◌≢◌, ◌⊎◌, ◌&&◌, inl, inr, refl, sym, ap, ◌∙◌, arith, true, false, Option, none, some,
  List, [], ◌∷◌, String, All, get, insert, get-insert, contains_key, lowercase, Bool-cases, ◌==◌,
  string_eq, ==-eq, ==-true, if◌then◌else◌,
}
use unetic_core.Domain.Device.{Device, DeviceRuntime, device_eq}
use unetic_core.Devices.Inventory.{DeviceInventory, observe, observe_known}
use unetic_core.Devices.Lookup.{IsOneOf}
use unetic_core.Devices.Retention.{All-insert}

-- An entry of a device of the snapshot: it is online, and was seen now, or when it was last found to
-- be the same device.
abbrev pub WasSeen : DeviceInventory → ℕ → List Device → String × DeviceRuntime → Type 0
WasSeen inventory now_ms devices (mac, runtime) =
    (runtime.online ≡ true)
    × ((device : Device) × IsOneOf device devices
        × (lowercase device.mac ≡ mac)
        × (runtime.device ≡ record device { mac = lowercase device.mac }))
    × ((runtime.last_seen_ms ≡ now_ms)
        ⊎ ((old : DeviceRuntime) × (get inventory mac ≡ some old)
            × (old.online ≡ true)
            × (old.device ≡ runtime.device)
            × (runtime.last_seen_ms ≡ old.last_seen_ms)))

observe_known-device :
    (o : Option DeviceRuntime) (device : Device) (now_ms : ℕ)
    → (observe_known o device now_ms).device ≡ device
unfolding observe_known
observe_known-device none device now_ms = refl
observe_known-device (some existing) device now_ms = ground arith

observe_known-online :
    (o : Option DeviceRuntime) (device : Device) (now_ms : ℕ)
    → (observe_known o device now_ms).online ≡ true
unfolding observe_known
observe_known-online none device now_ms = refl
observe_known-online (some existing) device now_ms = ground arith

observe_known-seen :
    (o : Option DeviceRuntime) (device : Device) (now_ms : ℕ)
    → ((observe_known o device now_ms).last_seen_ms ≡ now_ms)
      ⊎ ((old : DeviceRuntime) × (o ≡ some old)
          × (old.online ≡ true)
          × (old.device ≡ device)
          × ((observe_known o device now_ms).last_seen_ms ≡ old.last_seen_ms))
unfolding observe_known
observe_known-seen none device now_ms = inl refl
observe_known-seen (some existing) device now_ms =
    elim (Bool-cases (existing.online && existing.device == device)) [
      | inl e ↦ inr (existing, refl, ground arith, ground arith, ground arith)
      | inr e ↦ inl (ground arith)
    ]

pub observe-WasSeen :
    (inventory : DeviceInventory) (now_ms : ℕ) (whole devices : List Device)
    (observed : DeviceInventory)
    → ((device : Device) → IsOneOf device devices → IsOneOf device whole)
    → All (WasSeen inventory now_ms whole) observed
    → All (WasSeen inventory now_ms whole) (observe inventory now_ms devices observed)
unfolding observe
observe-WasSeen inventory now_ms whole [] observed among h = h
observe-WasSeen inventory now_ms whole (found ∷ devices) observed among h =
    let device = record found { mac = lowercase found.mac } in
    let o = get inventory device.mac in
    let same = observe_known-device o device now_ms in
    observe-WasSeen inventory now_ms whole devices _ (λ d m. among d (inr m))
      (All-insert (WasSeen inventory now_ms whole) _ _ observed
        (
          observe_known-online o device now_ms,
          (found, among found (inl refl), ap (λ (d : Device). d.mac) (sym same), same),
          elim (observe_known-seen o device now_ms) [
            | inl e ↦ inl e
            | inr (old, found_old, on, known, seen) ↦ inr (
              old,
              ap (λ (d : Device). get inventory d.mac) same ∙ found_old,
              on,
              known ∙ sym same,
              seen,
            )
          ],
        )
        h)

contains_key-insert :
    (k j : String) (v : DeviceRuntime) (m : DeviceInventory)
    → contains_key (insert k v m) j ≡ (if k == j then true else contains_key m j)
contains_key-insert k j v m = ground (arith, get-insert k j v m)

observe-contains_old :
    (inventory : DeviceInventory) (now_ms : ℕ) (devices : List Device) (observed : DeviceInventory)
    (k : String)
    → contains_key observed k ≡ true
    → contains_key (observe inventory now_ms devices observed) k ≡ true
unfolding observe
observe-contains_old inventory now_ms [] observed k h = h
observe-contains_old inventory now_ms (found ∷ devices) observed k h =
    observe-contains_old inventory now_ms devices _ k
      (contains_key-insert _ k _ observed ∙ (ground arith))

pub observe-contains :
    (inventory : DeviceInventory) (now_ms : ℕ) (devices : List Device) (observed : DeviceInventory)
    (device : Device)
    → IsOneOf device devices
    → contains_key (observe inventory now_ms devices observed) (lowercase device.mac) ≡ true
unfolding observe
observe-contains inventory now_ms [] observed device h = absurd h
observe-contains inventory now_ms (found ∷ devices) observed device (inl e) =
    let seen = record found { mac = lowercase found.mac } in
    let runtime = observe_known (get inventory seen.mac) seen now_ms in
    let here : (runtime.device.mac == lowercase device.mac) ≡ true = ==-eq _ _ (
      ap (λ (d : Device). d.mac) (observe_known-device (get inventory seen.mac) seen now_ms)
      ∙ ap (λ (d : Device). lowercase d.mac) e) in
    observe-contains_old inventory now_ms devices _ (lowercase device.mac)
      (contains_key-insert _ (lowercase device.mac) _ observed ∙ (rw here refl))
observe-contains inventory now_ms (found ∷ devices) observed device (inr h) =
    observe-contains inventory now_ms devices _ device h

pub observe-contains_other :
    (inventory : DeviceInventory) (now_ms : ℕ) (devices : List Device) (observed : DeviceInventory)
    (k : String)
    → All (λ (device : Device). lowercase device.mac ≢ k) devices
    → contains_key observed k ≡ false
    → contains_key (observe inventory now_ms devices observed) k ≡ false
unfolding observe
observe-contains_other inventory now_ms [] observed k other h = h
observe-contains_other inventory now_ms (found ∷ devices) observed k other h =
    let seen = record found { mac = lowercase found.mac } in
    let same = observe_known-device (get inventory seen.mac) seen now_ms in
    observe-contains_other inventory now_ms devices _ k other.1 (
      contains_key-insert _ k _ observed
      ∙ elim (Bool-cases ((observe_known (get inventory seen.mac) seen now_ms).device.mac == k)) [
        | inl e ↦ absurd (other.0 (ap (λ (d : Device). d.mac) (sym same) ∙ ==-true _ k e))
        | inr e ↦ rw e h
      ])

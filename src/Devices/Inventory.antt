-- ===== src/Devices/Inventory.antt =====
-- `DeviceInventory` of src/domain/mesh/device_inventory.rs: the devices that the router has seen, by
-- their MAC addresses. A loop over the entries is a map of the entries and a test whether one of them
-- changes; the set of the registered addresses is a list, in which a repeated address has no effect.
use unetic_core.Prelude.{
  ℕ, ◌-◌, ◌*◌, Bool, true, false, not, ◌&&◌, ◌||◌, Option, none, some, List, [], ◌∷◌, map, String,
  Map, get, insert, contains_key, length, any, retain, ◌==◌, ◌!=◌, leb, string_eq, nat_eq, bool_eq,
  option_eq, if◌then◌else◌, lowercase,
}
use unetic_core.Domain.Device.{Device, DeviceRuntime, unknown, device_eq, device_runtime_eq}
use unetic_core.Devices.Identity.{id_for_mac}

abbrev pub DeviceInventory : Type 0
DeviceInventory = Map DeviceRuntime

abbrev pub device_history_retention_ms : ℕ
device_history_retention_ms = 30 * 24 * 60 * 60 * 1_000

-- `for runtime in self.devices.values_mut()`: a change of every entry
abbrev pub update : (DeviceRuntime → DeviceRuntime) → DeviceInventory → DeviceInventory
update f inventory = map (λ entry. (entry.0, f entry.1)) inventory

abbrev some_entry : (DeviceRuntime → Bool) → DeviceInventory → Bool
some_entry p inventory = any (λ entry. p entry.1) inventory

unfoldable pub name_device : DeviceRuntime → DeviceRuntime
name_device runtime =
    if runtime.id == "" then record runtime { id = id_for_mac runtime.device.mac } else runtime

abbrev seen_now : Device → ℕ → DeviceRuntime
seen_now device now_ms = record {
  id = id_for_mac device.mac;
  registered = false;
  device = device;
  online = true;
  last_seen_ms = now_ms;
}

unfoldable pub observe_known : Option DeviceRuntime → Device → ℕ → DeviceRuntime
observe_known none device now_ms = seen_now device now_ms
observe_known (some existing) device now_ms =
    if existing.online && existing.device == device then existing else seen_now device now_ms

-- the loop over the devices of the snapshot
unfoldable pub observe : DeviceInventory → ℕ → List Device → DeviceInventory → DeviceInventory
unfolding observe_known
observe inventory now_ms [] observed = observed
observe inventory now_ms (found ∷ devices) observed =
    let device = record found { mac = lowercase found.mac } in
    let runtime = observe_known (get inventory device.mac) device now_ms in
    observe inventory now_ms devices (insert runtime.device.mac runtime observed)

abbrev differs : DeviceInventory → String × DeviceRuntime → Bool
differs inventory entry = get inventory entry.0 != some entry.1

abbrev goes_off : DeviceInventory → String × DeviceRuntime → Bool
goes_off observed entry = not (contains_key observed entry.0 || not entry.1.online)

abbrev pub switch_off : DeviceInventory → String × DeviceRuntime → String × DeviceRuntime
switch_off observed entry =
    if contains_key observed entry.0 || not entry.1.online
    then entry
    else (entry.0, record entry.1 { online = false })

-- `self.devices.extend(observed)`
unfoldable pub extend : DeviceInventory → DeviceInventory → DeviceInventory
extend inventory [] = inventory
extend inventory ((mac, runtime) ∷ observed) = extend (insert mac runtime inventory) observed

abbrev pub never_seen : String → DeviceRuntime
never_seen mac = record {
  id = id_for_mac mac;
  registered = true;
  device = record { mac = mac; ip = none; ip6 = none; hostname = none; connection = unknown };
  online = false;
  last_seen_ms = 0;
}

unfoldable pub add_registered : List String → DeviceInventory → DeviceInventory × Bool
add_registered [] inventory = (inventory, false)
add_registered (mac ∷ macs) inventory =
    let kept = add_registered macs inventory in
    let added = add_registered macs (insert mac (never_seen mac) inventory) in
    if contains_key inventory mac then kept else (added.0, true)

unfoldable pub is_registered : List String → DeviceRuntime → Bool
is_registered macs runtime = any (λ mac. mac == runtime.device.mac) macs

unfoldable pub mark_registered : List String → DeviceRuntime → DeviceRuntime
unfolding is_registered
mark_registered macs runtime = record runtime { registered = is_registered macs runtime }

unfoldable pub is_retained : ℕ → String × DeviceRuntime → Bool
is_retained now_ms entry =
    entry.1.registered
    || entry.1.online
    || leb (now_ms - entry.1.last_seen_ms) device_history_retention_ms

unfoldable pub prune : ℕ → DeviceInventory → DeviceInventory × Bool
unfolding is_retained
prune now_ms inventory =
    let kept = retain (is_retained now_ms) inventory in (kept, length kept != length inventory)

-- `replace_snapshot`, and whether the inventory changed.
unfoldable pub replace_snapshot :
    List Device → List String → ℕ → DeviceInventory → DeviceInventory × Bool
unfolding name_device observe extend add_registered mark_registered prune
replace_snapshot devices registered now_ms inventory =
    let macs = map lowercase registered in
    let named = update name_device inventory in
    let observed = observe named now_ms devices [] in
    let off = map (switch_off observed) named in
    let (added, is_added) = add_registered macs (extend off observed) in
    let marked = update (mark_registered macs) added in
    let (pruned, is_pruned) = prune now_ms marked in
    (
      pruned,
      is_pruned
          || some_entry (λ runtime. runtime.id == "") inventory
          || any (differs named) observed
          || any (goes_off observed) named
          || is_added
          || some_entry (λ runtime. runtime.registered != is_registered macs runtime) added,
    )

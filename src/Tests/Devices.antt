-- ===== src/Tests/Devices.antt =====
-- The devices of the network.
use unetic_core.Prelude.{
  ℕ, ◌≡◌, refl, true, false, map, none, some, [], ◌∷◌, List, lowercase, is_ascii_hexdigit,
  is_ascii_digit,
}
use unetic_core.Platform.{DeviceBackend}
use unetic_core.Tests.Bench.{answer, bench_app, bench_host}
use unetic_core.Devices.Keeping.{AreRegistered}
use unetic_core.Devices.Consistency.{perform, register, perform-AreRegistered}
use unetic_core.Domain.Device.{RegisteredDevice, tcp, Device, wired}
use unetic_core.Devices.Inventory.{DeviceInventory, replace_snapshot}
use unetic_core.Devices.Snapshot.{IsSnapshot, replace_snapshot-IsSnapshot}
use unetic_core.Devices.Identity.{id_for_mac, mac_from_id}
use unetic_core.Devices.Names.{Octet, mac_text, mac_from_id-id_for_mac}

abbrev octets : List Octet
octets = ("A", "a") ∷ ("b", "b") ∷ ("0", "C") ∷ ("d", "9") ∷ ("e", "e") ∷ ("F", "f") ∷ []

mac_from_id-id_for_mac_example :
    mac_from_id (id_for_mac (mac_text octets)) ≡ some (lowercase (mac_text octets))
unfolding is_ascii_hexdigit is_ascii_digit
mac_from_id-id_for_mac_example =
    mac_from_id-id_for_mac octets
      (
        (refl, refl),
        ((refl, refl), ((refl, refl), ((refl, refl), ((refl, refl), ((refl, refl), tt))))),
      )
      refl

abbrev phone : Device
phone = record {
  mac = "aa:bb:cc:dd:ee:ff";
  ip = some "192.168.1.2";
  ip6 = none;
  hostname = some "phone";
  connection = wired "lan1";
}

abbrev before : DeviceInventory
before =
    (
      "aa:bb:cc:dd:ee:ff",
      record {
        id = "device-aabbccddeeff";
        registered = false;
        device = phone;
        online = true;
        last_seen_ms = 10;
      },
    )
    ∷ []

replace_snapshot-IsSnapshot_example :
    IsSnapshot
      (record phone { mac = "66:77:88:99:AA:BB" } ∷ [])
      (map lowercase ("00:11:22:33:44:55" ∷ []))
      20
      before
      (replace_snapshot
        (record phone { mac = "66:77:88:99:AA:BB" } ∷ [])
        ("00:11:22:33:44:55" ∷ [])
        20
        before).0
replace_snapshot-IsSnapshot_example =
    replace_snapshot-IsSnapshot (record phone { mac = "66:77:88:99:AA:BB" } ∷ [])
      ("00:11:22:33:44:55" ∷ []) 20 before (refl, tt)

instance abbrev bench_devices : DeviceBackend ℕ
bench_devices = record {
  read_devices = λ extenders clients. answer (phone ∷ []);
  write_static_lease = λ mac ip hostname. answer tt;
  delete_static_lease = λ mac. answer tt;
  sync_port_forwards = λ registered found. answer tt;
}

abbrev mine : RegisteredDevice
mine = record {
  id = "device-aabbccddeeff";
  mac = "aa:bb:cc:dd:ee:ff";
  name = "phone";
  is_static_ip = true;
  port_forwards =
      record { id = "ssh"; external_port = 2222; internal_port = 22; protocol = tcp } ∷ [];
}

perform-AreRegistered_example : AreRegistered (perform (register mine) bench_app).1
perform-AreRegistered_example = perform-AreRegistered (register mine) bench_app tt

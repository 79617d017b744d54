-- ===== src/Devices/Quiet.antt =====
-- The parts of the device operations that leave the desired configuration alone.
use unetic_core.Prelude.{
  refl, arith, Bool, true, false, Option, none, some, List, String, ok, err, string_eq,
}
use unetic_core.Domain.Errors.{Fallible}
use unetic_core.Domain.Device.{Device, RegisteredDevice}
use unetic_core.Platform.{Host, DeviceBackend}
use unetic_core.App.Monad.{◌>>=◌, modify_inner}
use unetic_core.App.Store.{settle, persist_device_inventory}
use unetic_core.App.Quiet.{Quietly, quiet_rules, Quietly-publish}
use unetic_core.Devices.Operations

module _ {W : Type 0} ⦃host : Host W⦄ where
  Quietly-persist_device_inventory :
      (inventory : _) → Quietly {W = W} (persist_device_inventory inventory)
  unfolding persist_device_inventory settle ◌>>=◌
  Quietly-persist_device_inventory inventory = record {
    at = λ s. record {
      config = ground arith;
      stored = ground arith;
      last = ground arith;
      timing = ground arith;
      idle = λ h. ground arith;
    };
  }

  Quietly-set_refreshing : (b : Bool) → Quietly {W = W} (Operations.set_refreshing b)
  unfolding Operations.set_refreshing
  Quietly-set_refreshing b = record {
    at = λ s. record { config = refl; stored = refl; last = refl; timing = refl; idle = λ h. h };
  }

  Quietly-set_devices :
      (inventory : _)
      → Quietly {W = W} (modify_inner (λ inner. record inner { devices = inventory }))
  Quietly-set_devices inventory = record {
    at = λ s. record { config = refl; stored = refl; last = refl; timing = refl; idle = λ h. h };
  }

module _ {W : Type 0} ⦃host : Host W⦄ ⦃backend : DeviceBackend W⦄ where
  Quietly-devices_list : Quietly {W = W} Operations.devices_list
  unfolding Operations.devices_list
  Quietly-devices_list = search quiet_rules

  Quietly-record_devices :
      (publishes : Bool) (macs : List String) (r : Fallible (List Device))
      → Quietly {W = W} (Operations.record_devices publishes macs r)
  unfolding Operations.record_devices
  Quietly-record_devices publishes macs (err error) = search quiet_rules
  Quietly-record_devices publishes macs (ok found) =
      search (quiet_rules, Quietly-publish, Quietly-persist_device_inventory, Quietly-set_devices)
        depth 20 fits 3000

  pub Quietly-refresh_devices :
      (publishes : Bool) → Quietly {W = W} (Operations.refresh_devices publishes)
  unfolding Operations.refresh_devices
  Quietly-refresh_devices publishes =
      search (quiet_rules, Quietly-set_refreshing, Quietly-devices_list, Quietly-record_devices)
        depth 20 fits 3000

  pub Quietly-sync_registered_devices : Quietly {W = W} Operations.sync_registered_devices
  unfolding Operations.sync_registered_devices
  Quietly-sync_registered_devices = search quiet_rules

  Quietly-require_ip :
      (required : Bool) (ip : Option String) → Quietly {W = W} (Operations.require_ip required ip)
  unfolding Operations.require_ip
  Quietly-require_ip true none = search quiet_rules
  Quietly-require_ip false none = search quiet_rules
  Quietly-require_ip true (some ip) = search quiet_rules
  Quietly-require_ip false (some ip) = search quiet_rules

  pub Quietly-static_ip_for :
      (device : RegisteredDevice) (required : Bool)
      → Quietly {W = W} (Operations.static_ip_for device required)
  unfolding Operations.static_ip_for
  Quietly-static_ip_for device required =
      search (quiet_rules, Quietly-devices_list, Quietly-require_ip)

  pub Quietly-write_lease :
      (device : RegisteredDevice) (ip : Option String)
      → Quietly {W = W} (Operations.write_lease device ip)
  unfolding Operations.write_lease
  Quietly-write_lease device none = search quiet_rules
  Quietly-write_lease device (some ip) = search quiet_rules

  pub Quietly-settle_lease :
      (previous device : RegisteredDevice) (ip : Option String)
      → Quietly {W = W} (Operations.settle_lease previous device ip)
  unfolding Operations.settle_lease
  Quietly-settle_lease previous device ip = search (quiet_rules, Quietly-write_lease)

  Quietly-sync_lease :
      (device : RegisteredDevice) (ip : Option String)
      → Quietly {W = W} (Operations.sync_lease device ip)
  unfolding Operations.sync_lease
  Quietly-sync_lease device ip = search (quiet_rules, Quietly-write_lease)

  pub Quietly-sync_addresses :
      (ip ip6 : Option String) (device : Option RegisteredDevice)
      → Quietly {W = W} (Operations.sync_addresses ip ip6 device)
  unfolding Operations.sync_addresses
  Quietly-sync_addresses ip ip6 none = search quiet_rules
  Quietly-sync_addresses ip ip6 (some device) =
      search (quiet_rules, Quietly-sync_lease, Quietly-sync_registered_devices)

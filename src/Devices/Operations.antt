-- ===== src/Devices/Operations.antt =====
-- The operations of src/application/app/operations/devices.rs, with `devices_list` and
-- `refresh_devices` of src/application/app/mod.rs and `sync_registered_devices` of
-- src/application/app/reconcile.rs.
use unetic_core.Prelude.{
  Bool, true, false, not, ◌&&◌, ◌||◌, Option, none, some, List, map, String, ◌==◌, ◌!=◌, string_eq,
  if◌then◌else◌, ok, err, find, any, fail_if,
}
use unetic_core.Domain.Errors.{LegacyAppError, Fallible, invalid}
use unetic_core.Domain.Device.{Device, PortForward, RegisteredDevice}
use unetic_core.Domain.Config.{DesiredConfig}
use unetic_core.Platform.{Host, DeviceBackend}
use unetic_core.App.State.{StateTopic}
use unetic_core.App.Monad.{
  Action, ◌>>=◌, ◌>>◌, pure, raise, gets, lift, call, host_call, try, ignore, modify_inner, returns,
}
use unetic_core.App.Store.{persist_config, persist_device_inventory}
use unetic_core.App.Publisher.{next_seq, publish, snapshot}
use unetic_core.Wan.Address.{eq_ignore_ascii_case}
use unetic_core.Devices.Inventory.{replace_snapshot}
use unetic_core.Devices.Validation.{
  no_such, validate_identifier, validate_port_forward, validate_device,
}
use unetic_core.Devices.Registration.{
  put_device, change_device, remove_device, with_rule, without_rule,
}

-- The desired configuration with other registered devices, under the next revision.
abbrev pub with_devices : List RegisteredDevice → DesiredConfig → DesiredConfig
with_devices devices config = record config {
  registered_devices = devices;
  revision = next_seq config.revision;
}

module _ {W : Type 0} ⦃host : Host W⦄ where
  -- The lock is held from the reading of the configuration to its replacement.
  unfoldable pub update_registered_devices :
      {T : Type 0} → (List RegisteredDevice → Fallible (T × List RegisteredDevice)) → Action W T
  update_registered_devices update = do
    config ← gets (λ s. s.inner.config)
    updated ← lift (update config.registered_devices)
    persist_config (with_devices updated.1 config)
    modify_inner (λ inner. record inner { config = with_devices updated.1 config })
    pure updated.0

  unfoldable pub set_refreshing : Bool → Action W (Unit {0})
  set_refreshing refreshing s = (returns tt, record s { device_refreshing = refreshing })

abbrev pub no_result :
    Fallible (List RegisteredDevice) → Fallible ((Unit {0}) × List RegisteredDevice)
no_result (ok devices) = ok (tt, devices)
no_result (err error) = err error

abbrev ip_of : Option Device → Option String
ip_of none = none
ip_of (some device) = device.ip

abbrev is_given : Option String → Bool
is_given none = false
is_given (some text) = true

abbrev ok_or : Option RegisteredDevice → LegacyAppError → Fallible RegisteredDevice
ok_or none error = err error
ok_or (some device) error = ok device

module _ {W : Type 0} ⦃host : Host W⦄ ⦃backend : DeviceBackend W⦄ where
  unfoldable pub devices_list : Action W (List Device)
  devices_list = do
    inner ← gets (λ s. s.inner)
    call (backend.read_devices inner.config.extenders inner.extender_clients)

  -- the rest of `refresh_devices` once the devices are read
  unfoldable pub record_devices : Bool → List String → Fallible (List Device) → Action W (Unit {0})
  record_devices publishes macs (err error) = pure tt
  record_devices publishes macs (ok found) = do
    now_ms ← host_call (λ w. (host.now_ms w, w))
    inventory ← gets (λ s. replace_snapshot found macs now_ms s.inner.devices)
    modify_inner (λ inner. record inner { devices = inventory.0 })
    (if inventory.1
        then ignore (persist_device_inventory inventory.0)
          >> (if publishes then publish StateTopic.devices >> pure tt else pure tt)
        else pure tt)

  unfoldable pub refresh_devices : Bool → Action W (Unit {0})
  unfolding set_refreshing devices_list record_devices
  refresh_devices publishes = do
    refreshing ← gets (λ s. s.device_refreshing)
    (if refreshing then pure tt else do
      set_refreshing true
      found ← try devices_list
      macs ← gets (λ s. map (λ device. device.mac) s.inner.config.registered_devices)
      set_refreshing false
      record_devices publishes macs found)

  unfoldable pub sync_registered_devices : Action W (Unit {0})
  sync_registered_devices = do
    inner ← gets (λ s. s.inner)
    found ← call (backend.read_devices inner.config.extenders inner.extender_clients)
    call (backend.sync_port_forwards inner.config.registered_devices found)

  unfoldable pub require_ip : Bool → Option String → Action W (Option String)
  require_ip true none = raise (invalid "device needs an IPv4 address for a static lease")
  require_ip required ip = pure ip

  unfoldable pub static_ip_for : RegisteredDevice → Bool → Action W (Option String)
  unfolding devices_list require_ip
  static_ip_for device required = if not device.is_static_ip then pure none else do
    found ← devices_list
    require_ip required
        (ip_of (find (λ current. eq_ignore_ascii_case current.mac device.mac) found))

  unfoldable pub write_lease : RegisteredDevice → Option String → Action W (Unit {0})
  write_lease device none = pure tt
  write_lease device (some ip) = call (backend.write_static_lease device.mac ip (some device.name))

  unfoldable pub register_new : RegisteredDevice → Action W (Unit {0})
  unfolding static_ip_for update_registered_devices refresh_devices write_lease
      sync_registered_devices
  register_new device = do
    static_ip ← static_ip_for device true
    update_registered_devices (λ devices. ok (tt {0}, put_device device devices))
    refresh_devices false
    publish StateTopic.devices
    write_lease device static_ip
    sync_registered_devices

  unfoldable pub register_device : RegisteredDevice → Action W (Unit {0})
  unfolding register_new
  register_device device = do
    lift (validate_device device)
    registered ← gets (λ s. (snapshot s.inner).registered_devices)
    (if any (λ r. eq_ignore_ascii_case r.mac device.mac) registered
        then pure tt
        else register_new device)

  unfoldable pub settle_lease :
      RegisteredDevice → RegisteredDevice → Option String → Action W (Unit {0})
  unfolding write_lease
  settle_lease previous device static_ip =
      if previous.is_static_ip && not device.is_static_ip
      then call (backend.delete_static_lease device.mac)
      else write_lease device static_ip

  unfoldable pub replace_device : String → RegisteredDevice → RegisteredDevice → Action W (Unit {0})
  unfolding static_ip_for update_registered_devices settle_lease sync_registered_devices
  replace_device id device previous =
      if not (eq_ignore_ascii_case previous.mac device.mac)
      then raise (invalid "device MAC address cannot be changed")
      else do
        static_ip ← static_ip_for device (not previous.is_static_ip)
        update_registered_devices (λ devices. no_result (change_device id (λ _. ok device) devices))
        publish StateTopic.devices
        settle_lease previous device static_ip
        sync_registered_devices

  unfoldable pub update_device : String → RegisteredDevice → Action W (Unit {0})
  unfolding replace_device
  update_device id device = do
    lift (validate_identifier id "device ID")
    lift (validate_device device)
    lift (fail_if (device.id != id) (invalid "device ID cannot be changed"))
    registered ← gets (λ s. (snapshot s.inner).registered_devices)
    previous ← lift (ok_or (find (λ r. r.id == id) registered) (no_such "device"))
    replace_device id device previous

  unfoldable pub unregister_device : String → Action W (Unit {0})
  unfolding update_registered_devices sync_registered_devices
  unregister_device id = do
    lift (validate_identifier id "device ID")
    removed ← update_registered_devices (remove_device id)
    publish StateTopic.devices
    (if removed.is_static_ip then call (backend.delete_static_lease removed.mac) else pure tt)
    sync_registered_devices

  unfoldable pub add_port_forward : String → PortForward → Action W (Unit {0})
  unfolding update_registered_devices sync_registered_devices
  add_port_forward id rule = do
    lift (validate_identifier id "device ID")
    lift (validate_port_forward rule)
    update_registered_devices (λ devices. no_result (change_device id (with_rule rule) devices))
    publish StateTopic.devices
    sync_registered_devices

  unfoldable pub remove_port_forward : String → String → Action W (Unit {0})
  unfolding update_registered_devices sync_registered_devices
  remove_port_forward id rule_id = do
    lift (validate_identifier id "device ID")
    lift (validate_identifier rule_id "port-forward ID")
    update_registered_devices
        (λ devices. no_result (change_device id (without_rule rule_id) devices))
    publish StateTopic.devices
    sync_registered_devices

  -- `if device.is_static_ip && let Some(address) = ip`, with its error logged
  unfoldable pub sync_lease : RegisteredDevice → Option String → Action W (Unit {0})
  unfolding write_lease
  sync_lease device ip = if device.is_static_ip then ignore (write_lease device ip) else pure tt

  unfoldable pub sync_addresses :
      Option String → Option String → Option RegisteredDevice → Action W (Unit {0})
  unfolding sync_lease sync_registered_devices
  sync_addresses ip ip6 none = pure tt
  sync_addresses ip ip6 (some device) = do
    sync_lease device ip
    (if is_given ip || is_given ip6 then ignore sync_registered_devices else pure tt)

  unfoldable pub devices_sync_ip : String → Option String → Option String → Action W (Unit {0})
  unfolding sync_addresses
  devices_sync_ip mac ip ip6 = do
    registered ← gets (λ s.
        find (λ device. eq_ignore_ascii_case device.mac mac) s.inner.config.registered_devices)
    sync_addresses ip ip6 registered

-- ===== src/Devices/Consistency.antt =====
-- The registered devices stay well-formed under the operations of the user.
use unetic_core.Prelude.{◌≡◌, Bool, true, Option, String, ok, string_eq}
use unetic_core.Domain.Errors.{Fallible}
use unetic_core.Domain.Device.{PortForward, RegisteredDevice}
use unetic_core.Platform.{Host, DeviceBackend}
use unetic_core.App.State.{App}
use unetic_core.App.Monad.{Action}
use unetic_core.App.Quiet.{quiet_rules, Quietly-publish, Quietly-pure, Quietly-raise}
use unetic_core.Devices.Registration.{put_device, change_device, with_rule, without_rule}
use unetic_core.Devices.Quiet.{
  Quietly-static_ip_for, Quietly-refresh_devices, Quietly-write_lease,
  Quietly-sync_registered_devices, Quietly-settle_lease, Quietly-sync_addresses,
}
use unetic_core.Devices.Operations
use unetic_core.Devices.Registry.{
  put_device-IsRegistry, change_device-IsRegistry, remove_device-IsRegistryRest, Improves, IsValid,
}
use unetic_core.Devices.Rules.{with_rule-Improves, without_rule-Improves}
use unetic_core.Devices.Keeping.{
  AreRegistered, Keeps, Keeps-Quietly, Keeps-if, Keeps-bind, checked-Keeps, Keeps-update, replaced,
  same_id, removed-IsUpdated, changed-IsUpdated,
}

module _ {W : Type 0} ⦃host : Host W⦄ ⦃backend : DeviceBackend W⦄ where
  Keeps-register_new :
      (device : RegisteredDevice) → IsValid device → Keeps {W = W} (Operations.register_new device)
  unfolding Operations.register_new
  Keeps-register_new device v =
      Keeps-bind _ _ (Keeps-Quietly _ (Quietly-static_ip_for device true)) λ ip.
        Keeps-bind _ _
          (Keeps-update (λ devices. ok (tt {0}, put_device device devices))
            (λ devices h. put_device-IsRegistry device devices v h))
          λ _. Keeps-Quietly _ (
            search
              (
                quiet_rules, Quietly-refresh_devices, Quietly-publish, Quietly-write_lease,
                Quietly-sync_registered_devices,
              )
              depth 20 fits 3000)

  Keeps-register_device :
      (device : RegisteredDevice) → Keeps {W = W} (Operations.register_device device)
  unfolding Operations.register_device
  Keeps-register_device device = checked-Keeps _ _ λ u v.
      Keeps-bind _ _ (Keeps-Quietly _ (search quiet_rules)) λ registered.
        Keeps-if _ _ _ (Keeps-Quietly _ (Quietly-pure _)) (Keeps-register_new device v)

  Keeps-change :
      (id : String) (f : RegisteredDevice → Fallible RegisteredDevice)
      → Improves id f
      → Keeps {W = W} (
          Operations.update_registered_devices
            (λ devices. Operations.no_result (change_device id f devices)))
  Keeps-change id f g =
      Keeps-update _ (λ devices h. changed-IsUpdated _ (change_device-IsRegistry id f g devices h))

  Keeps-replace_device :
      (id : String) (device previous : RegisteredDevice)
      → IsValid device
      → device.id ≡ id
      → Keeps {W = W} (Operations.replace_device id device previous)
  unfolding Operations.replace_device
  Keeps-replace_device id device previous v i = Keeps-if _ _ _ (Keeps-Quietly _ (Quietly-raise _)) (
      Keeps-bind _ _ (Keeps-Quietly _ (Quietly-static_ip_for device _)) λ ip.
        Keeps-bind _ _ (Keeps-change id (λ _. ok device) (replaced id device v i)) λ _.
          Keeps-Quietly _ (
            search
              (quiet_rules, Quietly-publish, Quietly-settle_lease, Quietly-sync_registered_devices)
              depth 20 fits 3000))

  Keeps-update_device :
      (id : String) (device : RegisteredDevice) → Keeps {W = W} (Operations.update_device id device)
  unfolding Operations.update_device
  Keeps-update_device id device = checked-Keeps _ _ λ _ _. checked-Keeps _ _ λ _ v.
      checked-Keeps _ _ λ _ i. Keeps-bind _ _ (Keeps-Quietly _ (search quiet_rules)) λ registered.
        Keeps-bind _ _ (Keeps-Quietly _ (search quiet_rules))
          λ previous. Keeps-replace_device id device previous v (same_id device id _ i)

  Keeps-unregister_device : (id : String) → Keeps {W = W} (Operations.unregister_device id)
  unfolding Operations.unregister_device
  Keeps-unregister_device id = checked-Keeps _ _ λ _ _.
      Keeps-bind _ _
        (Keeps-update _
          (λ devices h. removed-IsUpdated _ (remove_device-IsRegistryRest id devices h)))
        λ removed. Keeps-Quietly _ (
          search (quiet_rules, Quietly-publish, Quietly-sync_registered_devices) depth 20 fits 3000)

  Keeps-add_port_forward :
      (id : String) (rule : PortForward) → Keeps {W = W} (Operations.add_port_forward id rule)
  unfolding Operations.add_port_forward
  Keeps-add_port_forward id rule = checked-Keeps _ _ λ _ _. checked-Keeps _ _ λ _ v.
      Keeps-bind _ _ (Keeps-change id (with_rule rule) (with_rule-Improves id rule v)) λ _.
        Keeps-Quietly _ (search (quiet_rules, Quietly-publish, Quietly-sync_registered_devices))

  Keeps-remove_port_forward :
      (id rule_id : String) → Keeps {W = W} (Operations.remove_port_forward id rule_id)
  unfolding Operations.remove_port_forward
  Keeps-remove_port_forward id rule_id = checked-Keeps _ _ λ _ _. checked-Keeps _ _ λ _ _.
      Keeps-bind _ _ (Keeps-change id (without_rule rule_id) (without_rule-Improves id rule_id))
        λ _.
          Keeps-Quietly _ (search (quiet_rules, Quietly-publish, Quietly-sync_registered_devices))

-- What a user, or the router, asks of the core about the devices.
pub data DeviceCall : Type 0 where
  register : RegisteredDevice → DeviceCall
  update : String → RegisteredDevice → DeviceCall
  unregister : String → DeviceCall
  add_rule : String → PortForward → DeviceCall
  remove_rule : String → String → DeviceCall
  sync_ip : String → Option String → Option String → DeviceCall
  refresh : Bool → DeviceCall

module _ {W : Type 0} ⦃host : Host W⦄ ⦃backend : DeviceBackend W⦄ where
  abbrev pub perform : DeviceCall → Action W (Unit {0})
  perform (register device) = Operations.register_device device
  perform (update id device) = Operations.update_device id device
  perform (unregister id) = Operations.unregister_device id
  perform (add_rule id rule) = Operations.add_port_forward id rule
  perform (remove_rule id rule_id) = Operations.remove_port_forward id rule_id
  perform (sync_ip mac ip ip6) = Operations.devices_sync_ip mac ip ip6
  perform (refresh publishes) = Operations.refresh_devices publishes

  Keeps-perform : (c : DeviceCall) → Keeps {W = W} (perform c)
  unfolding Operations.devices_sync_ip
  Keeps-perform (register device) = Keeps-register_device device
  Keeps-perform (update id device) = Keeps-update_device id device
  Keeps-perform (unregister id) = Keeps-unregister_device id
  Keeps-perform (add_rule id rule) = Keeps-add_port_forward id rule
  Keeps-perform (remove_rule id rule_id) = Keeps-remove_port_forward id rule_id
  Keeps-perform (sync_ip mac ip ip6) =
      Keeps-Quietly _ (search (quiet_rules, Quietly-sync_addresses))
  Keeps-perform (refresh publishes) = Keeps-Quietly _ (Quietly-refresh_devices publishes)

  -- Where every registered device is accepted and no two have the same id, this is so after every
  -- operation on the devices, whether it returns or fails, and whatever the router and the files answer.
  pub perform-AreRegistered :
      (c : DeviceCall) (s : App W) → AreRegistered s → AreRegistered (perform c s).1
  perform-AreRegistered c s h = (Keeps-perform c).at s h

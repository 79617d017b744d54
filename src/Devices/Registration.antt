-- ===== src/Devices/Registration.antt =====
-- src/application/app/operations/devices.rs: what the operations do to the list of the registered
-- devices.
use unetic_core.Prelude.{
  List, [], ◌∷◌, ◌++◌, String, ◌==◌, ◌!=◌, string_eq, nat_eq, if◌then◌else◌, ok, err, retain,
  length,
}
use unetic_core.Domain.Errors.{Fallible}
use unetic_core.Domain.Device.{PortForward, RegisteredDevice}
use unetic_core.Devices.Validation.{no_such}

unfoldable pub put_device : RegisteredDevice → List RegisteredDevice → List RegisteredDevice
put_device device devices = retain (λ d. d.id != device.id) devices ++ device ∷ []

abbrev pub keep_first :
    RegisteredDevice → Fallible (List RegisteredDevice) → Fallible (List RegisteredDevice)
keep_first device (ok devices) = ok (device ∷ devices)
keep_first device (err error) = err error

abbrev pub put_back :
    List RegisteredDevice → Fallible RegisteredDevice → Fallible (List RegisteredDevice)
put_back devices (ok device) = ok (device ∷ devices)
put_back devices (err error) = err error

-- `devices.iter_mut().find(|device| device.id == id)`, and a change of the device that is found
unfoldable pub change_device :
    String
    → (RegisteredDevice → Fallible RegisteredDevice)
    → List RegisteredDevice
    → Fallible (List RegisteredDevice)
change_device id f [] = err (no_such "device")
change_device id f (device ∷ devices) =
    let rest = change_device id f devices in
    if device.id == id then put_back devices (f device) else keep_first device rest

-- `position` and `remove`: the device with the id, and the others
abbrev pub pass_over :
    RegisteredDevice
    → Fallible (RegisteredDevice × List RegisteredDevice)
    → Fallible (RegisteredDevice × List RegisteredDevice)
pass_over device (ok (removed, devices)) = ok (removed, device ∷ devices)
pass_over device (err error) = err error

unfoldable pub remove_device :
    String → List RegisteredDevice → Fallible (RegisteredDevice × List RegisteredDevice)
remove_device id [] = err (no_such "device")
remove_device id (device ∷ devices) =
    let rest = remove_device id devices in
    if device.id == id then ok (device, devices) else pass_over device rest

unfoldable pub with_rule : PortForward → RegisteredDevice → Fallible RegisteredDevice
with_rule rule device = ok (record device {
  port_forwards = retain (λ current. current.id != rule.id) device.port_forwards ++ rule ∷ [];
})

unfoldable pub without_rule : String → RegisteredDevice → Fallible RegisteredDevice
without_rule rule_id device =
    let kept = retain (λ rule. rule.id != rule_id) device.port_forwards in
    if length kept == length device.port_forwards
    then err (no_such "port-forward rule")
    else ok (record device { port_forwards = kept })

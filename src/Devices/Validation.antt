-- ===== src/Devices/Validation.antt =====
-- The validators of src/application/app/operations/devices.rs.
use Prim.Native.String.{◌++◌}
use unetic_core.Prelude.{
  ℕ, Bool, not, ◌&&◌, ◌||◌, List, [], ◌∷◌, String, ◌==◌, ◌!=◌, nat_eq, string_eq, leb, ltb, ok,
  fail_if, ◌>>◌, all, length, bytes, byte_len, split, is_blank, is_ascii_alphanumeric,
  is_ascii_hexdigit,
}
use unetic_core.Domain.Errors.{LegacyAppError, Fallible, new_error, invalid, not_found, validate}
use unetic_core.Domain.Device.{PortForward, RegisteredDevice}
use unetic_core.Devices.Identity.{id_for_mac}

abbrev pub no_such : String → LegacyAppError
no_such entity = new_error not_found validate (entity ++ " not found")

unfoldable pub validate_identifier : String → String → Fallible (Unit {0})
validate_identifier value label =
    fail_if
      (not (
        value != ""
        && leb (byte_len value) 64
        && all (λ byte. is_ascii_alphanumeric byte || byte == b'-' || byte == b'_') (bytes value)))
      (invalid (label ++ " must contain only letters, digits, '-' or '_'"))

abbrev is_port : ℕ → Bool
is_port port = leb 1 port && leb port 65_535

unfoldable pub validate_port_forward : PortForward → Fallible (Unit {0})
unfolding validate_identifier
validate_port_forward rule =
    validate_identifier rule.id "port-forward ID"
    >> fail_if (not (is_port rule.external_port) || not (is_port rule.internal_port))
        (invalid "port must be between 1 and 65535")

-- six octets of two hexadecimal digits, and no more
unfoldable pub is_valid_mac : String → Bool
is_valid_mac mac =
    let octets = split b':' (bytes mac) in
    length octets == 6 && all (λ octet. length octet == 2 && all is_ascii_hexdigit octet) octets

unfoldable pub validate_rules : List PortForward → Fallible (Unit {0})
unfolding validate_port_forward
validate_rules [] = ok tt
validate_rules (rule ∷ rules) = validate_port_forward rule >> validate_rules rules

-- `validate_device` up to its loop
unfoldable pub validate_fields : String → String → String → Fallible (Unit {0})
unfolding validate_identifier is_valid_mac
validate_fields id mac name = do
  validate_identifier id "device ID"
  fail_if (id != id_for_mac mac) (invalid "device ID does not match its MAC address")
  fail_if (not (is_valid_mac mac)) (invalid "invalid device MAC address")
  fail_if (is_blank name || ltb 64 (byte_len name))
      (invalid "device name must be between 1 and 64 bytes")

unfoldable pub validate_device : RegisteredDevice → Fallible (Unit {0})
unfolding validate_fields validate_rules
validate_device device =
    validate_fields device.id device.mac device.name >> validate_rules device.port_forwards

-- ===== src/Devices/Identity.antt =====
-- `DeviceRuntime::id_for_mac` and `mac_from_id` of src/domain/mesh/device_inventory.rs.
use Prim.Native.String.{◌++◌}
use unetic_core.Prelude.{
  not, ◌||◌, Option, none, some, String, ◌!=◌, nat_eq, if◌then◌else◌, all, bytes, byte_len,
  is_ascii_hexdigit, lowercase, without, strip_prefix,
}

unfoldable pub id_for_mac : String → String
unfolding lowercase without
id_for_mac mac = "device-" ++ without b':' (lowercase mac)

-- The format string of the source, with the six slices of two bytes; it is asked for twelve
-- hexadecimal digits only, where bytes are characters.
unfoldable pub join_octets : String → String
join_octets String.[] = String.[]
join_octets (String.◌∷◌ a String.[]) = String.◌∷◌ a String.[]
join_octets (String.◌∷◌ a (String.◌∷◌ b String.[])) = String.◌∷◌ a (String.◌∷◌ b String.[])
join_octets (String.◌∷◌ a (String.◌∷◌ b (String.◌∷◌ c s))) =
    String.◌∷◌ a (String.◌∷◌ b (String.◌∷◌ ":" (join_octets (String.◌∷◌ c s))))

unfoldable pub mac_of_suffix : String → Option String
unfolding join_octets
mac_of_suffix suffix =
    if byte_len suffix != 12 || not (all is_ascii_hexdigit (bytes suffix))
    then none
    else some (join_octets suffix)

abbrev pub if_prefixed : Option String → Option String
if_prefixed none = none
if_prefixed (some suffix) = mac_of_suffix suffix

unfoldable pub mac_from_id : String → Option String
unfolding strip_prefix mac_of_suffix
mac_from_id id = if_prefixed (strip_prefix "device-" id)

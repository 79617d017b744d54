-- ===== src/Wan/Address.antt =====
-- The IPv4 addresses, netmasks and MAC addresses of src/application/wan/validation.rs.
use Prim.Native.Nat.{bit_and}
use Prim.Native.String.{◌++◌}
use unetic_core.Prelude.{
  ℕ, ◌+◌, ◌-◌, ◌*◌, ◌/◌, ◌%◌, ◌^◌, Bool, not, ◌&&◌, ◌||◌, Option, none, some, List, [], ◌∷◌, map,
  String, ◌==◌, ◌!=◌, leb, nat_eq, string_eq, list_eq, if◌then◌else◌, length, is_empty, all, split,
  bytes, is_ascii_digit, is_ascii_hexdigit, to_ascii_lowercase, ok, err, ◌>>◌, fail_if,
}
use unetic_core.Domain.Errors.{Fallible, invalid}

-- `u32` arithmetic
abbrev pub u32_mod : ℕ
u32_mod = 2 ^ 32

decimal : ℕ → List ℕ → ℕ
decimal n [] = n
decimal n (d ∷ ds) = decimal (n * 10 + (d - b'0')) ds

-- One octet as the standard library reads it: one to three digits, no leading zero, at most 255.
leading_zero : List ℕ → Bool
leading_zero (d ∷ e ∷ ds) = d == b'0'
leading_zero _ = Bool.false

unfoldable pub parse_octet : List ℕ → Option ℕ
unfolding decimal leading_zero
parse_octet ds =
    let value = decimal 0 ds in
    if not (is_empty ds)
      && leb (length ds) 3
      && all is_ascii_digit ds
      && not (leading_zero ds)
      && leb value 255
    then some value
    else none

unfoldable pub of_octets : Option ℕ → Option ℕ → Option ℕ → Option ℕ → Option ℕ
of_octets (some a) (some b) (some c) (some d) = some (((a * 256 + b) * 256 + c) * 256 + d)
of_octets _ _ _ _ = none

unfoldable pub of_parts : List (List ℕ) → Option ℕ
of_parts (a ∷ b ∷ c ∷ d ∷ []) =
    of_octets (parse_octet a) (parse_octet b) (parse_octet c) (parse_octet d)
of_parts _ = none

-- `value.parse::<Ipv4Addr>()`, and the address as a `u32`.
unfoldable pub parse_ipv4 : String → Option ℕ
unfolding of_parts of_octets parse_octet
parse_ipv4 value = of_parts (split b'.' (bytes value))

unfoldable pub is_unspecified : ℕ → Bool
is_unspecified ip = ip == 0

unfoldable pub is_loopback : ℕ → Bool
is_loopback ip = ip / 2 ^ 24 == 127

unfoldable pub is_multicast : ℕ → Bool
is_multicast ip = ip / 2 ^ 28 == 14

is_reserved : ℕ → Bool
unfolding is_unspecified is_loopback is_multicast
is_reserved ip = is_unspecified ip || is_loopback ip || is_multicast ip

abbrev bad_ipv4 : String → String → String
bad_ipv4 value field = "invalid IPv4 format for " ++ field ++ ": '" ++ value ++ "'"

check_ipv4 : Option ℕ → String → String → Fallible ℕ
check_ipv4 none value field = err (invalid (bad_ipv4 value field))
check_ipv4 (some ip) value field = do
  fail_if (is_reserved ip) (invalid (field ++ " cannot be unspecified, loopback, or multicast"))
  ok ip

unfoldable pub validate_ipv4 : String → String → Fallible ℕ
unfolding check_ipv4 is_reserved
validate_ipv4 value field = check_ipv4 (parse_ipv4 value) value field

-- `!raw` and `wrapping_add(1)`
unfoldable pub is_contiguous : ℕ → Bool
is_contiguous raw =
    let inverted = u32_mod - 1 - raw in
    not (bit_and ((inverted + 1) % u32_mod) inverted != 0 || raw == 0)

check_netmask : Option ℕ → String → Fallible ℕ
check_netmask none value = err (invalid ("invalid netmask format: '" ++ value ++ "'"))
check_netmask (some raw) value = do
  fail_if (not (is_contiguous raw)) (invalid ("netmask '" ++ value ++ "' is not contiguous"))
  ok raw

unfoldable pub validate_netmask : String → Fallible ℕ
unfolding check_netmask
validate_netmask value = check_netmask (parse_ipv4 value) value

is_octet : List ℕ → Bool
is_octet part = length part == 2 && all is_ascii_hexdigit part

-- The message of the source also shows the first bad octet.
check_octets : List (List ℕ) → Fallible (Unit {0})
check_octets [] = ok tt
check_octets (part ∷ parts) = do
  fail_if (not (is_octet part)) (invalid "invalid MAC octet")
  check_octets parts

unfoldable pub eq_ignore_ascii_case : String → String → Bool
eq_ignore_ascii_case s t = map to_ascii_lowercase (bytes s) == map to_ascii_lowercase (bytes t)

unfoldable pub validate_mac_address : String → Fallible (Unit {0})
unfolding is_octet check_octets eq_ignore_ascii_case
validate_mac_address mac = do
  let parts = split b':' (bytes mac)
  fail_if (length parts != 6) (invalid "MAC address must have 6 octets separated by colons")
  check_octets parts
  fail_if (mac == "00:00:00:00:00:00" || eq_ignore_ascii_case mac "ff:ff:ff:ff:ff:ff")
      (invalid "MAC address cannot be all zeros or broadcast")
  ok tt

-- ===== src/Devices/Names.antt =====
-- A MAC address can be read back from the id of its device.
use Prim.Native.Char.{Char, code}
use unetic_core.Prelude.{
  ℕ_discrete, ℕ, suc, ◌*◌, ◌<◌, ◌≡◌, refl, ap, ◌∙◌, arith, true, List, [], ◌∷◌, length, All, all,
  map, String, some, codes, byte_len, bytes-ascii, AreAscii, is_ascii_hexdigit, is_ascii_digit,
  to_ascii_lowercase, lowercase, lower_char, code-lower_char, without, strip_prefix-append,
}
use unetic_core.Devices.Identity.{id_for_mac, mac_from_id, if_prefixed, mac_of_suffix, join_octets}

abbrev pub Octet : Type 0
Octet = Char × Char

abbrev pub IsHex : Octet → Type 0
IsHex (a, b) = (is_ascii_hexdigit (code a) ≡ true) × (is_ascii_hexdigit (code b) ≡ true)

-- octets as text, one after another, and with colons between them
abbrev pub plain : List Octet → String
plain [] = String.[]
plain ((a, b) ∷ octets) = String.◌∷◌ a (String.◌∷◌ b (plain octets))

abbrev colon : List Octet → String → String
colon [] s = s
colon (octet ∷ octets) s = String.◌∷◌ ":" s

abbrev pub mac_text : List Octet → String
mac_text [] = String.[]
mac_text ((a, b) ∷ octets) = String.◌∷◌ a (String.◌∷◌ b (colon octets (mac_text octets)))

abbrev lower_octet : Octet → Octet
lower_octet (a, b) = (lower_char a, lower_char b)

length-map : (octets : List Octet) → length (map lower_octet octets) ≡ length octets
length-map [] = refl
length-map (o ∷ octets) = ap suc (length-map octets)

lower-IsHex : (n : ℕ) → is_ascii_hexdigit n ≡ true → is_ascii_hexdigit (to_ascii_lowercase n) ≡ true
unfolding is_ascii_hexdigit is_ascii_digit to_ascii_lowercase
lower-IsHex n h = ground (arith, h)

lower_octet-IsHex : (o : Octet) → IsHex o → IsHex (lower_octet o)
lower_octet-IsHex (a, b) h = (
  rw (code-lower_char a) (lower-IsHex (code a) h.0),
  rw (code-lower_char b) (lower-IsHex (code b) h.1),
)

lowers-IsHex : (octets : List Octet) → All IsHex octets → All IsHex (map lower_octet octets)
lowers-IsHex [] h = tt
lowers-IsHex (o ∷ octets) h = (lower_octet-IsHex o h.0, lowers-IsHex octets h.1)

lowercase-mac_text :
    (octets : List Octet) → lowercase (mac_text octets) ≡ mac_text (map lower_octet octets)
unfolding lowercase
lowercase-mac_text [] = refl
lowercase-mac_text ((a, b) ∷ []) = refl
lowercase-mac_text ((a, b) ∷ (c, d) ∷ octets) =
    ap (λ s. String.◌∷◌ (lower_char a) (String.◌∷◌ (lower_char b) (String.◌∷◌ ":" s)))
      (lowercase-mac_text ((c, d) ∷ octets))

without-hex :
    (a : Char) (s : String)
    → is_ascii_hexdigit (code a) ≡ true
    → without b':' (String.◌∷◌ a s) ≡ String.◌∷◌ a (without b':' s)
unfolding without is_ascii_hexdigit is_ascii_digit
without-hex a s h = ground (arith, h)

without-mac_text :
    (octets : List Octet) → All IsHex octets → without b':' (mac_text octets) ≡ plain octets
unfolding without ℕ_discrete
without-mac_text [] h = refl
without-mac_text ((a, b) ∷ []) h =
    without-hex a (String.◌∷◌ b String.[]) h.0.0
    ∙ ap (λ s. String.◌∷◌ a s) (without-hex b String.[] h.0.1)
without-mac_text ((a, b) ∷ o ∷ octets) h =
    let rest = mac_text (o ∷ octets) in
    without-hex a (String.◌∷◌ b (String.◌∷◌ ":" rest)) h.0.0
    ∙ ap (λ s. String.◌∷◌ a s) (without-hex b (String.◌∷◌ ":" rest) h.0.1)
    ∙ ap (λ s. String.◌∷◌ a (String.◌∷◌ b s)) (without-mac_text (o ∷ octets) h.1)

join-plain : (octets : List Octet) → join_octets (plain octets) ≡ mac_text octets
unfolding join_octets
join-plain [] = refl
join-plain ((a, b) ∷ []) = refl
join-plain ((a, b) ∷ (c, d) ∷ octets) =
    ap (λ s. String.◌∷◌ a (String.◌∷◌ b (String.◌∷◌ ":" s))) (join-plain ((c, d) ∷ octets))

hex-lt : (n : ℕ) → is_ascii_hexdigit n ≡ true → n < 128
unfolding is_ascii_hexdigit is_ascii_digit
hex-lt n h = ground (arith, h)

plain-AreAscii : (octets : List Octet) → All IsHex octets → AreAscii (codes (plain octets))
plain-AreAscii [] h = tt
plain-AreAscii ((a, b) ∷ octets) h = (hex-lt _ h.0.0, (hex-lt _ h.0.1, plain-AreAscii octets h.1))

all-plain :
    (octets : List Octet) → All IsHex octets → all is_ascii_hexdigit (codes (plain octets)) ≡ true
unfolding all
all-plain [] h = refl
all-plain ((a, b) ∷ octets) h = rw (h.0.0, h.0.1) (all-plain octets h.1)

length-plain : (octets : List Octet) → length (codes (plain octets)) ≡ 2 * length octets
length-plain [] = omega arith
length-plain ((a, b) ∷ octets) = omega (arith, length-plain octets)

mac_of_suffix-plain :
    (octets : List Octet)
    → All IsHex octets
    → length octets ≡ 6
    → mac_of_suffix (plain octets) ≡ some (mac_text octets)
unfolding mac_of_suffix byte_len
mac_of_suffix-plain octets h l =
    let b = bytes-ascii (plain octets) (plain-AreAscii octets h) in
    let a = all-plain octets h in
    let n = length-plain octets in ground (arith, b, a, n, l, join-plain octets)

-- The id of a device whose MAC address is six octets of two hexadecimal digits with colons between
-- them: the address that is read back from the id is the one in lower case.
pub mac_from_id-id_for_mac :
    (octets : List Octet)
    → All IsHex octets
    → length octets ≡ 6
    → mac_from_id (id_for_mac (mac_text octets)) ≡ some (lowercase (mac_text octets))
unfolding mac_from_id id_for_mac
mac_from_id-id_for_mac octets h l =
    let lows = map lower_octet octets in
    let i = lowercase-mac_text octets in
    let w = without-mac_text lows (lowers-IsHex octets h) in
    let e = strip_prefix-append "device-" (plain lows) in
    rw (i, w)
      (ap if_prefixed e ∙ mac_of_suffix-plain lows (lowers-IsHex octets h) (length-map octets ∙ l))

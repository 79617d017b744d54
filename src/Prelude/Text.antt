-- ===== src/Prelude/Text.antt =====
-- Texts as the bytes that Rust's `str` stands for, and the methods of `str` that the core calls.
use Prim.Native.Nat.{ℕ, ◌+◌, ◌/◌, ◌%◌}
use Prim.Native.Char.{code}
use Prim.Native.String.{String}
use mathlib.Core.Bool.{Bool, true, false, ◌&&◌, ◌||◌}
use mathlib.Core.List.{List, [], ◌∷◌, ◌++◌}
use unetic_core.Prelude.Tests.{ltb, leb, ◌==◌, nat_eq, if◌then◌else◌}
use unetic_core.Prelude.Lists.{length, all, any}

-- `chars()`
abbrev pub codes : String → List ℕ
codes String.[] = []
codes (String.◌∷◌ c s) = code c ∷ codes s

-- the UTF-8 encoding of one character
unfoldable pub encode_utf8 : ℕ → List ℕ
encode_utf8 c =
    if ltb c 0x80
    then c ∷ []
    else if ltb c 0x800
    then (0xc0 + c / 64) ∷ (0x80 + c % 64) ∷ []
    else if ltb c 0x1_0000
    then (0xe0 + c / 4096) ∷ (0x80 + c / 64 % 64) ∷ (0x80 + c % 64) ∷ []
    else (0xf0 + c / 262_144) ∷ (0x80 + c / 4096 % 64) ∷ (0x80 + c / 64 % 64) ∷ (0x80 + c % 64) ∷ []

unfoldable pub encode : List ℕ → List ℕ
encode [] = []
encode (c ∷ cs) = encode_utf8 c ++ encode cs

-- `bytes()`
unfoldable pub bytes : String → List ℕ
unfolding encode encode_utf8
bytes s = encode (codes s)

-- `len()`, in bytes
unfoldable pub byte_len : String → ℕ
unfolding bytes
byte_len s = length (bytes s)

-- `contains('\0')`
unfoldable pub contains_nul : String → Bool
unfolding bytes any
contains_nul s = any (λ b. b == 0) (bytes s)

-- the characters with the Unicode property White_Space
unfoldable pub is_whitespace : ℕ → Bool
is_whitespace c =
    leb 9 c && leb c 13
    || c == 32
    || c == 0x85
    || c == 0xa0
    || c == 0x1680
    || leb 0x2000 c && leb c 0x200a
    || c == 0x2028
    || c == 0x2029
    || c == 0x202f
    || c == 0x205f
    || c == 0x3000

-- `trim().is_empty()`
unfoldable pub is_blank : String → Bool
unfolding all is_whitespace
is_blank s = all is_whitespace (codes s)

unfoldable pub is_ascii_digit : ℕ → Bool
is_ascii_digit c = leb b'0' c && leb c b'9'

unfoldable pub is_ascii_alphanumeric : ℕ → Bool
unfolding is_ascii_digit
is_ascii_alphanumeric c = is_ascii_digit c || leb b'A' c && leb c b'Z' || leb b'a' c && leb c b'z'

unfoldable pub is_ascii_hexdigit : ℕ → Bool
unfolding is_ascii_digit
is_ascii_hexdigit c = is_ascii_digit c || leb b'A' c && leb c b'F' || leb b'a' c && leb c b'f'

unfoldable pub to_ascii_lowercase : ℕ → ℕ
to_ascii_lowercase c = if leb b'A' c && leb c b'Z' then c + 32 else c

-- `split(separator)` on the bytes of a text: one part more than there are separators.
abbrev prepend : ℕ → List (List ℕ) → List (List ℕ)
prepend c [] = (c ∷ []) ∷ []
prepend c (part ∷ parts) = (c ∷ part) ∷ parts

unfoldable pub split : ℕ → List ℕ → List (List ℕ)
split separator [] = [] ∷ []
split separator (c ∷ cs) =
    let parts = split separator cs in if c == separator then [] ∷ parts else prepend c parts

-- `contains(needle)`
starts_with_bytes : List ℕ → List ℕ → Bool
starts_with_bytes cs [] = true
starts_with_bytes [] (d ∷ ds) = false
starts_with_bytes (c ∷ cs) (d ∷ ds) = c == d && starts_with_bytes cs ds

contains_bytes : List ℕ → List ℕ → Bool
contains_bytes [] needle = starts_with_bytes [] needle
contains_bytes (c ∷ cs) needle = starts_with_bytes (c ∷ cs) needle || contains_bytes cs needle

unfoldable pub contains_text : String → String → Bool
unfolding starts_with_bytes contains_bytes bytes
contains_text s needle = contains_bytes (bytes s) (bytes needle)

-- ===== src/Prelude/Chars.antt =====
-- Texts character by character.
use Prim.Native.Nat.{ℕ, ◌+◌, ◌<◌}
use Prim.Native.Char.{Char, char, code, IsScalar}
use Prim.Native.String.{String, ◌++◌}
use Prim.Native.String.append
use mathlib.Core.Path.{◌≡◌, refl, ap}
use mathlib.Core.Logic.{◌⊎◌, inl, inr}
use mathlib.Core.Bool.{Bool, true, false, ◌&&◌}
use mathlib.Core.Option.{Option, none, some}
use mathlib.Core.List.{List, [], ◌∷◌}
use native.Mathlib.Omega.{arith}
use unetic_core.Prelude.Tests.{leb, ◌==◌, nat_eq, ==-eq, if◌then◌else◌}
use unetic_core.Prelude.Text.{codes, bytes, encode, encode_utf8, to_ascii_lowercase}

-- `to_ascii_lowercase()`
pub IsScalar-upper : (n : ℕ) → (leb b'A' n && leb n b'Z') ≡ true → IsScalar (n + 32)
IsScalar-upper n h = ground (arith, h)

abbrev lower_by :
    (n : ℕ)
    → IsScalar n
    → ((leb b'A' n && leb n b'Z') ≡ true) ⊎ ((leb b'A' n && leb n b'Z') ≡ false)
    → Char
lower_by n p (inl h) = char (n + 32) (IsScalar-upper n h)
lower_by n p (inr h) = char n p

abbrev tested : (b : Bool) → (b ≡ true) ⊎ (b ≡ false)
tested true = inl refl
tested false = inr refl

unfoldable pub lower_char : Char → Char
lower_char (char n p) = lower_by n p (tested (leb b'A' n && leb n b'Z'))

unfoldable pub lowercase : String → String
unfolding lower_char
lowercase String.[] = String.[]
lowercase (String.◌∷◌ c s) = String.◌∷◌ (lower_char c) (lowercase s)

lower_by-code :
    (n : ℕ) (p : IsScalar n)
    (h : ((leb b'A' n && leb n b'Z') ≡ true) ⊎ ((leb b'A' n && leb n b'Z') ≡ false))
    → code (lower_by n p h) ≡ to_ascii_lowercase n
unfolding to_ascii_lowercase
lower_by-code n p (inl h) = ground (arith, h)
lower_by-code n p (inr h) = ground (arith, h)

pub code-lower_char : (c : Char) → code (lower_char c) ≡ to_ascii_lowercase (code c)
unfolding lower_char
code-lower_char (char n p) = lower_by-code n p _

-- `replace(c, "")`, for one character
unfoldable pub without : ℕ → String → String
without c String.[] = String.[]
without c (String.◌∷◌ d s) =
    let rest = without c s in if code d == c then rest else String.◌∷◌ d rest

-- `strip_prefix(prefix)`
unfoldable pub strip_prefix : String → String → Option String
strip_prefix String.[] s = some s
strip_prefix (String.◌∷◌ c prefix) String.[] = none
strip_prefix (String.◌∷◌ c prefix) (String.◌∷◌ d s) =
    let rest = strip_prefix prefix s in if code c == code d then rest else none

pub strip_prefix-append : (prefix s : String) → strip_prefix prefix (prefix ++ s) ≡ some s
unfolding strip_prefix
strip_prefix-append String.[] s = ap some (append.nil s)
strip_prefix-append (String.◌∷◌ c prefix) s =
    rw (append.cons c prefix s, ==-eq (code c) (code c) refl) (strip_prefix-append prefix s)

abbrev pub AreAscii : List ℕ → Type 0
AreAscii [] = Unit
AreAscii (c ∷ cs) = (c < 128) × AreAscii cs

encode-ascii : (cs : List ℕ) → AreAscii cs → encode cs ≡ cs
unfolding encode encode_utf8
encode-ascii [] h = refl
encode-ascii (c ∷ cs) h = ground (arith, encode-ascii cs h.1, h.0)

-- The bytes of an ASCII text are its characters.
pub bytes-ascii : (s : String) → AreAscii (codes s) → bytes s ≡ codes s
unfolding bytes
bytes-ascii s h = encode-ascii (codes s) h

-- ===== src/Wan/Netmask.antt =====
-- The netmask test of src/application/wan/validation.rs against the prefix lengths it stands for.
use Prim.Native.Nat.{bit_and, bit_and-bitwise, digits, min}
use native.Mathlib.Nat.{pow-suc, pow-le-pow_right, one-le-pow}
use native.Mathlib.Decide.{dec_lt}
use unetic_core.Prelude.{
  ℕ, zero, suc, ◌+◌, ◌-◌, ◌*◌, ◌/◌, ◌%◌, ◌^◌, ◌≤◌, ◌<◌, ◌≡◌, ◌≢◌, ◌↔◌, ◌⊎◌, inl, inr, refl, ap,
  true, Option, some, List, [], ◌∷◌, String, split, bytes, ok, arith,
}
use unetic_core.Wan.Address.{
  parse_octet, of_octets, of_parts, parse_ipv4, is_contiguous, validate_netmask,
}

abbrev conjunction : ℕ → ℕ → ℕ → ℕ
conjunction = digits (λ b. zero) min

-- More fuel than the first number changes nothing.
conjunction_enough : (f a b : ℕ) → a ≤ f → (g : ℕ) → a ≤ g → conjunction f a b ≡ conjunction g a b
conjunction_enough zero zero b p zero q = refl
conjunction_enough zero zero b p (suc g) q = refl
conjunction_enough zero (suc a) b p g q = absurd (omega arith)
conjunction_enough (suc f) zero b p zero q = refl
conjunction_enough (suc f) zero b p (suc g) q = refl
conjunction_enough (suc f) (suc a) b p zero q = absurd (omega arith)
conjunction_enough (suc f) (suc a) b p (suc g) q =
    omega (arith, conjunction_enough f (suc a / 2) (b / 2) (omega arith) g (omega arith))

-- The lowest binary digit of a conjunction, and the rest.
bit_and-halves : (a b : ℕ) → bit_and a b ≡ 2 * bit_and (a / 2) (b / 2) + min (a % 2) (b % 2)
bit_and-halves zero b = omega (arith, bit_and-bitwise zero b, bit_and-bitwise zero (b / 2))
bit_and-halves (suc a) b =
    let half : ℕ = suc a / 2 in
    omega (
      arith,
      bit_and-bitwise (suc a) b,
      bit_and-bitwise half (b / 2),
      conjunction_enough a half (b / 2) (omega arith) half (omega arith),
    )

bit_and_self : (f x : ℕ) → x ≤ f → bit_and x x ≡ x
bit_and_self f zero h = refl
bit_and_self zero (suc x) h = absurd (omega arith)
bit_and_self (suc f) (suc x) h =
    omega (arith, bit_and-halves (suc x) (suc x), bit_and_self f (suc x / 2) (omega arith))

abbrev IsPower : ℕ → Type 0
IsPower n = (k : ℕ) × (n ≡ 2 ^ k)

double-IsPower : (n m : ℕ) → m ≡ 2 * n → IsPower n → IsPower m
double-IsPower n m e (k, p) = (suc k, omega (arith, pow-suc 2 k))

-- The halves of an odd number and its successor differ by one; those of an even one are equal.
suc_half : (n : ℕ) → (n % 2 ≡ 1) × (suc n / 2 ≡ suc (n / 2)) ⊎ (n % 2 ≡ 0) × (suc n / 2 ≡ n / 2)
suc_half n = grind arith

-- A number has no binary digit in common with its successor only if that is a power of two.
bit_and-suc : (f x : ℕ) → x ≤ f → bit_and (suc x) x ≡ 0 → IsPower (suc x)
bit_and-suc f zero h e = (0, refl)
bit_and-suc zero (suc x) h e = absurd (omega arith)
bit_and-suc (suc f) (suc x) h e =
    let half : ℕ = suc x / 2 in
    elim (suc_half (suc x)) [
      | inl (odd, next) ↦ double-IsPower (suc half) (suc (suc x)) (omega arith) (
          bit_and-suc f half (omega arith)
            (rw (← next) (omega (arith, bit_and-halves (suc (suc x)) (suc x)))))
      | inr (even, same) ↦ absurd (
          omega (
            arith,
            bit_and-halves (suc (suc x)) (suc x),
            ap (λ (t : ℕ). bit_and t half) same,
            bit_and_self half half (omega arith),
          ))
    ]

-- Conversely, below a power of two.
bit_and-pow : (k x : ℕ) → suc x ≡ 2 ^ k → bit_and (suc x) x ≡ 0
bit_and-pow zero x e = let z : x ≡ 0 = omega arith in rw z refl
bit_and-pow (suc k) x e =
    let half : ℕ = x / 2 in
    let whole : 2 ^ suc k ≡ 2 ^ k * 2 = pow-suc 2 k in
    let next : suc x / 2 ≡ suc half = omega arith in
    let shared : bit_and (suc x / 2) half ≡ 0 = rw next (bit_and-pow k half (omega arith)) in
    omega (arith, bit_and-halves (suc x) x)

exponent_lt : (k : ℕ) → 2 ^ k < 2 ^ 32 → k < 32
exponent_lt k h = elim (dec_lt k 32) [
  | yes p ↦ p
  | no p ↦
      absurd (omega (arith, pow-le-pow_right {n = 2} (omega arith) {i = 32} {j = k} (omega arith)))
]

-- The bit test passes exactly for the masks of one to 32 leading ones: those that lack a power of
-- two, 2^0 to 2^31, to 2^32.
pub is_contiguous_iff :
    (raw : ℕ)
    → raw < 2 ^ 32
    → (is_contiguous raw ≡ true) ↔ ((k : ℕ) × (k < 32) × (raw + 2 ^ k ≡ 2 ^ 32))
unfolding is_contiguous
is_contiguous_iff raw h = (
  λ passes.
      let inverted : ℕ = 2 ^ 32 - 1 - raw in
      let nonzero : raw ≢ 0 = ground arith in
      let wraps : (inverted + 1) % 2 ^ 32 ≡ suc inverted = omega arith in
      let shared : bit_and (suc inverted) inverted ≡ 0 = rw (← wraps) (ground arith) in
      let (k, p) = bit_and-suc inverted inverted (omega arith) shared in
      (k, exponent_lt k (omega arith), omega arith),
  λ (k, lt, e).
      let inverted : ℕ = 2 ^ 32 - 1 - raw in
      let pos : 1 ≤ 2 ^ k = one-le-pow k 2 (omega arith) in
      let below : 2 ^ k ≤ 2 ^ 31 =
        pow-le-pow_right {n = 2} (omega arith) {i = k} {j = 31} (omega arith) in
      let wraps : (inverted + 1) % 2 ^ 32 ≡ suc inverted = omega arith in
      let shared : bit_and (suc inverted) inverted ≡ 0 = bit_and-pow k inverted (omega arith) in
      rw (wraps, shared) (ground arith),
)

parse_octet_le : (ds : List ℕ) (n : ℕ) → parse_octet ds ≡ some n → n ≤ 255
unfolding parse_octet
parse_octet_le ds n h = ground arith

of_octets-lt :
    (a b c d : Option ℕ) (ip : ℕ)
    → ((n : ℕ) → a ≡ some n → n ≤ 255)
    → ((n : ℕ) → b ≡ some n → n ≤ 255)
    → ((n : ℕ) → c ≡ some n → n ≤ 255)
    → ((n : ℕ) → d ≡ some n → n ≤ 255)
    → of_octets a b c d ≡ some ip
    → ip < 2 ^ 32
unfolding of_octets
of_octets-lt (some a) (some b) (some c) (some d) ip p q r s h =
    ground (arith, p a refl, q b refl, r c refl, s d refl)
of_octets-lt _ _ _ _ ip p q r s h = cc

of_parts-lt : (parts : List (List ℕ)) (ip : ℕ) → of_parts parts ≡ some ip → ip < 2 ^ 32
unfolding of_parts
of_parts-lt (a ∷ b ∷ c ∷ d ∷ []) ip h =
    of_octets-lt (parse_octet a) (parse_octet b) (parse_octet c) (parse_octet d) ip
      (parse_octet_le a) (parse_octet_le b) (parse_octet_le c) (parse_octet_le d) h
of_parts-lt _ ip h = cc

-- A text that parses is a 32-bit address.
pub parse_ipv4-lt : (value : String) (ip : ℕ) → parse_ipv4 value ≡ some ip → ip < 2 ^ 32
unfolding parse_ipv4
parse_ipv4-lt value ip h = of_parts-lt (split b'.' (bytes value)) ip h

validate_netmask-eq-ok :
    (value : String) (mask : ℕ)
    → (validate_netmask value ≡ ok mask)
      ↔ ((parse_ipv4 value ≡ some mask) × (is_contiguous mask ≡ true))
unfolding validate_netmask
validate_netmask-eq-ok value mask = (ground arith, ground arith)

-- A netmask is accepted exactly if it parses as an address whose ones, at least one, all come
-- first: the address lacks one of 2^0 to 2^31 to 2^32. It is returned as it was parsed.
pub validate_netmask_iff :
    (value : String) (mask : ℕ)
    → (validate_netmask value ≡ ok mask)
      ↔ ((parse_ipv4 value ≡ some mask) × ((k : ℕ) × (k < 32) × (mask + 2 ^ k ≡ 2 ^ 32)))
validate_netmask_iff value mask = (
  λ h.
      let (parsed, passes) = (validate_netmask-eq-ok value mask).0 h in
      (parsed, (is_contiguous_iff mask (parse_ipv4-lt value mask parsed)).0 passes),
  λ (parsed, prefix).
      (validate_netmask-eq-ok value mask).1
        (parsed, (is_contiguous_iff mask (parse_ipv4-lt value mask parsed)).1 prefix),
)

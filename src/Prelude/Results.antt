-- ===== src/Prelude/Results.antt =====
-- Rust's `Result`, with `?` as the bind of a `do` block.
use mathlib.Core.Path.{◌≡◌, refl}
use mathlib.Core.Logic.{◌⊎◌, inl, inr}
use mathlib.Core.Bool.{Bool, true, false}
use mathlib.Core.Option.{Option, none, some}

pub data Result {ℓ κ} (A : Type ℓ) (E : Type κ) : Type (ℓ ⊔ κ) where
  ok : A → Result A E
  err : E → Result A E

module _ {ℓ κ ι} {A : Type ℓ} {B : Type κ} {E : Type ι} where
  infixl 5 ◌>>=◌ ◌>>◌
  -- `?`: an error ends the whole block
  abbrev pub ◌>>=◌ : Result A E → (A → Result B E) → Result B E
  err failure >>= next = err failure
  ok value >>= next = next value

  abbrev pub ◌>>◌ : Result A E → Result B E → Result B E
  first >> second = first >>= λ _. second

  -- A block that succeeds has passed its first step.
  pub >>=-ok :
      (first : Result A E) (next : A → Result B E) {result : B}
      → (first >>= next) ≡ ok result
      → (value : A) × (first ≡ ok value) × (next value ≡ ok result)
  >>=-ok (err failure) next h = cc
  >>=-ok (ok value) next h = (value, refl, h)

module _ {ℓ κ} {A : Type ℓ} {E : Type κ} where
  abbrev pub is_ok : Result A E → Bool
  is_ok (ok a) = true
  is_ok (err e) = false

  -- `.ok()`
  abbrev pub to_option : Result A E → Option A
  to_option (ok a) = some a
  to_option (err e) = none

-- `if refused { return Err(e) }`
abbrev pub fail_if {κ} : {E : Type κ} → Bool → E → Result (Unit {0}) E
fail_if true e = err e
fail_if false e = ok tt

pub Result-cases {ℓ κ} :
    {A : Type ℓ} {E : Type κ} (r : Result A E) → ((a : A) × (r ≡ ok a)) ⊎ ((e : E) × (r ≡ err e))
Result-cases (ok a) = inl (a, refl)
Result-cases (err e) = inr (e, refl)

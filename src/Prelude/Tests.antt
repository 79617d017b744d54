-- ===== src/Prelude/Tests.antt =====
-- Boolean tests and decidable equality, for the derived `PartialEq` of the source's types.
use Prim.Native.Nat.{ℕ, compare, Ordering}
use Prim.Native.String.{String}
use mathlib.Core.Path.{◌≡◌, refl}
use mathlib.Core.Logic.{◌⊎◌, inl, inr}
use mathlib.Core.Bool.{Bool, true, false}
use mathlib.Core.Option.{Option, none, some}
use mathlib.Core.List.{List}
use native.Mathlib.Omega.{arith}
use native.Mathlib.Decide.{ℕ_discrete}
use text.Mathlib.Text.{◌==◌ as str_eq}
use text.Mathlib.TextEquality.{eq_iff}

abbrev pub ltb : ℕ → ℕ → Bool
ltb a b = elim (compare a b) [ Ordering.lt ↦ true | _ ↦ false ]

abbrev pub leb : ℕ → ℕ → Bool
leb a b = elim (compare a b) [ Ordering.gt ↦ false | _ ↦ true ]

infix 1 if◌then◌else◌
abbrev pub if◌then◌else◌ {ℓ} : {A : Type ℓ} → Bool → A → A → A
if true then x else y = x
if false then x else y = y

pub Bool-cases : (b : Bool) → (b ≡ true) ⊎ (b ≡ false)
Bool-cases true = inl refl
Bool-cases false = inr refl

pub Option-cases {ℓ} : {A : Type ℓ} (o : Option A) → (o ≡ none) ⊎ ((a : A) × (o ≡ some a))
Option-cases none = inl refl
Option-cases (some a) = inr (a, refl)

-- The types whose values can be compared, as an instance argument.
pub record Eq {ℓ} (A : Type ℓ) : Type ℓ where
  pub dec_eq : Discrete A

infix 50 ◌==◌
abbrev pub ◌==◌ {ℓ} : {A : Type ℓ} ⦃e : Eq A⦄ → A → A → Bool
◌==◌ ⦃e⦄ a b = elim (e.dec_eq a b) [ yes _ ↦ true | no _ ↦ false ]

infix 50 ◌!=◌
abbrev pub ◌!=◌ {ℓ} : {A : Type ℓ} ⦃e : Eq A⦄ → A → A → Bool
◌!=◌ ⦃e⦄ a b = elim (e.dec_eq a b) [ yes _ ↦ false | no _ ↦ true ]

module _ {ℓ} {A : Type ℓ} ⦃e : Eq A⦄ where
  pub ==-eq : (a b : A) → a ≡ b → (a == b) ≡ true
  ==-eq a b p = ground arith

  pub ==-true : (a b : A) → (a == b) ≡ true → a ≡ b
  ==-true a b h = elim (e.dec_eq a b) [ yes p ↦ p | no n ↦ ground arith ]

of_test : (s t : String) (b : Bool) → str_eq s t ≡ b → Dec (s ≡ t)
of_test s t true h = yes ((eq_iff s t).0 h)
of_test s t false h = no (λ p. ground (arith, (eq_iff s t).1 p))

unfoldable pub String-discrete : Discrete String
unfolding of_test
String-discrete s t = of_test s t (str_eq s t) refl

instance abbrev pub nat_eq : Eq ℕ
nat_eq = record { dec_eq = ℕ_discrete }

instance abbrev pub string_eq : Eq String
string_eq = record { dec_eq = String-discrete }

module _ {ℓ} {A : Type ℓ} ⦃e : Eq A⦄ where
  unfoldable pub Option-discrete : Discrete (Option A)
  Option-discrete = hlevel (e.dec_eq)

  unfoldable pub List-discrete : Discrete (List A)
  List-discrete = hlevel (e.dec_eq)

  instance abbrev pub option_eq : Eq (Option A)
  option_eq = record { dec_eq = Option-discrete }

  instance abbrev pub list_eq : Eq (List A)
  list_eq = record { dec_eq = List-discrete }

unfoldable pub Bool-discrete : Discrete Bool
Bool-discrete = hlevel

instance abbrev pub bool_eq : Eq Bool
bool_eq = record { dec_eq = Bool-discrete }

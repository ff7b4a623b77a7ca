-- ===== src/Prelude/Equality.antt =====
-- Equality tests, the `===` of the source, by instances.
use Prim.Native.Nat.{ℕ}
use Prim.Native.String.{String}
use mathlib.Core.Path.{◌≡◌, refl, sym, ap, ◌∙◌}
use mathlib.Core.Logic.{◌↔◌}
use mathlib.Core.Bool.{Bool, true}
use text.Mathlib.Text.{◌==◌ as str_eq}
use text.Mathlib.TextEquality.{eq_iff}
use adgate.Prelude.Tests.{eqb, eqb_iff}

pub record EqTest {ℓ} (A : Type ℓ) : Type ℓ where
  pub test : A → A → Bool
  pub test_iff : (a b : A) → (test a b ≡ true) ↔ (a ≡ b)

infix 50 ◌==◌
abbrev pub ◌==◌ {ℓ} : {A : Type ℓ} ⦃eq : EqTest A⦄ → A → A → Bool
◌==◌ ⦃eq⦄ = eq.test

module _ {ℓ} {A : Type ℓ} ⦃e : EqTest A⦄ where
  pub eq_of_beq : (a b : A) → (a == b) ≡ true → a ≡ b
  eq_of_beq a b h = (e.test_iff a b).0 h

  pub beq_self : (a : A) → (a == a) ≡ true
  beq_self a = (e.test_iff a a).1 refl

abbrev nat_beq : ℕ → ℕ → Bool
nat_beq a b = eqb a b

instance abbrev pub nat_eq : EqTest ℕ
nat_eq = record { test = nat_beq; test_iff = eqb_iff }

instance abbrev pub string_eq : EqTest String
string_eq = record { test = str_eq; test_iff = eq_iff }

-- The equality of an enumeration, by the place of each value in its declaration.
module _ {ℓ} {A : Type ℓ} (ordinal : A → ℕ) (value : ℕ → A) where
  pub ordinal_beq_iff :
      ((a : A) → value (ordinal a) ≡ a) → (a b : A) → (eqb (ordinal a) (ordinal b) ≡ true) ↔ (a ≡ b)
  ordinal_beq_iff back a b = (
    λ h. sym (back a) ∙ ap value ((eqb_iff (ordinal a) (ordinal b)).0 h) ∙ back b,
    λ e. (eqb_iff (ordinal a) (ordinal b)).1 (ap ordinal e),
  )

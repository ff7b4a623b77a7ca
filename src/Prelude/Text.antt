-- ===== src/Prelude/Text.antt =====
-- Texts as the lists of their code points, for the code that walks through a text. On texts of
-- the basic plane these are the code units of the source.
use Prim.Native.Nat.{ℕ}
use Prim.Native.Char.{code}
use Prim.Native.String.{String}
use mathlib.Core.Path.{◌≡◌, refl, sym, ap, subst}
use mathlib.Core.Logic.{inl, inr, ◌↔◌}
use mathlib.Core.Bool.{Bool, true, false, ◌&&◌, ◌||◌}
use mathlib.Core.List.{List, [], ◌∷◌, ◌++◌}
use native.Mathlib.Omega.{arith}
use adgate.Prelude.Tests.{Bool-cases, eqb, ltb}
use adgate.Prelude.Equality.{EqTest}

abbrev pub codes : String → List ℕ
codes String.[] = []
codes (String.◌∷◌ c s) = code c ∷ codes s

abbrev pub same_codes : List ℕ → List ℕ → Bool
same_codes [] [] = true
same_codes [] (y ∷ ys) = false
same_codes (x ∷ xs) [] = false
same_codes (x ∷ xs) (y ∷ ys) = eqb x y && same_codes xs ys

pub same_codes_iff : (xs ys : List ℕ) → (same_codes xs ys ≡ true) ↔ (xs ≡ ys)
same_codes_iff [] [] = ground arith
same_codes_iff [] (y ∷ ys) = ground arith
same_codes_iff (x ∷ xs) [] = ground arith
same_codes_iff (x ∷ xs) (y ∷ ys) = ground (arith, same_codes_iff xs ys)

instance abbrev pub codes_eq : EqTest (List ℕ)
codes_eq = record { test = same_codes; test_iff = same_codes_iff }

abbrev pub starts_with : List ℕ → List ℕ → Bool
starts_with text [] = true
starts_with [] (p ∷ ps) = false
starts_with (c ∷ cs) (p ∷ ps) = eqb c p && starts_with cs ps

abbrev pub ends_with : List ℕ → List ℕ → Bool
ends_with [] suffix = same_codes [] suffix
ends_with (c ∷ cs) suffix = same_codes (c ∷ cs) suffix || ends_with cs suffix

pub starts_with_iff :
    (text prefix : List ℕ)
    → (starts_with text prefix ≡ true) ↔ ((rest : List ℕ) × (text ≡ prefix ++ rest))
starts_with_iff text [] = (λ h. (text, refl), λ h. refl)
starts_with_iff [] (p ∷ ps) = (λ h. cc, λ h. cc (h.1))
starts_with_iff (c ∷ cs) (p ∷ ps) = (
  λ h. let (rest, e) = (starts_with_iff cs ps).0 (ground arith) in (rest, ground arith),
  λ h. ground (arith, (starts_with_iff cs ps).1 (h.0, ground arith)),
)

ends_with_sound :
    (text suffix : List ℕ)
    → ends_with text suffix ≡ true
    → (front : List ℕ) × (text ≡ front ++ suffix)
ends_with_sound [] suffix h = ([], (same_codes_iff [] suffix).0 h)
ends_with_sound (c ∷ cs) suffix h = elim (Bool-cases (same_codes (c ∷ cs) suffix)) [
  | inl whole ↦ ([], (same_codes_iff (c ∷ cs) suffix).0 whole)
  | inr part ↦
      let (front, e) = ends_with_sound cs suffix (rw part at h) in (c ∷ front, ap (λ t. c ∷ t) e)
]

ends_with_complete : (front suffix : List ℕ) → ends_with (front ++ suffix) suffix ≡ true
ends_with_complete [] [] = refl
ends_with_complete [] (x ∷ xs) = let same = (same_codes_iff (x ∷ xs) (x ∷ xs)).1 refl in rw same
ends_with_complete (c ∷ front) suffix = ground (arith, ends_with_complete front suffix)

pub ends_with_iff :
    (text suffix : List ℕ)
    → (ends_with text suffix ≡ true) ↔ ((front : List ℕ) × (text ≡ front ++ suffix))
ends_with_iff text suffix = (
  ends_with_sound text suffix,
  λ h. subst (λ t. ends_with t suffix ≡ true) (sym (h.1)) (ends_with_complete (h.0) suffix),
)

-- `<` on texts.
abbrev pub lex_lt : List ℕ → List ℕ → Bool
lex_lt [] [] = false
lex_lt [] (y ∷ ys) = true
lex_lt (x ∷ xs) [] = false
lex_lt (x ∷ xs) (y ∷ ys) = ltb x y || (eqb x y && lex_lt xs ys)

pub lex_lt_trans :
    (xs ys zs : List ℕ) → lex_lt xs ys ≡ true → lex_lt ys zs ≡ true → lex_lt xs zs ≡ true
lex_lt_trans [] [] zs h k = cc
lex_lt_trans [] (y ∷ ys) [] h k = cc
lex_lt_trans [] (y ∷ ys) (z ∷ zs) h k = refl
lex_lt_trans (x ∷ xs) [] zs h k = cc
lex_lt_trans (x ∷ xs) (y ∷ ys) [] h k = cc
lex_lt_trans (x ∷ xs) (y ∷ ys) (z ∷ zs) h k = ground (arith, lex_lt_trans xs ys zs)

pub lex_lt_irrefl : (xs : List ℕ) → lex_lt xs xs ≡ false
lex_lt_irrefl [] = refl
lex_lt_irrefl (x ∷ xs) = ground (arith, lex_lt_irrefl xs)

pub lex_lt_connex : (xs ys : List ℕ) → lex_lt xs ys ≡ false → lex_lt ys xs ≡ false → xs ≡ ys
lex_lt_connex [] [] h k = refl
lex_lt_connex [] (y ∷ ys) h k = cc
lex_lt_connex (x ∷ xs) [] h k = cc
lex_lt_connex (x ∷ xs) (y ∷ ys) h k = ground (arith, lex_lt_connex xs ys)

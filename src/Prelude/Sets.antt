-- ===== src/Prelude/Sets.antt =====
-- `includes` on arrays, and `Set`, whose values are kept in the order of their insertion.
use mathlib.Core.Path.{◌≡◌, refl, sym, ap, ◌∙◌}
use mathlib.Core.Logic.{inl, inr, ◌↔◌}
use mathlib.Core.Bool.{Bool, true, false, ◌&&◌, ◌||◌}
use mathlib.Core.List.{List, [], ◌∷◌, ◌++◌}
use native.Mathlib.Omega.{arith}
use adgate.Prelude.Tests.{if◌then◌else◌, Bool-cases}
use adgate.Prelude.Lists.{filter, all, any}
use adgate.Prelude.Equality.{EqTest, ◌==◌, eq_of_beq, beq_self}

module _ {ℓ} {A : Type ℓ} ⦃e : EqTest A⦄ where
  abbrev pub includes : List A → A → Bool
  includes [] a = false
  includes (x ∷ xs) a = x == a || includes xs a

  -- `Set.add`
  abbrev pub add : List A → A → List A
  add s a = if includes s a then s else s ++ a ∷ []

  abbrev pub add_all : List A → List A → List A
  add_all s [] = s
  add_all s (x ∷ xs) = add_all (add s x) xs

  -- `[...new Set(xs)]`
  abbrev pub distinct : List A → List A
  distinct xs = add_all [] xs

  pub includes-append :
      (xs ys : List A) (a : A) → includes (xs ++ ys) a ≡ (includes xs a || includes ys a)
  includes-append [] ys a = refl
  includes-append (x ∷ xs) ys a = ground (arith, includes-append xs ys a)

  pub includes-add : (s : List A) (x a : A) → includes (add s x) a ≡ (includes s a || x == a)
  includes-add s x a = elim (Bool-cases (includes s x)) [
    | inl old ↦ elim (Bool-cases (x == a)) [
      | inl same ↦
          let found : includes s a ≡ true = ap (includes s) (sym (eq_of_beq x a same)) ∙ old in
          ground arith
      | inr other ↦ ground arith
    ]
    | inr new ↦ ground (arith, includes-append s (x ∷ []) a)
  ]

  pub includes-add_all :
      (s xs : List A) (a : A) → includes (add_all s xs) a ≡ (includes s a || includes xs a)
  includes-add_all s [] a = ground arith
  includes-add_all s (x ∷ xs) a =
      ground (arith, includes-add_all (add s x) xs a, includes-add s x a)

  pub includes-distinct : (xs : List A) (a : A) → includes (distinct xs) a ≡ includes xs a
  includes-distinct xs a = includes-add_all [] xs a

  pub includes-filter :
      (p : A → Bool) (xs : List A) (a : A) → includes (filter p xs) a ≡ (p a && includes xs a)
  includes-filter p [] a = ground arith
  includes-filter p (x ∷ xs) a = elim (Bool-cases (x == a)) [
    | inl same ↦
        let moved : p x ≡ p a = ap p (eq_of_beq x a same) in ground (arith, includes-filter p xs a)
    | inr other ↦ ground (arith, includes-filter p xs a)
  ]

  pub all-includes :
      (p : A → Bool) (xs : List A) (a : A) → all p xs ≡ true → includes xs a ≡ true → p a ≡ true
  all-includes p [] a h m = ground arith
  all-includes p (x ∷ xs) a h m = elim (Bool-cases (x == a)) [
    | inl same ↦ let moved : p x ≡ p a = ap p (eq_of_beq x a same) in ground arith
    | inr other ↦ ground (arith, all-includes p xs a)
  ]

  -- A test that some element passes, by membership.
  pub any_iff :
      (p : A → Bool) (xs : List A)
      → (any p xs ≡ true) ↔ ((a : A) × (includes xs a ≡ true) × (p a ≡ true))
  any_iff p [] = (λ h. cc, λ h. cc (h.1))
  any_iff p (x ∷ xs) =
      let ih = any_iff p xs in
      (
        λ h. elim (Bool-cases (p x)) [
          | inl found ↦ (x, ground (arith, beq_self x), found)
          | inr later ↦ let (a, m, pa) = ih.0 (ground arith) in (a, ground arith, pa)
        ],
        λ (a, m, pa). elim (Bool-cases (x == a)) [
          | inl same ↦ let moved : p x ≡ p a = ap p (eq_of_beq x a same) in ground arith
          | inr other ↦ let rest = ih.1 (a, ground arith, pa) in ground arith
        ],
      )

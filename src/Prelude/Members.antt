-- ===== src/Prelude/Members.antt =====
-- Membership of a list as a type, for lists of values that have no equality test.
use mathlib.Core.Path.{◌≡◌, refl, sym, ap, ◌∙◌, subst}
use mathlib.Core.Logic.{◌↔◌, ◌⊎◌, inl, inr}
use mathlib.Core.Bool.{Bool, true}
use mathlib.Core.List.{List, [], ◌∷◌, ◌++◌, map}
use adgate.Prelude.Tests.{Bool-cases}
use adgate.Prelude.Lists.{filter, All}

abbrev pub Among : {A : Type 0} → A → List A → Type 0
Among a [] = ⊥
Among a (x ∷ xs) = (x ≡ a) ⊎ Among a xs

pub All-Among {κ} :
    {A : Type 0} (P : A → Type κ) (xs : List A) (a : A) → All P xs → Among a xs → P a
All-Among P [] a h m = absurd m
All-Among P (x ∷ xs) a (h, hs) (inl e) = subst P e h
All-Among P (x ∷ xs) a (h, hs) (inr m) = All-Among P xs a hs m

pub Among-append :
    {A : Type 0} (a : A) (xs ys : List A) → Among a (xs ++ ys) ↔ (Among a xs ⊎ Among a ys)
Among-append a [] ys = (λ h. inr h, λ h. elim h [ inl k ↦ absurd k | inr k ↦ k ])
Among-append a (x ∷ xs) ys =
    let ih = Among-append a xs ys in
    (
      λ h. elim h [
        | inl e ↦ inl (inl e)
        | inr m ↦ elim (ih.0 m) [ inl k ↦ inl (inr k) | inr k ↦ inr k ]
      ],
      λ h. elim h [
        | inl (inl e) ↦ inl e
        | inl (inr m) ↦ inr (ih.1 (inl m))
        | inr m ↦ inr (ih.1 (inr m))
      ],
    )

-- The images under `f` of the elements that pass a test.
pub Among-selected :
    {A : Type 0} {B : Type 0} (f : A → B) (p : A → Bool) (b : B) (xs : List A)
    → Among b (map f (filter p xs)) ↔ ((a : A) × Among a xs × (p a ≡ true) × (f a ≡ b))
Among-selected f p b [] = (λ h. absurd h, λ h. absurd (h.1))
Among-selected f p b (x ∷ xs) =
    let ih = Among-selected f p b xs in
    elim (Bool-cases (p x)) [
      | inl kept ↦
          rw (kept, filter)
            (
              λ h. elim h [
                | inl e ↦ (x, inl refl, kept, e)
                | inr m ↦ let (a, k, pa, e) = ih.0 m in (a, inr k, pa, e)
              ],
              λ (a, m, pa, e). elim m [
                | inl same ↦ inl (ap f same ∙ e)
                | inr k ↦ inr (ih.1 (a, k, pa, e))
              ],
            )
      | inr dropped ↦
          rw (dropped, filter)
            (
              λ h. let (a, k, pa, e) = ih.0 h in (a, inr k, pa, e),
              λ (a, m, pa, e). elim m [
                | inl same ↦ absurd (cc (sym pa ∙ ap p (sym same) ∙ dropped))
                | inr k ↦ ih.1 (a, k, pa, e)
              ],
            )
    ]

pub Among-filter :
    {A : Type 0} (p : A → Bool) (a : A) (xs : List A)
    → Among a (filter p xs) ↔ (Among a xs × (p a ≡ true))
Among-filter p a [] = (λ h. absurd h, λ h. absurd (h.0))
Among-filter p a (x ∷ xs) =
    let ih = Among-filter p a xs in
    elim (Bool-cases (p x)) [
      | inl kept ↦
          rw (kept, filter)
            (
              λ h. elim h [
                | inl e ↦ (inl e, ap p (sym e) ∙ kept)
                | inr m ↦ let (k, pa) = ih.0 m in (inr k, pa)
              ],
              λ (m, pa). elim m [ inl e ↦ inl e | inr k ↦ inr (ih.1 (k, pa)) ],
            )
      | inr dropped ↦
          rw (dropped, filter)
            (
              λ h. let (k, pa) = ih.0 h in (inr k, pa),
              λ (m, pa). elim m [
                | inl e ↦ absurd (cc (sym pa ∙ ap p (sym e) ∙ dropped))
                | inr k ↦ ih.1 (k, pa)
              ],
            )
    ]

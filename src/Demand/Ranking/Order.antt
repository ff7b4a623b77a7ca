-- ===== src/Demand/Ranking/Order.antt =====
-- The order of the ranking, and sorted lists.
use adgate.Prelude.{
  ℕ, ◌≤◌, String, ◌≡◌, ◌↔◌, ◌⊎◌, inl, inr, true, false, Bool-cases, List, [], ◌∷◌, arith, lex_lt,
  lex_lt_trans, lex_lt_connex, lex_lt_irrefl, All, Among, ◌∙◌, if◌then◌else◌,
}
use adgate.Schema.{Candidate}
use adgate.Demand.Ranking.{
  Sign, negative, equal, positive, code_units, compare_ids, mediation_score, compare_by_revenue,
  is_positive, insert, sort,
}

-- `a` does not rank behind `b`.
abbrev pub Before {ℓ} : {A : Type ℓ} → (A → A → Sign) → A → A → Type 0
Before cmp a b = is_positive (cmp a b) ≡ false

-- `<=` on texts, by `<`.
Not-after :
    (a b : List ℕ)
    → is_positive (if lex_lt a b then negative else if lex_lt b a then positive else equal) ≡ false
    → (lex_lt a b ≡ true) ⊎ (a ≡ b)
Not-after a b h = elim (Bool-cases (lex_lt a b)) [
  | inl before ↦ inl before
  | inr other ↦ inr (lex_lt_connex a b other (ground arith))
]

lex_before :
    (a b c : List ℕ)
    → (lex_lt a b ≡ true) ⊎ (a ≡ b)
    → (lex_lt b c ≡ true) ⊎ (b ≡ c)
    → (lex_lt a c ≡ true) ⊎ (a ≡ c)
lex_before a b c (inl h) (inl k) = inl (lex_lt_trans a b c h k)
lex_before a b c (inl h) (inr e) = inl (rw (← e) h)
lex_before a b c (inr e) (inl k) = inl (rw e k)
lex_before a b c (inr e) (inr e') = inr (e ∙ e')

not_positive :
    (a b : List ℕ)
    → (lex_lt a b ≡ true) ⊎ (a ≡ b)
    → is_positive (if lex_lt a b then negative else if lex_lt b a then positive else equal) ≡ false
not_positive a b (inl h) = rw h
not_positive a b (inr e) = rw (e, lex_lt_irrefl)

compare_ids-trans :
    (a b c : String) → Before compare_ids a b → Before compare_ids b c → Before compare_ids a c
unfolding compare_ids
compare_ids-trans a b c h k =
    not_positive (code_units a) (code_units c)
      (lex_before (code_units a) (code_units b) (code_units c) (Not-after _ _ h) (Not-after _ _ k))

compare_ids-total : (a b : String) → is_positive (compare_ids a b) ≡ true → Before compare_ids b a
unfolding compare_ids
compare_ids-total a b h =
    ground (
      arith,
      lex_lt_trans (code_units a) (code_units b) (code_units a),
      lex_lt_irrefl (code_units a),
    )

-- The ranking is transitive and total.
pub compare_by_revenue-trans :
    (a b c : Candidate)
    → Before compare_by_revenue a b
    → Before compare_by_revenue b c
    → Before compare_by_revenue a c
unfolding compare_by_revenue
compare_by_revenue-trans a b c h k =
    ground (arith, compare_ids-trans a.creative.id b.creative.id c.creative.id)

pub compare_by_revenue-total :
    (a b : Candidate) → is_positive (compare_by_revenue a b) ≡ true → Before compare_by_revenue b a
unfolding compare_by_revenue
compare_by_revenue-total a b h = ground (arith, compare_ids-total a.creative.id b.creative.id)

-- A candidate that ranks before another has at least its revenue.
pub compare_by_revenue-score :
    (a b : Candidate) → Before compare_by_revenue a b → mediation_score b ≤ mediation_score a
unfolding compare_by_revenue
compare_by_revenue-score a b h = ground arith

module _ {A : Type 0} (cmp : A → A → Sign) where
  insert-Among : (y a : A) (xs : List A) → Among y (insert cmp a xs) ↔ Among y (a ∷ xs)
  unfolding insert
  insert-Among y a [] = (λ h. h, λ h. h)
  insert-Among y a (x ∷ xs) = elim (Bool-cases (is_positive (cmp a x))) [
    | inl behind ↦ let ih = insert-Among y a xs in rw behind (through ih)
    | inr before ↦ rw before (λ h. h, λ h. h)
  ]
    where
      through :
          Among y (insert cmp a xs) ↔ Among y (a ∷ xs)
          → Among y (x ∷ insert cmp a xs) ↔ Among y (a ∷ x ∷ xs)
      through ih = (to, from)
        where
          to : Among y (x ∷ insert cmp a xs) → Among y (a ∷ x ∷ xs)
          to (inl e) = inr (inl e)
          to (inr m) = elim (ih.0 m) [ inl e ↦ inl e | inr k ↦ inr (inr k) ]

          from : Among y (a ∷ x ∷ xs) → Among y (x ∷ insert cmp a xs)
          from (inl e) = inr (ih.1 (inl e))
          from (inr (inl e)) = inl e
          from (inr (inr m)) = inr (ih.1 (inr m))

  -- Sorting keeps the elements.
  pub sort-Among : (y : A) (xs : List A) → Among y (sort cmp xs) ↔ Among y xs
  unfolding sort
  sort-Among y [] = (λ h. h, λ h. h)
  sort-Among y (x ∷ xs) =
      let at = insert-Among y x (sort cmp xs) in
      let later = sort-Among y xs in
      (
        λ h. elim (at.0 h) [ inl e ↦ inl e | inr m ↦ inr (later.0 m) ],
        λ h. at.1 (elim h [ inl e ↦ inl e | inr m ↦ inr (later.1 m) ]),
      )

module _ {ℓ} {A : Type ℓ} (cmp : A → A → Sign)
    (trans : (a b c : A) → Before cmp a b → Before cmp b c → Before cmp a c)
    (total : (a b : A) → is_positive (cmp a b) ≡ true → Before cmp b a) where
  -- Each element ranks before all that follow it.
  abbrev pub Sorted : List A → Type 0
  Sorted [] = Unit {0}
  Sorted (x ∷ xs) = All (Before cmp x) xs × Sorted xs

  Before-All :
      (a x : A) (xs : List A) → Before cmp a x → All (Before cmp x) xs → All (Before cmp a) xs
  Before-All a x [] h k = tt
  Before-All a x (y ∷ ys) h (k, ks) = (trans a x y h k, Before-All a x ys h ks)

  insert-All :
      (p : A) (a : A) (xs : List A)
      → Before cmp p a
      → All (Before cmp p) xs
      → All (Before cmp p) (insert cmp a xs)
  unfolding insert
  insert-All p a [] h k = (h, tt)
  insert-All p a (x ∷ xs) h (k, ks) = elim (Bool-cases (is_positive (cmp a x))) [
    | inl behind ↦ rw behind (k, insert-All p a xs h ks)
    | inr before ↦ rw before (h, (k, ks))
  ]

  insert-Sorted : (a : A) (xs : List A) → Sorted xs → Sorted (insert cmp a xs)
  unfolding insert
  insert-Sorted a [] s = (tt, tt)
  insert-Sorted a (x ∷ xs) (first, s) = elim (Bool-cases (is_positive (cmp a x))) [
    | inl behind ↦ rw behind (insert-All x a xs (total a x behind) first, insert-Sorted a xs s)
    | inr before ↦ rw before ((before, Before-All a x xs before first), (first, s))
  ]

  pub sort-Sorted : (xs : List A) → Sorted (sort cmp xs)
  unfolding sort
  sort-Sorted [] = tt
  sort-Sorted (x ∷ xs) = insert-Sorted x (sort cmp xs) (sort-Sorted xs)

-- ===== src/Demand/Match/Direct/Laws.antt =====
-- The selection of the direct adapter against the whole catalog.
use mathlib.Core.List.{append_assoc, append-nil}
use adgate.Prelude.{
  ℕ, zero, suc, ◌≤◌, String, ◌≡◌, ◌⊎◌, inl, inr, refl, sym, ap, ◌∙◌, Bool, true, Bool-cases,
  or_else, List, [], ◌∷◌, ◌++◌, length, eqb, ◌==◌, All, arith, not, Among, All-Among,
  Among-selected, map, filter, ◌&&◌,
}
use adgate.Schema.{CatalogCreative, Candidate, DemandRequest, direct, source_eq}
use adgate.Demand.Ranking.{sort, take, rank_candidates, max_candidates, compare_by_revenue}
use adgate.Demand.Ranking.Order.{
  Before, sort-Among, Sorted, sort-Sorted, compare_by_revenue-trans, compare_by_revenue-total,
}
use adgate.Demand.Match.{match_score, normalize_keywords}
use adgate.Demand.Match.Direct.{to_candidate, direct_candidates, select_direct_candidates}

-- What the first `n` of a sorted list leave out ranks behind all of them, and they are `n`.
take-Sorted :
    (n : ℕ) (xs : List Candidate) (y : Candidate)
    → Sorted compare_by_revenue compare_by_revenue-trans compare_by_revenue-total xs
    → Among y xs
    → Among y (take n xs)
      ⊎ ((length (take n xs) ≡ n) × All (λ x. Before compare_by_revenue x y) (take n xs))
take-Sorted zero xs y s m = inr (refl, tt)
take-Sorted (suc n) [] y s m = absurd m
take-Sorted (suc n) (x ∷ xs) y s (inl e) = inl (inl e)
take-Sorted (suc n) (x ∷ xs) y (first, s) (inr m) = elim (take-Sorted n xs y s m) [
  | inl kept ↦ inl (inr kept)
  | inr (full, behind) ↦
      inr (ap suc full, (All-Among (Before compare_by_revenue x) xs y first m, behind))
]

take-Among : {A : Type 0} (n : ℕ) (xs : List A) (y : A) → Among y (take n xs) → Among y xs
take-Among zero xs y m = absurd m
take-Among (suc n) [] y m = absurd m
take-Among (suc n) (x ∷ xs) y (inl e) = inl e
take-Among (suc n) (x ∷ xs) y (inr m) = inr (take-Among n xs y m)

length-take-le : {A : Type 0} (n : ℕ) (xs : List A) → length (take n xs) ≤ n
length-take-le zero xs = omega arith
length-take-le (suc n) [] = omega arith
length-take-le (suc n) (x ∷ xs) = omega (arith, length-take-le n xs)

module _ (normalize : String → String) (req : DemandRequest) where
  abbrev request_keywords : List String
  request_keywords = normalize_keywords normalize (or_else req.keywords [])

  abbrev pub score_of : CatalogCreative → ℕ
  score_of creative = match_score normalize creative req request_keywords

  abbrev pub is_eligible : CatalogCreative → Bool
  is_eligible creative = creative.source == direct && not (eqb (score_of creative) 0)

  abbrev pub as_candidate : CatalogCreative → Candidate
  as_candidate creative = to_candidate normalize creative (score_of creative)

  direct_candidates_lem :
      (found : List Candidate) (catalog : List CatalogCreative)
      → direct_candidates normalize req request_keywords found catalog
        ≡ found ++ map as_candidate (filter is_eligible catalog)
  unfolding direct_candidates
  direct_candidates_lem found [] = sym (append-nil found)
  direct_candidates_lem found (creative ∷ catalog) = elim (Bool-cases (creative.source == direct)) [
    | inr other ↦ rw (other, direct_candidates) (direct_candidates_lem found catalog)
    | inl own ↦ elim (Bool-cases (eqb (score_of creative) 0)) [
      | inl none_of_it ↦
          rw (own, none_of_it, direct_candidates) (direct_candidates_lem found catalog)
      | inr scores ↦
          rw (own, scores, direct_candidates)
            (direct_candidates_lem (found ++ as_candidate creative ∷ []) catalog
              ∙ append_assoc found (as_candidate creative ∷ [])
                  (map as_candidate (filter is_eligible catalog)))
    ]
  ]

  -- The adapter proposes at most three candidates, each of a direct creative of the catalog that
  -- matches the request, with its score, its own URL and its own price. Where it leaves such a
  -- candidate out, it proposes three, and none of them ranks behind the one left out.
  pub select_direct_candidates_lem :
      (catalog : List CatalogCreative)
      → (let chosen = select_direct_candidates normalize catalog req in
          (length chosen ≤ max_candidates)
          × ((c : Candidate)
              → Among c chosen
              → (creative : CatalogCreative) × Among creative catalog
                × (is_eligible creative ≡ true)
                × (as_candidate creative ≡ c))
          × ((creative : CatalogCreative)
              → Among creative catalog
              → is_eligible creative ≡ true
              → Among (as_candidate creative) chosen
                ⊎ ((length chosen ≡ max_candidates)
                    × All (λ x. Before compare_by_revenue x (as_candidate creative)) chosen)))
  unfolding select_direct_candidates rank_candidates
  select_direct_candidates_lem catalog =
      let all = map as_candidate (filter is_eligible catalog) in
      let ranked = sort compare_by_revenue all in
      rw (direct_candidates_lem [] catalog) (
        length-take-le max_candidates ranked,
        λ c m.
            (Among-selected as_candidate is_eligible c catalog).0
              ((sort-Among compare_by_revenue c all).0 (take-Among max_candidates ranked c m)),
        λ creative m e.
            take-Sorted max_candidates ranked (as_candidate creative)
              (sort-Sorted compare_by_revenue compare_by_revenue-trans compare_by_revenue-total all)
              ((sort-Among compare_by_revenue (as_candidate creative) all).1 (
                (Among-selected as_candidate is_eligible (as_candidate creative) catalog).1
                  (creative, m, e, refl))),
      )

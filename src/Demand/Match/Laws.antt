-- ===== src/Demand/Match/Laws.antt =====
-- When a creative matches a turn, and the bounds of its score.
use native.Mathlib.Nat.{le-div_iff_mul-le, div-lt_iff_lt-mul, mul-le-mul_right}
use adgate.Prelude.{
  ℕ, zero, suc, ◌*◌, ◌≤◌, ◌<◌, String, Bool, true, ◌&&◌, ◌||◌, List, [], ◌∷◌, ◌++◌, ◌≡◌, ◌↔◌, refl,
  ap, arith, and-eq_true, length, any, codes, starts_with, starts_with_iff, ends_with_iff, ltb,
  length-append, length-filter-le, string_eq,
}
use adgate.Schema.{CatalogCreative, DemandRequest}
use adgate.Demand.Match.{
  wildcard_suffix, is_wildcard_target, without_last, matches_target_category, target_score,
  best_score, category_score, weighted, keyword_overlap, keyword_matches, matched_keywords,
  normalize_keywords, targeting_score, match_score, creative_serves_region, category_weight,
}

without_last-append : (p : List ℕ) → without_last (p ++ wildcard_suffix) ≡ p ++ 46 ∷ []
without_last-append [] = refl
without_last-append (c ∷ []) = refl
without_last-append (c ∷ d ∷ p) = ap (λ t. c ∷ t) (without_last-append (d ∷ p))

wildcard_lem :
    (target : String) (first : ℕ) (p : List ℕ)
    → codes target ≡ (first ∷ p) ++ wildcard_suffix
    → is_wildcard_target target ≡ true
unfolding is_wildcard_target
wildcard_lem target first p e =
    let tail = (ends_with_iff (codes target) wildcard_suffix).1 (first ∷ p, e) in
    let size = ap length e in ground (arith, length-append p wildcard_suffix)

-- A text that `prefix` begins and that is longer than it.
extends_iff :
    (text prefix : List ℕ)
    → ((ltb (length prefix) (length text) && starts_with text prefix) ≡ true)
      ↔ ((c : ℕ) × (rest : List ℕ) × (text ≡ prefix ++ c ∷ rest))
extends_iff text prefix = (to, from)
  where
    nonempty :
        (rest : List ℕ)
        → text ≡ prefix ++ rest
        → ltb (length prefix) (length text) ≡ true
        → (c : ℕ) × (more : List ℕ) × (text ≡ prefix ++ c ∷ more)
    nonempty [] e h = let size = ap length e in absurd (ground (arith, length-append prefix []))
    nonempty (c ∷ rest) e h = (c, rest, e)

    to :
        (ltb (length prefix) (length text) && starts_with text prefix) ≡ true
        → (c : ℕ) × (rest : List ℕ) × (text ≡ prefix ++ c ∷ rest)
    to h =
        let (longer, begins) = and-eq_true _ _ h in
        let (rest, e) = (starts_with_iff text prefix).0 begins in nonempty rest e longer

    from :
        ((c : ℕ) × (rest : List ℕ) × (text ≡ prefix ++ c ∷ rest))
        → (ltb (length prefix) (length text) && starts_with text prefix) ≡ true
    from (c, rest, e) =
        let size = ap length e in
        let begins = (starts_with_iff text prefix).1 (c ∷ rest, e) in
        ground (arith, length-append prefix (c ∷ rest))

-- A target `p.*` matches exactly the categories that consist of `p`, a full stop and something more.
pub matches_target_category-wildcard :
    (target category : String) (first : ℕ) (p : List ℕ)
    → codes target ≡ (first ∷ p) ++ wildcard_suffix
    → (matches_target_category target category ≡ true)
      ↔ ((c : ℕ) × (rest : List ℕ) × (codes category ≡ ((first ∷ p) ++ 46 ∷ []) ++ c ∷ rest))
unfolding matches_target_category
matches_target_category-wildcard target category first p e =
    rw (wildcard_lem target first p e, e, without_last-append (first ∷ p))
      (extends_iff (codes category) ((first ∷ p) ++ 46 ∷ []))

module _ (targets categories : List String) where
  -- Some target matches some category.
  abbrev pub matches : Bool
  matches = any (λ target. any (matches_target_category target) categories) targets

best_score_iff :
    (categories : List String) (best : ℕ) (targets : List String)
    → ltb 0 (best_score categories best targets) ≡ (ltb 0 best || matches targets categories)
unfolding best_score
best_score_iff categories best [] = ground arith
best_score_iff categories best (t ∷ targets) = ground (
  arith,
  best_score_iff categories best targets,
  best_score_iff categories (target_score t) targets,
)

best_score-le :
    (categories : List String) (best : ℕ) (targets : List String)
    → best ≤ 1000
    → best_score categories best targets ≤ 1000
unfolding best_score
best_score-le categories best [] h = h
best_score-le categories best (t ∷ targets) h = ground (
  arith,
  best_score-le categories best targets,
  best_score-le categories (target_score t) targets,
)

weighted-pos :
    (category hits total : ℕ)
    → 1 ≤ category
    → 1 ≤ weighted category (record { hits = hits; total = total })
weighted-pos category hits zero h = (le-div_iff_mul-le (omega arith)).1 (omega arith)
weighted-pos category hits (suc n) h = (le-div_iff_mul-le (omega arith)).1 (
    let scaled : 75 * suc n ≤ category_weight * category * suc n =
      mul-le-mul_right (suc n) (omega arith) in
    omega arith)

below : {n : ℕ} → n < 1001 → n ≤ 1000
below h = omega arith

weighted-le :
    (category hits total : ℕ)
    → category ≤ 1000
    → hits ≤ total
    → weighted category (record { hits = hits; total = total }) ≤ 1000
weighted-le category hits zero h k =
    below ((div-lt_iff_lt-mul {y = 1001} (omega arith)).1 (omega arith))
weighted-le category hits (suc n) h k =
    let scaled : category_weight * category * suc n ≤ 75000 * suc n =
      mul-le-mul_right (suc n) (omega arith) in
    below ((div-lt_iff_lt-mul {y = 1001} (omega arith)).1 (omega arith))

module _ (normalize : String → String) where
  keyword_overlap-le :
      (creative_keywords request_keywords : List String)
      → (keyword_overlap normalize creative_keywords request_keywords).hits
        ≤ (keyword_overlap normalize creative_keywords request_keywords).total
  unfolding keyword_overlap matched_keywords
  keyword_overlap-le creative_keywords request_keywords = ground (
    arith,
    length-filter-le
        (λ keyword. any (keyword_matches keyword) (normalize_keywords normalize request_keywords))
        (normalize_keywords normalize creative_keywords),
  )

  -- A creative scores in a request exactly if it is active, serves the user's region, and targets
  -- one of the request's categories; keywords alone never make it a candidate.
  pub match_score_iff :
      (creative : CatalogCreative) (req : DemandRequest) (request_keywords : List String)
      → (0 < match_score normalize creative req request_keywords) ↔ (
          (creative.active ≡ true)
          × (creative_serves_region creative.target_regions req.user.region ≡ true)
          × (matches creative.target_categories req.classification.categories ≡ true))
  unfolding match_score targeting_score category_score
  match_score_iff creative req request_keywords =
      let category = best_score req.classification.categories 0 creative.target_categories in
      let overlap = keyword_overlap normalize creative.keywords request_keywords in
      ground (
        arith,
        best_score_iff req.classification.categories 0 creative.target_categories,
        weighted-pos category overlap.hits overlap.total,
      )

  -- A score is at most one: a thousand thousandths.
  pub match_score-le :
      (creative : CatalogCreative) (req : DemandRequest) (request_keywords : List String)
      → match_score normalize creative req request_keywords ≤ 1000
  unfolding match_score targeting_score category_score
  match_score-le creative req request_keywords =
      let category = best_score req.classification.categories 0 creative.target_categories in
      let overlap = keyword_overlap normalize creative.keywords request_keywords in
      ground (
        arith,
        weighted-le category overlap.hits overlap.total
            (best_score-le req.classification.categories 0 creative.target_categories (omega arith))
            (keyword_overlap-le creative.keywords request_keywords),
      )

-- ===== src/Demand/Match.antt =====
-- packages/core/src/demand: keywords.ts, match.ts, regions.ts, the matching of select.ts and the
-- selection of direct.ts. Scores are in thousandths, computed exactly before they are rounded.
-- `normalize` stands for `normalizeText`, which is Unicode normalization and a table of aliases.
pub mod Laws
pub mod Direct
use adgate.Prelude.{
  ℕ, zero, suc, ◌+◌, ◌*◌, ◌/◌, String, Bool, true, false, ◌&&◌, ◌||◌, not, Option, none, some, List,
  [], ◌∷◌, ◌++◌, map, if◌then◌else◌, length, filter, any, is_empty, distinct, ◌==◌, string_eq,
  codes, codes_eq, starts_with, ends_with, ltb, leb, eqb,
}
use adgate.Schema.{
  CatalogCreative, Candidate, Classification, DemandRequest, DemandSource, direct, affiliate, koah,
  gravity, source_eq,
}
use adgate.Policy.Regions.{is_region_allowed}
use adgate.Demand.Ranking.{rank_candidates, max_candidates}

-- `.*` and `.`, by code points.
abbrev pub wildcard_suffix : List ℕ
wildcard_suffix = 46 ∷ 42 ∷ []

abbrev pub exact_category_score : ℕ
exact_category_score = 1000

abbrev pub wildcard_category_score : ℕ
wildcard_category_score = 800

-- In hundredths.
abbrev pub category_weight : ℕ
category_weight = 75

abbrev pub keyword_weight : ℕ
keyword_weight = 25

unfoldable pub is_wildcard_target : String → Bool
is_wildcard_target target =
    ltb (length wildcard_suffix) (length (codes target)) && ends_with (codes target) wildcard_suffix

-- `target.slice(0, -1)`
abbrev pub without_last : List ℕ → List ℕ
without_last [] = []
without_last (c ∷ []) = []
without_last (c ∷ d ∷ cs) = c ∷ without_last (d ∷ cs)

unfoldable pub matches_target_category : String → String → Bool
matches_target_category target category =
    if is_wildcard_target target
    then (let prefix = without_last (codes target) in
        ltb (length prefix) (length (codes category)) && starts_with (codes category) prefix)
    else target == category

abbrev pub target_score : String → ℕ
target_score target =
    if is_wildcard_target target then wildcard_category_score else exact_category_score

-- The loop over the targets, with the best score so far.
unfoldable pub best_score : List String → ℕ → List String → ℕ
best_score categories best [] = best
best_score categories best (target ∷ targets) =
    best_score categories
      (if ltb best (target_score target) && any (matches_target_category target) categories
        then target_score target
        else best)
      targets

unfoldable pub category_score : List String → List String → ℕ
category_score targets categories = best_score categories 0 targets

-- `text.includes(phrase)`
abbrev pub contains : List ℕ → List ℕ → Bool
contains [] phrase = starts_with [] phrase
contains (c ∷ cs) phrase = starts_with (c ∷ cs) phrase || contains cs phrase

abbrev pub pad_text : List ℕ → List ℕ
pad_text normalized = 32 ∷ normalized ++ 32 ∷ []

unfoldable pub contains_phrase : String → String → Bool
contains_phrase normalized phrase =
    not (phrase == "") && contains (pad_text (codes normalized)) (pad_text (codes phrase))

unfoldable pub keyword_matches : String → String → Bool
keyword_matches creative_keyword request_keyword =
    creative_keyword == request_keyword
    || contains_phrase request_keyword creative_keyword
    || contains_phrase creative_keyword request_keyword

unfoldable pub creative_serves_region : List String → Option String → Bool
creative_serves_region target_regions region =
    if is_empty target_regions
    then true
    else elim region [ none ↦ false | some r ↦ is_region_allowed r target_regions ]

-- A fraction.
pub record Ratio : Type 0 where
  pub hits : ℕ
  pub total : ℕ

-- `Math.round(value * 1000) / 1000` of the weighted sum, in thousandths; halves are rounded up.
-- Every term of the sum has the denominator 100 * total.
abbrev pub weighted : ℕ → Ratio → ℕ
weighted category overlap = elim (overlap.total) [
  | zero ↦ (2 * (category_weight * category) + 100) / 200
  | suc n ↦
      let total = suc n in
      (2 * (category_weight * category * total + keyword_weight * 1000 * overlap.hits)
        + 100 * total)
      / (200 * total)
]

pub record TargetingScore : Type 0 where
  pub category : ℕ
  pub keyword : Ratio
  pub score : ℕ

module _ (normalize : String → String) where
  unfoldable pub normalize_keywords : List String → List String
  normalize_keywords keywords =
      distinct (filter (λ keyword. not (keyword == "")) (map normalize keywords))

  unfoldable pub matched_keywords : List String → List String → List String
  matched_keywords creative_keywords request_keywords =
      let request = normalize_keywords request_keywords in
      filter (λ keyword. any (keyword_matches keyword) request)
        (normalize_keywords creative_keywords)

  unfoldable pub keyword_overlap : List String → List String → Ratio
  keyword_overlap creative_keywords request_keywords =
      let total = length (normalize_keywords creative_keywords) in
      if eqb total 0 then record { hits = 0; total = 0 } else record {
        hits = length (matched_keywords creative_keywords request_keywords);
        total = total;
      }

  unfoldable pub targeting_score : CatalogCreative → Classification → List String → TargetingScore
  targeting_score creative classification request_keywords =
      let category = category_score creative.target_categories classification.categories in
      let keyword = keyword_overlap creative.keywords request_keywords in
      record {
        category = category;
        keyword = keyword;
        score = if eqb category 0 then 0 else weighted category keyword;
      }

  unfoldable pub match_score : CatalogCreative → DemandRequest → List String → ℕ
  match_score creative req request_keywords =
      if not creative.active
      then 0
      else if not (creative_serves_region creative.target_regions req.user.region)
      then 0
      else (targeting_score creative req.classification request_keywords).score

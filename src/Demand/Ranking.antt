-- ===== src/Demand/Ranking.antt =====
-- packages/core/src/demand/select.ts, the ranking. A comparator answers how its first argument
-- stands to its second; `Array.prototype.sort` is a stable sort, here by insertion.
pub mod Order
use adgate.Prelude.{
  ℕ, zero, suc, ◌*◌, Bool, true, false, ◌&&◌, ◌||◌, not, List, [], ◌∷◌, if◌then◌else◌, ltb, leb,
  ◌+◌, ◌-◌, ◌/◌, ◌%◌, codes, lex_lt, String,
}
use adgate.Schema.{Candidate}

-- The sign of a comparator's result.
pub data Sign : Type 0 where
  negative equal positive : Sign

-- `b - a || …` on numbers: negative where `a` is the larger.
abbrev pub descending : ℕ → ℕ → Sign
descending a b = if ltb b a then negative else if ltb a b then positive else equal

abbrev pub or_else_by : Sign → Sign → Sign
or_else_by negative later = negative
or_else_by equal later = later
or_else_by positive later = positive

-- The code units of a text: a code point above 65535 is two.
abbrev units_of : List ℕ → List ℕ
units_of [] = []
units_of (c ∷ cs) =
    let rest = units_of cs in
    if leb 65536 c
    then (55296 + (c - 65536) / 1024) ∷ (56320 + (c - 65536) % 1024) ∷ rest
    else c ∷ rest

abbrev pub code_units : String → List ℕ
code_units text = units_of (codes text)

unfoldable pub compare_ids : String → String → Sign
compare_ids a b =
    if lex_lt (code_units a) (code_units b)
    then negative
    else if lex_lt (code_units b) (code_units a)
    then positive
    else equal

unfoldable pub mediation_score : Candidate → ℕ
mediation_score candidate = candidate.ecpm_estimate * candidate.targeting_match

unfoldable pub compare_by_revenue : Candidate → Candidate → Sign
compare_by_revenue a b = or_else_by (descending (mediation_score a) (mediation_score b)) (
    or_else_by (descending a.ecpm_estimate b.ecpm_estimate)
      (compare_ids a.creative.id b.creative.id))

abbrev pub is_positive : Sign → Bool
is_positive negative = false
is_positive equal = false
is_positive positive = true

module _ {ℓ} {A : Type ℓ} (cmp : A → A → Sign) where
  -- Before the first element that it does not rank behind.
  unfoldable pub insert : A → List A → List A
  insert a [] = a ∷ []
  insert a (x ∷ xs) =
      let rest = insert a xs in if is_positive (cmp a x) then x ∷ rest else a ∷ x ∷ xs

  unfoldable pub sort : List A → List A
  unfolding insert
  sort [] = []
  sort (x ∷ xs) = insert x (sort xs)

abbrev pub take {ℓ} : {A : Type ℓ} → ℕ → List A → List A
take zero xs = []
take (suc n) [] = []
take (suc n) (x ∷ xs) = x ∷ take n xs

abbrev pub max_candidates : ℕ
max_candidates = 3

unfoldable pub rank_candidates : List Candidate → ℕ → List Candidate
rank_candidates candidates max = take max (sort compare_by_revenue candidates)

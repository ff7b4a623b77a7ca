-- ===== src/Classify/Rules/Score.antt =====
-- packages/core/src/classify/rules/score.ts and data/scoring.ts. Numbers are in thousandths, and
-- sums and products are exact before they are rounded.
use adgate.Prelude.{
  ℕ, ◌+◌, ◌-◌, ◌*◌, ◌/◌, List, [], ◌∷◌, ◌++◌, Option, none, some, if◌then◌else◌, leb, length,
}
use adgate.Classify.Rules.Types.{
  SensitiveMatch, strong_hit, weak_hit, CommercialStrength, product, topic,
}

abbrev pub one : ℕ
one = 1000

abbrev pub product_hit : ℕ
product_hit = 700

abbrev pub topic_hit : ℕ
topic_hit = 200

abbrev pub informational_penalty : ℕ
informational_penalty = 150

-- In halves.
abbrev pub product_weight : ℕ
product_weight = 2

abbrev pub topic_weight : ℕ
topic_weight = 1

abbrev pub confidence_base : ℕ
confidence_base = 300

abbrev pub per_evidence : ℕ
per_evidence = 150

abbrev pub product_bonus : ℕ
product_bonus = 150

abbrev pub confidence_max : ℕ
confidence_max = 950

abbrev pub sensitive_strong : ℕ
sensitive_strong = 900

abbrev pub sensitive_corroborated : ℕ
sensitive_corroborated = 950

abbrev pub sensitive_weak : ℕ
sensitive_weak = 750

abbrev pub weak_hits_to_flag : ℕ
weak_hits_to_flag = 2

abbrev pub max_intent : ℕ
max_intent = 200

abbrev pub min : ℕ → ℕ → ℕ
min a b = if leb a b then a else b

abbrev pub max : ℕ → ℕ → ℕ
max a b = if leb a b then b else a

-- `reduce((acc, weight) => acc * (1 - clamp01(weight)), 1)`, as a numerator and a denominator.
unfoldable pub complement : ℕ × ℕ → List ℕ → ℕ × ℕ
complement acc [] = acc
complement (n, d) (weight ∷ weights) = complement (n * (one - min one weight), d * one) weights

pub record CommercialEvidence : Type 0 where
  pub intent_weights : List ℕ
  pub category_strength : Option CommercialStrength
  pub informational_hits : ℕ
  pub evidence_count : ℕ

unfoldable pub evidence_weights : CommercialEvidence → List ℕ
evidence_weights evidence = elim (evidence.category_strength) [
  | none ↦ evidence.intent_weights
  | some product ↦ evidence.intent_weights ++ product_hit ∷ []
  | some topic ↦ evidence.intent_weights ++ topic_hit ∷ []
]

-- `round3(clamp01((d - n) / d - penalty))`. Halves are rounded up.
abbrev pub round_intent : ℕ → ℕ × ℕ → ℕ
round_intent penalty (n, d) =
    let value = (d - n) * one - penalty * d in (2 * min (one * d) value + d) / (2 * d)

unfoldable pub score_intent : CommercialEvidence → ℕ
score_intent evidence =
    round_intent (evidence.informational_hits * informational_penalty)
      (complement (1, 1) (evidence_weights evidence))

abbrev pub bonus_of : Option CommercialStrength → ℕ
bonus_of none = 0
bonus_of (some product) = product_bonus
bonus_of (some topic) = 0

unfoldable pub score_confidence : CommercialEvidence → ℕ
score_confidence evidence = min one (
    min confidence_max (
      confidence_base
      + evidence.evidence_count * per_evidence
      + bonus_of evidence.category_strength))

abbrev pub match_confidence : SensitiveMatch → ℕ
match_confidence match = elim (match.strength) [
  | weak_hit ↦ sensitive_weak
  | strong_hit ↦ if leb 2 (length match.terms) then sensitive_corroborated else sensitive_strong
]

abbrev pub best_confidence : ℕ → List SensitiveMatch → ℕ
best_confidence best [] = best
best_confidence best (match ∷ matches) = best_confidence (max best (match_confidence match)) matches

unfoldable pub score_sensitive_confidence : List SensitiveMatch → ℕ
score_sensitive_confidence flagged = min one (best_confidence 0 flagged)

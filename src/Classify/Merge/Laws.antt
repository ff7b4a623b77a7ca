-- ===== src/Classify/Merge/Laws.antt =====
-- Which categories a merge names, and what becomes of the intent.
use adgate.Prelude.{
  ℕ, ◌≤◌, ◌≡◌, sym, ◌∙◌, refl, ◌↔◌, ◌⊎◌, inl, inr, Bool, true, false, ◌||◌, List, ◌++◌, arith,
  includes, includes-append, includes-filter, filter, ◌==◌, if◌then◌else◌, is_empty,
}
use adgate.Schema.{
  SensitiveCategory, health, self_harm, category_eq, sensitive_taxonomy, Score, nan, num, strict,
  balanced, SensitiveDetection,
}
use adgate.Policy.Evaluate.Rules.{Reaches, meets_threshold_iff}
use adgate.Classify.Merge.{
  MergeInput, is_strict, llm_counts, in_taxonomy_order, merge_sensitive, capped_intent,
  merge_classifications,
}
use adgate.Classify.Rules.Score.{max_intent}

includes-taxonomy : (c : SensitiveCategory) → includes sensitive_taxonomy c ≡ true
includes-taxonomy health = refl
includes-taxonomy _ = refl

in_taxonomy_order_lem :
    (values : List SensitiveCategory) (c : SensitiveCategory)
    → includes (in_taxonomy_order values) c ≡ includes values c
unfolding in_taxonomy_order
in_taxonomy_order_lem values c =
    ground (arith, includes-filter (includes values) sensitive_taxonomy c, includes-taxonomy c)

-- The LLM's word on a category counts.
abbrev pub Counts : MergeInput → SensitiveCategory → Type 0
Counts i c =
    (i.policy.sensitive_detection ≡ strict)
    ⊎ (Reaches i.llm_result.confidence i.policy.min_confidence ⊎ (c ≡ self_harm))

is_strict_iff : (d : SensitiveDetection) → (is_strict d ≡ true) ↔ (d ≡ strict)
is_strict_iff strict = (λ h. refl, λ h. refl)
is_strict_iff balanced = (λ h. cc, λ h. cc)

from_llm :
    (i : MergeInput) (c : SensitiveCategory)
    → (includes
          (if llm_counts i
            then i.llm_result.sensitive
            else filter (λ category. category == self_harm) i.llm_result.sensitive)
          c
        ≡ true)
      ↔ ((includes i.llm_result.sensitive c ≡ true) × Counts i c)
from_llm i c = ground (
  arith,
  includes-filter (λ category. category == self_harm) i.llm_result.sensitive c,
  category_eq.test_iff c self_harm,
  is_strict_iff i.policy.sensitive_detection,
  meets_threshold_iff i.llm_result.confidence i.policy.min_confidence,
)

or_iff :
    {P : Type 0} (whole left right : Bool)
    → whole ≡ (left || right)
    → (right ≡ true) ↔ P
    → (whole ≡ true) ↔ ((left ≡ true) ⊎ P)
or_iff whole true right e h = (λ k. inl refl, λ k. e)
or_iff whole false right e h =
    (λ k. inr (h.0 (sym e ∙ k)), λ k. elim k [ inl l ↦ cc | inr p ↦ e ∙ h.1 p ])

pub merge_sensitive_iff :
    (i : MergeInput) (c : SensitiveCategory)
    → (includes (merge_sensitive i) c ≡ true) ↔ (
        (includes i.rules_result.verdict.sensitive c ≡ true)
        ⊎ ((includes i.llm_result.sensitive c ≡ true) × Counts i c))
unfolding merge_sensitive
merge_sensitive_iff i c =
    let counted =
      if llm_counts i
      then i.llm_result.sensitive
      else filter (λ category. category == self_harm) i.llm_result.sensitive in
    let named = i.rules_result.verdict.sensitive in
    or_iff (includes (in_taxonomy_order (named ++ counted)) c) (includes named c)
      (includes counted c)
      (in_taxonomy_order_lem (named ++ counted) c ∙ includes-append named counted c) (from_llm i c)

-- A score that is no number, or at most the bound.
abbrev pub AtMost : Score → ℕ → Type 0
AtMost nan bound = Unit
AtMost (num n) bound = n ≤ bound

capped_intent-AtMost :
    (intent : Score) (sensitive : List SensitiveCategory)
    → (includes sensitive self_harm ≡ true → capped_intent intent sensitive ≡ num 0)
      × (is_empty sensitive ≡ false → AtMost (capped_intent intent sensitive) max_intent)
unfolding capped_intent
capped_intent-AtMost nan sensitive = ground arith
capped_intent-AtMost (num n) sensitive = ground arith

-- A merge names a category exactly if the rules flag it or the LLM names it and its word counts:
-- in strict detection, at the confidence that the policy asks for, and always on self-harm. Self-harm takes
-- the intent to zero, and any other named category to at most 0.2.
pub merge_classifications_lem :
    (i : MergeInput)
    → ((c : SensitiveCategory)
        → (includes (merge_classifications i).sensitive c ≡ true) ↔ (
            (includes i.rules_result.verdict.sensitive c ≡ true)
            ⊎ ((includes i.llm_result.sensitive c ≡ true) × Counts i c)))
      × (includes (merge_classifications i).sensitive self_harm ≡ true
          → (merge_classifications i).commercial_intent ≡ num 0)
      × (is_empty (merge_classifications i).sensitive ≡ false
          → AtMost (merge_classifications i).commercial_intent max_intent)
unfolding merge_classifications
merge_classifications_lem i =
    let capped = capped_intent-AtMost i.llm_result.commercial_intent (merge_sensitive i) in
    (merge_sensitive_iff i, capped.0, capped.1)

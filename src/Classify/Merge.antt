-- ===== src/Classify/Merge.antt =====
-- packages/core/src/classify/merge.ts: the merge of the rules stage and the LLM stage. Scores are in
-- thousandths.
pub mod Laws
use adgate.Prelude.{
  ℕ, Bool, true, false, ◌&&◌, ◌||◌, not, List, [], ◌∷◌, ◌++◌, map, if◌then◌else◌, filter, any,
  is_empty, includes, leb, ◌==◌, string_eq,
}
use adgate.Schema.{
  SensitiveCategory, self_harm, category_eq, sensitive_taxonomy, Score, nan, num, llm,
  Classification, ClassificationMethod, SensitiveDetection, strict, balanced,
}
use adgate.Policy.Evaluate.{meets_threshold}
use adgate.Classify.Rules.Types.{
  SensitiveMatch, SensitiveStrength, strong_hit, weak_hit, RulesResult,
}
use adgate.Classify.Rules.Score.{min, max, max_intent}

-- The two fields of the policy that the merge reads.
pub record ClassifyPolicy : Type 0 where
  pub sensitive_detection : SensitiveDetection
  pub min_confidence : ℕ

pub record MergeInput : Type 0 where
  pub rules_result : RulesResult
  pub llm_result : Classification
  pub policy : ClassifyPolicy

-- `Math.max` and `Math.min`
abbrev pub score_max : Score → Score → Score
score_max nan b = nan
score_max (num a) nan = nan
score_max (num a) (num b) = num (max a b)

abbrev pub score_min : Score → Score → Score
score_min nan b = nan
score_min (num a) nan = nan
score_min (num a) (num b) = num (min a b)

abbrev pub is_strong : SensitiveStrength → Bool
is_strong strong_hit = true
is_strong weak_hit = false

unfoldable pub strong_sensitive_flags : RulesResult → List SensitiveCategory
strong_sensitive_flags result =
    map (λ match. match.category)
      (filter (λ match. match.flagged && is_strong match.strength) result.matches.sensitive)

unfoldable pub rules_fired : RulesResult → Bool
rules_fired result =
    not (is_empty result.verdict.sensitive) || not (is_empty result.matches.commercial)

unfoldable pub rules_sensitive_unconfirmed : RulesResult → Classification → Bool
rules_sensitive_unconfirmed result llm_of =
    any (λ category. not (includes llm_of.sensitive category)) result.verdict.sensitive

unfoldable pub commercial_categories_disjoint : RulesResult → Classification → Bool
commercial_categories_disjoint result llm_of =
    not (is_empty result.matches.commercial)
    && not (any (λ match. includes llm_of.categories match.category) result.matches.commercial)

unfoldable pub stages_corroborate : RulesResult → Classification → Bool
stages_corroborate result llm_of =
    not (rules_sensitive_unconfirmed result llm_of)
    && not (commercial_categories_disjoint result llm_of)

unfoldable pub merged_confidence : MergeInput → Score
merged_confidence i =
    if not (rules_fired i.rules_result)
    then i.llm_result.confidence
    else if stages_corroborate i.rules_result i.llm_result
    then score_max i.rules_result.verdict.confidence i.llm_result.confidence
    else score_min i.rules_result.verdict.confidence i.llm_result.confidence

unfoldable pub in_taxonomy_order : List SensitiveCategory → List SensitiveCategory
in_taxonomy_order values = filter (includes values) sensitive_taxonomy

abbrev pub is_strict : SensitiveDetection → Bool
is_strict strict = true
is_strict balanced = false

abbrev pub llm_counts : MergeInput → Bool
llm_counts i =
    is_strict i.policy.sensitive_detection
    || meets_threshold i.llm_result.confidence i.policy.min_confidence

unfoldable pub merge_sensitive : MergeInput → List SensitiveCategory
merge_sensitive i = in_taxonomy_order (
    i.rules_result.verdict.sensitive
    ++ (if llm_counts i
        then i.llm_result.sensitive
        else filter (λ category. category == self_harm) i.llm_result.sensitive))

unfoldable pub capped_intent : Score → List SensitiveCategory → Score
capped_intent intent sensitive =
    if includes sensitive self_harm
    then num 0
    else if is_empty sensitive
    then intent
    else score_min intent (num max_intent)

unfoldable pub merge_classifications : MergeInput → Classification
merge_classifications i =
    let sensitive = merge_sensitive i in
    record {
      commercial_intent = capped_intent i.llm_result.commercial_intent sensitive;
      categories = i.llm_result.categories;
      sensitive = sensitive;
      confidence = merged_confidence i;
      method = llm;
      prompt_version = i.llm_result.prompt_version;
    }

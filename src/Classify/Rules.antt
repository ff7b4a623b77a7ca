-- ===== src/Classify/Rules.antt =====
-- packages/core/src/classify/rules/classify.ts: the rules stage. `normalize` stands for
-- `normalizeText`, which is Unicode normalization and a table of aliases, and `rules_version` for
-- the hash of the keyword data.
pub mod Types
pub mod Match
pub mod Score
use adgate.Prelude.{
  ℕ, ◌+◌, ◌*◌, String, Bool, true, false, ◌&&◌, ◌||◌, not, Option, none, some, List, [], ◌∷◌, ◌++◌,
  map, if◌then◌else◌, filter, any, is_empty, length, includes, codes, leb,
}
use adgate.Schema.{
  SensitiveCategory, self_harm, category_eq, num, rules, Classification, ClassificationMethod,
}
use adgate.Demand.Exclusions.{trim_start, trim_end}
use adgate.Demand.Ranking.{sort, descending}
use adgate.Demand.Match.{pad_text}
use adgate.Classify.Rules.Types.{
  Registry, CompiledSensitiveRules, CompiledCommercialRules, CompiledIntentPhrase,
  CompiledIntentPattern, SensitiveMatch, SensitiveStrength, strong_hit, weak_hit,
  CommercialStrength, product, topic, CommercialMatch, RulesResult,
}
use adgate.Classify.Rules.Match.{has_phrase, find_phrases, find_patterns, mask_phrases}
use adgate.Classify.Rules.Score.{
  CommercialEvidence, score_intent, score_confidence, score_sensitive_confidence, min, max_intent,
  weak_hits_to_flag, product_weight, topic_weight,
}

abbrev pub trim : List ℕ → List ℕ
trim text = trim_end (trim_start text)

-- The hits of one category, or nothing.
abbrev pub sensitive_match : SensitiveCategory → List String → List String → Option SensitiveMatch
sensitive_match category strong weak =
    if is_empty strong && is_empty weak
    then none
    else some (record {
      category = category;
      strength = if is_empty strong then weak_hit else strong_hit;
      terms = strong ++ weak;
      flagged = not (is_empty strong) || leb weak_hits_to_flag (length weak);
    })

abbrev pub push {ℓ} : {A : Type ℓ} → Option A → List A → List A
push none xs = xs
push (some x) xs = x ∷ xs

unfoldable pub match_sensitive : List ℕ → List CompiledSensitiveRules → List SensitiveMatch
match_sensitive padded [] = []
match_sensitive padded (rules_of ∷ registry) =
    let text = mask_phrases padded rules_of.exclusions in
    push
      (sensitive_match rules_of.category
        (find_phrases text rules_of.strong ++ find_patterns (trim text) rules_of.patterns)
        (find_phrases text rules_of.weak))
      (match_sensitive padded registry)

abbrev pub commercial_match : String → List String → List String → Option CommercialMatch
commercial_match category products topics =
    if is_empty products && is_empty topics
    then none
    else some (record {
      category = category;
      strength = if is_empty products then topic else product;
      score = length products * product_weight + length topics * topic_weight;
      terms = products ++ topics;
    })

unfoldable pub commercial_matches :
    List ℕ → List ℕ → List CompiledCommercialRules → List CommercialMatch
commercial_matches normalized padded [] = []
commercial_matches normalized padded (rules_of ∷ registry) =
    push
      (commercial_match rules_of.category
        (find_phrases padded rules_of.products ++ find_patterns normalized rules_of.patterns)
        (find_phrases padded rules_of.topics))
      (commercial_matches normalized padded registry)

unfoldable pub match_commercial :
    List ℕ → List ℕ → List CompiledCommercialRules → List CommercialMatch
match_commercial normalized padded registry =
    sort (λ a b. descending a.score b.score) (commercial_matches normalized padded registry)

pub record IntentHits : Type 0 where
  pub terms : List String
  pub weights : List ℕ

unfoldable pub match_intent : List ℕ → List ℕ → Registry → IntentHits
match_intent normalized padded registry =
    let phrases = filter (λ p. has_phrase padded p.phrase) registry.intent_phrases in
    let patterns = filter (λ p. p.regex normalized) registry.intent_patterns in
    record {
      terms = map (λ p. p.phrase) phrases ++ map (λ p. p.source) patterns;
      weights = map (λ p. p.weight) phrases ++ map (λ p. p.weight) patterns;
    }

abbrev pub is_product : CommercialStrength → Bool
is_product product = true
is_product topic = false

unfoldable pub strongest_commercial : List CommercialMatch → Option CommercialStrength
strongest_commercial matches =
    if any (λ match. is_product match.strength) matches
    then some product
    else if is_empty matches
    then none
    else some topic

abbrev pub count_terms : List CommercialMatch → ℕ
count_terms [] = 0
count_terms (match ∷ matches) = length match.terms + count_terms matches

-- The intent and the confidence, with what the flagged categories make of them.
abbrev pub capped_intent : ℕ → List SensitiveCategory → ℕ
capped_intent intent sensitive =
    if is_empty sensitive
    then intent
    else if includes sensitive self_harm
    then 0
    else min intent max_intent

abbrev pub rules_confidence : CommercialEvidence → List SensitiveMatch → ℕ
rules_confidence evidence flagged =
    if is_empty flagged then score_confidence evidence else score_sensitive_confidence flagged

abbrev pub or_general : List String → List String
or_general categories = if is_empty categories then "general" ∷ [] else categories

module _ (normalize : List ℕ → String) (rules_version : String) (registry : Registry) where
  unfoldable pub classify_by_rules : List ℕ → RulesResult
  classify_by_rules text =
      let normalized = codes (normalize text) in
      let padded = pad_text normalized in
      let sensitive = match_sensitive padded registry.sensitive in
      let commercial = match_commercial normalized padded registry.commercial in
      let intent = match_intent normalized padded registry in
      let informational = find_phrases padded registry.informational in
      let evidence : CommercialEvidence = record {
        intent_weights = intent.weights;
        category_strength = strongest_commercial commercial;
        informational_hits = length informational;
        evidence_count = length intent.terms + count_terms commercial + length informational;
      } in
      let flagged = filter (λ match. match.flagged) sensitive in
      let categories = map (λ match. match.category) flagged in
      record {
        verdict = record {
          commercial_intent = num (capped_intent (score_intent evidence) categories);
          categories = or_general (map (λ match. match.category) commercial);
          sensitive = categories;
          confidence = num (rules_confidence evidence flagged);
          method = rules;
          prompt_version = rules_version;
        };
        matches = record {
          sensitive = sensitive;
          commercial = commercial;
          intent = intent.terms;
          informational = informational;
        };
      }

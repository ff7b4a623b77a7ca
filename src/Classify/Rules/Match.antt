-- ===== src/Classify/Rules/Match.antt =====
-- packages/core/src/classify/rules/match.ts and registry.ts: phrases and patterns, compiled and
-- looked for in a normalized text. A text is the list of its code points.
use adgate.Prelude.{
  ℕ, zero, suc, String, Bool, not, List, [], ◌∷◌, map, if◌then◌else◌, length, filter, distinct,
  or_else, codes, starts_with, ◌==◌, string_eq,
}
use adgate.Schema.{sensitive_taxonomy, categories_taxonomy}
use adgate.Demand.Match.{contains, pad_text}
use adgate.Classify.Rules.Types.{
  CompiledPattern, IntentWeight, strong, medium, weak, RulesData, CompiledSensitiveRules,
  CompiledCommercialRules, Registry,
}

-- The phrase occurs as whole tokens in the padded text.
abbrev pub has_phrase : List ℕ → String → Bool
has_phrase padded phrase = contains padded (pad_text (codes phrase))

unfoldable pub find_phrases : List ℕ → List String → List String
find_phrases padded phrases = filter (has_phrase padded) phrases

unfoldable pub find_patterns : List ℕ → List CompiledPattern → List String
find_patterns normalized patterns =
    map (λ pattern. pattern.source) (filter (λ pattern. pattern.regex normalized) patterns)

abbrev pub drop {ℓ} : {A : Type ℓ} → ℕ → List A → List A
drop zero xs = xs
drop (suc n) [] = []
drop (suc n) (x ∷ xs) = drop n xs

-- The search for a needle from the start of the text. A find leaves two spaces and goes on from
-- the second one, so each round of the search moves by one character: the length is fuel enough.
unfoldable pub mask_from : ℕ → List ℕ → List ℕ → List ℕ
mask_from zero needle text = text
mask_from (suc n) needle [] = []
mask_from (suc n) needle (c ∷ cs) =
    let found = mask_from n needle (32 ∷ drop (length needle) (c ∷ cs)) in
    let rest = mask_from n needle cs in if starts_with (c ∷ cs) needle then 32 ∷ found else c ∷ rest

unfoldable pub mask_phrases : List ℕ → List String → List ℕ
mask_phrases padded [] = padded
mask_phrases padded (phrase ∷ phrases) =
    mask_phrases (mask_from (length padded) (pad_text (codes phrase)) padded) phrases

unfoldable pub compile_patterns : (String → List ℕ → Bool) → List String → List CompiledPattern
compile_patterns compile sources =
    map (λ source. record { source = source; regex = compile source }) sources

unfoldable pub phrases_of : (String → String) → List String → List String
phrases_of normalize list = distinct (filter (λ phrase. not (phrase == "")) (map normalize list))

unfoldable pub weight_of : IntentWeight → ℕ
weight_of strong = 450
weight_of medium = 300
weight_of weak = 150

unfoldable pub commercial_categories : List String
commercial_categories = filter (λ category. not (category == "general")) categories_taxonomy

module _ (normalize : String → String) (compile : String → List ℕ → Bool)
    (data_of : RulesData) where
  unfoldable pub sensitive_registry : List CompiledSensitiveRules
  sensitive_registry =
      map
        (λ category.
          let rules = data_of.sensitive category in
          record {
            category = category;
            strong = phrases_of normalize rules.strong;
            weak = phrases_of normalize rules.weak;
            patterns = compile_patterns compile rules.patterns;
            exclusions = phrases_of normalize (or_else rules.exclusions []);
          })
        sensitive_taxonomy

  unfoldable pub commercial_registry : List CompiledCommercialRules
  commercial_registry =
      map
        (λ category.
          let rules = data_of.commercial category in
          record {
            category = category;
            products = phrases_of normalize rules.products;
            topics = phrases_of normalize rules.topics;
            patterns = compile_patterns compile rules.patterns;
          })
        commercial_categories

  unfoldable pub registry_of : Registry
  registry_of = record {
    sensitive = sensitive_registry;
    commercial = commercial_registry;
    intent_phrases =
        map (λ p. record { phrase = normalize p.phrase; weight = weight_of p.weight })
          data_of.intent_phrases;
    intent_patterns =
        map
          (λ p. record { source = p.source; regex = compile p.source; weight = weight_of p.weight })
          data_of.intent_patterns;
    informational = phrases_of normalize data_of.informational;
  }

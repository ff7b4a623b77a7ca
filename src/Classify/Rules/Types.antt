-- ===== src/Classify/Rules/Types.antt =====
-- packages/core/src/classify/rules/types.ts and the types of registry.ts and match.ts. Weights are
-- in thousandths. A regular expression is the test that it makes of a text.
use adgate.Prelude.{ℕ, String, Bool, Option, List}
use adgate.Schema.{SensitiveCategory, Classification}

pub record CompiledPattern : Type 0 where
  pub source : String
  pub regex : List ℕ → Bool

pub record SensitiveRuleSet : Type 0 where
  pub strong : List String
  pub weak : List String
  pub patterns : List String
  pub exclusions : Option (List String)

pub record CommercialRuleSet : Type 0 where
  pub products : List String
  pub topics : List String
  pub patterns : List String

pub data IntentWeight : Type 0 where
  strong medium weak : IntentWeight

pub record IntentPhrase : Type 0 where
  pub phrase : String
  pub weight : IntentWeight

pub record IntentPattern : Type 0 where
  pub source : String
  pub weight : IntentWeight

-- The keyword data, without the scoring constants.
pub record RulesData : Type 0 where
  pub sensitive : SensitiveCategory → SensitiveRuleSet
  pub commercial : String → CommercialRuleSet
  pub intent_phrases : List IntentPhrase
  pub intent_patterns : List IntentPattern
  pub informational : List String

pub record CompiledSensitiveRules : Type 0 where
  pub category : SensitiveCategory
  pub strong : List String
  pub weak : List String
  pub patterns : List CompiledPattern
  pub exclusions : List String

pub record CompiledCommercialRules : Type 0 where
  pub category : String
  pub products : List String
  pub topics : List String
  pub patterns : List CompiledPattern

pub record CompiledIntentPhrase : Type 0 where
  pub phrase : String
  pub weight : ℕ

pub record CompiledIntentPattern : Type 0 where
  pub source : String
  pub regex : List ℕ → Bool
  pub weight : ℕ

pub record Registry : Type 0 where
  pub sensitive : List CompiledSensitiveRules
  pub commercial : List CompiledCommercialRules
  pub intent_phrases : List CompiledIntentPhrase
  pub intent_patterns : List CompiledIntentPattern
  pub informational : List String

pub data SensitiveStrength : Type 0 where
  strong_hit weak_hit : SensitiveStrength

pub record SensitiveMatch : Type 0 where
  pub category : SensitiveCategory
  pub strength : SensitiveStrength
  pub terms : List String
  pub flagged : Bool

pub data CommercialStrength : Type 0 where
  product topic : CommercialStrength

pub record CommercialMatch : Type 0 where
  pub category : String
  pub strength : CommercialStrength
  pub score : ℕ
  pub terms : List String

pub record RulesMatches : Type 0 where
  pub sensitive : List SensitiveMatch
  pub commercial : List CommercialMatch
  pub intent : List String
  pub informational : List String

-- A classification and the matches behind it.
pub record RulesResult : Type 0 where
  pub verdict : Classification
  pub matches : RulesMatches

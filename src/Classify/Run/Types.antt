-- ===== src/Classify/Run/Types.antt =====
-- packages/core/src/classify: types.ts and llm/types.ts, with the small helpers of classify.ts.
use adgate.Prelude.{ℕ, String, Bool, not, Option, List, [], ◌∷◌, ◌++◌, filter, codes, any, eqb}
use adgate.Schema.{Classification, rules, num}
use adgate.Demand.Match.{normalize_keywords}
use adgate.Classify.Rules.Types.{RulesMatches, CommercialMatch, RulesResult, Registry}
use adgate.Classify.Merge.{ClassifyPolicy}
use adgate.Classify.Prepare.{PrepareTextInput}

-- What a call comes to that may throw; a thrown value is its name.
pub data Attempt {ℓ} (A : Type ℓ) : Type ℓ where
  done : A → Attempt A
  threw : String → Attempt A

pub data LlmFailureReason : Type 0 where
  timeout parse invalid http network aborted : LlmFailureReason

pub data LlmClassifyResult : Type 0 where
  success : Classification → LlmClassifyResult
  failure : LlmFailureReason → LlmClassifyResult

-- The first thing that happens while the code waits for the LLM.
pub data LlmEvent : Type 0 where
  settled : LlmClassifyResult → LlmEvent
  rejected : String → LlmEvent
  expired : LlmEvent

-- `withDeadline`
unfoldable pub with_deadline : LlmEvent → Attempt LlmClassifyResult
with_deadline (settled result) = done result
with_deadline (rejected name) = threw name
with_deadline expired = done (failure timeout)

pub data ClassifySource : Type 0 where
  cache rules_short_circuit merged rules_fallback : ClassifySource

pub data ClassifyLlmFailure : Type 0 where
  reason : LlmFailureReason → ClassifyLlmFailure
  thrown unavailable empty_input : ClassifyLlmFailure

pub record ClassifyOutcome : Type 0 where
  pub classification : Classification
  pub source : ClassifySource
  pub llm_failure : Option ClassifyLlmFailure
  pub error_name : Option String
  pub keywords : List String
  pub cache_key : String
  pub latency_ms : ℕ

-- The interface of a cache whose states are of the type `S`. Each operation leaves a state, whether it
-- throws or not; `set` says the name of what it throws, if anything.
pub record ClassifyCache {ℓ} (S : Type ℓ) : Type ℓ where
  pub get : S → String → S × Attempt (Option Classification)
  pub set : S → String → Classification → S × Option String

-- The readings of the clock, in order: at the start, at the end, and at the end of the catch path
-- where the clock threw at the end.
pub record Clock : Type 0 where
  pub started : Attempt ℕ
  pub finished : Attempt ℕ
  pub again : Attempt ℕ

pub record ClassifyDeps {ℓ} (S : Type ℓ) : Type ℓ where
  pub llm : Option LlmEvent
  pub operations : Option (ClassifyCache S)
  pub policy : ClassifyPolicy
  pub clock : Clock

-- The parts of the classifier that are hashes, tables and Unicode. The three steps before the lookup may
-- throw, as they do on values outside their types: `prepare_error` and `rules_error` say the name of
-- what the preparation of an input and the rules on a text throw, if anything.
pub record Classifier : Type 0 where
  pub normalize : List ℕ → String
  pub rules_version : String
  pub registry : Registry
  pub cache_key : String → ClassifyPolicy → Attempt String
  pub prepare_error : PrepareTextInput → Option String
  pub rules_error : List ℕ → Option String

abbrev pub fail_closed_classification : String → Classification
fail_closed_classification rules_version = record {
  commercial_intent = num 0;
  categories = "general" ∷ [];
  sensitive = [];
  confidence = num 0;
  method = rules;
  prompt_version = rules_version;
}

unfoldable pub rules_classification : RulesResult → Classification
rules_classification result = record {
  commercial_intent = result.verdict.commercial_intent;
  categories = result.verdict.categories;
  sensitive = result.verdict.sensitive;
  confidence = result.verdict.confidence;
  method = rules;
  prompt_version = result.verdict.prompt_version;
}

-- One of `\ ^ $ ( ) [ ] | ? * + { }`.
abbrev is_syntax : ℕ → Bool
is_syntax c = any (eqb c) (92 ∷ 94 ∷ 36 ∷ 40 ∷ 41 ∷ 91 ∷ 93 ∷ 124 ∷ 63 ∷ 42 ∷ 43 ∷ 123 ∷ 125 ∷ [])

unfoldable pub is_pattern_source : String → Bool
is_pattern_source term = any is_syntax (codes term)

abbrev terms_of : List CommercialMatch → List String
terms_of [] = []
terms_of (match ∷ matches) = match.terms ++ terms_of matches

unfoldable pub keywords_from_rules_matches : (String → String) → RulesMatches → List String
keywords_from_rules_matches normalize matches =
    normalize_keywords normalize
      (filter (λ term. not (is_pattern_source term)) (terms_of matches.commercial))

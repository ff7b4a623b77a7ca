-- ===== src/Classify/Run.antt =====
-- packages/core/src/classify/classify.ts: the two stages, the cache between them and what is
-- answered when something fails. The cache, the LLM and the clock belong to the caller: the cache is
-- a record of operations on a state, the LLM is the first event that happens while the code waits
-- for it, and the clock is its next readings. Each of them may throw.
pub mod Types
pub mod Paths
pub mod Laws
pub mod Safe
use adgate.Prelude.{
  ℕ, zero, ◌+◌, ◌-◌, String, Bool, true, false, not, Option, none, some, List, [], ◌∷◌, ◌++◌, map,
  if◌then◌else◌, filter, is_empty, codes, any, leb, eqb,
}
use adgate.Schema.{Classification, ClassificationMethod, rules, cached, num, SensitiveCategory}
use adgate.Demand.Exclusions.{trim_start, trim_end}
use adgate.Classify.Rules.Types.{RulesResult}
use adgate.Classify.Rules.{classify_by_rules}
use adgate.Classify.Cache.{LruCache, get, set}
use adgate.Classify.Merge.{
  ClassifyPolicy, MergeInput, strong_sensitive_flags, merge_classifications,
}
use adgate.Classify.Prepare.{PrepareTextInput, PreparedText, prepare_text, default_prepare_options}
use adgate.Classify.Run.Types.{
  Attempt, done, threw, timeout, LlmClassifyResult, success, failure, LlmEvent, settled, rejected,
  expired, with_deadline, ClassifySource, cache, rules_short_circuit, merged, rules_fallback,
  ClassifyLlmFailure, reason, thrown, unavailable, empty_input, ClassifyOutcome, ClassifyCache,
  Clock, ClassifyDeps, Classifier, fail_closed_classification, rules_classification,
  keywords_from_rules_matches,
}

-- What is known once the rules have run.
pub record Run : Type 0 where
  pub prepared : PreparedText
  pub cache_key : String
  pub result : RulesResult

-- How the steps before the lookup end: with all three done, or by a throw, with the text if it was
-- prepared by then and the key, which is empty until it is known.
pub data Begun : Type 0 where
  ready : Run → Begun
  stopped : Option PreparedText → String → String → Begun

module _ (with : Classifier) where
  abbrev pub rules_of : PreparedText → RulesResult
  rules_of prepared =
      classify_by_rules with.normalize with.rules_version with.registry prepared.rules_text

  abbrev pub after_rules : PreparedText → String → Option String → Begun
  after_rules prepared key (some name) = stopped (some prepared) key name
  after_rules prepared key none =
      ready (record { prepared = prepared; cache_key = key; result = rules_of prepared })

  abbrev pub after_key : PreparedText → Attempt String → Begun
  after_key prepared (threw name) = stopped (some prepared) "" name
  after_key prepared (done key) = after_rules prepared key (with.rules_error prepared.rules_text)

  abbrev pub after_prepare : PreparedText → ClassifyPolicy → Option String → Begun
  after_prepare prepared policy (some name) = stopped none "" name
  after_prepare prepared policy none =
      after_key prepared (with.cache_key (with.normalize prepared.text) policy)

  unfoldable pub begin : PrepareTextInput → ClassifyPolicy → Begun
  begin input policy =
      after_prepare (prepare_text input default_prepare_options) policy (with.prepare_error input)

  abbrev pub rules_again : PreparedText → Option String → Classification
  rules_again prepared (some name) = fail_closed_classification with.rules_version
  rules_again prepared none = rules_classification (rules_of prepared)

  -- `recoverRules` where the rules have not run.
  unfoldable pub recover_rules : Option PreparedText → Classification
  recover_rules none = fail_closed_classification with.rules_version
  recover_rules (some prepared) = rules_again prepared (with.rules_error prepared.rules_text)

unfoldable pub keywords_of : Classifier → RulesResult → List String
keywords_of with result =
    keywords_from_rules_matches (λ text. with.normalize (codes text)) result.matches

-- How the `try` block ends: with a classification, or by a throw.
pub data Ending : Type 0 where
  ends : Classification → ClassifySource → Option ClassifyLlmFailure → Ending
  raises : String → Ending

module _ {ℓ} {S : Type ℓ} where
  abbrev pub cache_get : Option (ClassifyCache S) → S → String → S × Attempt (Option Classification)
  cache_get none s key = (s, done none)
  cache_get (some operations) s key = operations.get s key

  abbrev pub cache_set : Option (ClassifyCache S) → S → String → Classification → S × Option String
  cache_set none s key value = (s, none)
  cache_set (some operations) s key value = operations.set s key value

  -- Ends with the classification once it is stored.
  abbrev pub stored : S × Option String → Classification → ClassifySource → S × Ending
  stored (after, none) classification source = (after, ends classification source none)
  stored (after, some name) classification source = (after, raises name)

  unfoldable pub with_llm : ClassifyDeps S → Run → S → Attempt LlmClassifyResult → S × Ending
  with_llm deps run s (threw name) = (s, raises name)
  with_llm deps run s (done (failure r)) =
      (s, ends (rules_classification run.result) rules_fallback (some (reason r)))
  with_llm deps run s (done (success classification)) =
      let merged_of =
        merge_classifications (record {
          rules_result = run.result;
          llm_result = classification;
          policy = deps.policy;
        }) in
      stored (cache_set deps.operations s run.cache_key merged_of) merged_of merged

  unfoldable pub ask_llm : ClassifyDeps S → Run → S → Option LlmEvent → S × Ending
  ask_llm deps run s none =
      (s, ends (rules_classification run.result) rules_fallback (some unavailable))
  ask_llm deps run s (some event) = with_llm deps run s (with_deadline event)

  -- The steps after a miss.
  unfoldable pub after_miss : ClassifyDeps S → Run → S → S × Ending
  after_miss deps run s =
      let verdict = rules_classification run.result in
      if not (is_empty (strong_sensitive_flags run.result))
      then stored (cache_set deps.operations s run.cache_key verdict) verdict rules_short_circuit
      else if is_empty (trim_end (trim_start run.prepared.rules_text))
      then (s, ends verdict rules_fallback (some empty_input))
      else ask_llm deps run s deps.llm

  abbrev pub after_get : ClassifyDeps S → Run → S × Attempt (Option Classification) → S × Ending
  after_get deps run (after, threw name) = (after, raises name)
  after_get deps run (after, done (some hit)) =
      (after, ends (record hit { method = cached }) cache none)
  after_get deps run (after, done none) = after_miss deps run after

  unfoldable pub classify_body : ClassifyDeps S → Run → S → S × Ending
  classify_body deps run s = after_get deps run (cache_get deps.operations s run.cache_key)

-- `createLruCache`'s cache as a classifier's, at one time: neither operation throws.
abbrev pub lru_operations : ℕ → ClassifyCache LruCache
lru_operations now = record {
  get = λ lru key. let (after, hit) = get lru key now in (after, done hit);
  set = λ lru key value. (set lru key value none now, none);
}

module _ (with : Classifier) where
  -- The last resort of `classify`.
  unfoldable pub last_resort : String → ClassifyOutcome
  last_resort name = record {
    classification = fail_closed_classification with.rules_version;
    source = rules_fallback;
    llm_failure = some thrown;
    error_name = some name;
    keywords = [];
    cache_key = "";
    latency_ms = 0;
  }

  -- What `finish` says: the keywords and the key are those known by then.
  abbrev pub outcome_of :
      List String × String
      → Classification
      → ClassifySource
      → Option ClassifyLlmFailure
      → Option String
      → ℕ
      → ClassifyOutcome
  outcome_of (keywords, key) classification source llm_failure error_name latency_ms = record {
    classification = classification;
    source = source;
    llm_failure = llm_failure;
    error_name = error_name;
    keywords = keywords;
    cache_key = key;
    latency_ms = latency_ms;
  }

  -- The `catch` path, with the recovered classification.
  unfoldable pub recovered :
      List String × String → Classification → ℕ → String → Attempt ℕ → ClassifyOutcome
  recovered known classification started name (done now) =
      outcome_of known classification rules_fallback (some thrown) (some name) (now - started)
  recovered known classification started name (threw later) = last_resort later

  abbrev pub known_of : Run → List String × String
  known_of run = (keywords_of with run.result, run.cache_key)

  unfoldable pub finish : Run → ℕ → Clock → Ending → Attempt ℕ → ClassifyOutcome
  finish run started clock (raises name) reading =
      recovered (known_of run) (rules_classification run.result) started name reading
  finish run started clock (ends classification source failure_of) (done now) =
      outcome_of (known_of run) classification source failure_of none (now - started)
  finish run started clock (ends classification source failure_of) (threw name) =
      recovered (known_of run) (rules_classification run.result) started name clock.again

  module _ {ℓ} {S : Type ℓ} where
    abbrev pub classify_begun : ClassifyDeps S → ℕ → S → Begun → S × ClassifyOutcome
    classify_begun deps started s (stopped prepared key name) =
        (s, recovered ([], key) (recover_rules with prepared) started name deps.clock.finished)
    classify_begun deps started s (ready run) =
        let (after, ending) = classify_body deps run s in
        (after, finish run started deps.clock ending deps.clock.finished)

    abbrev pub classify_from : ClassifyDeps S → Begun → S → Attempt ℕ → S × ClassifyOutcome
    classify_from deps begun s (threw name) = (s, last_resort name)
    classify_from deps begun s (done started) = classify_begun deps started s begun

    unfoldable pub classify : PrepareTextInput → ClassifyDeps S → S → S × ClassifyOutcome
    classify input deps s = classify_from deps (begin with input deps.policy) s deps.clock.started

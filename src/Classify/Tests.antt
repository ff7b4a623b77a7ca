-- ===== src/Classify/Tests.antt =====
-- The classifier's theorems at small caches, conversations and turns.
use Prim.Native.String.{String}
use adgate.Prelude.{
  ℕ, ◌≤◌, ◌≡◌, ◌≢◌, refl, sym, ◌∙◌, codes_eq, ◌↔◌, ◌⊎◌, inl, true, false, Option, none, some, List,
  [], ◌∷◌, codes, arith, includes, is_empty, length, ◌==◌, string_eq, if◌then◌else◌,
}
use adgate.Schema.{
  self_harm, gambling, category_eq, num, llm, Classification, SensitiveCategory, balanced,
}
use adgate.Policy.Evaluate.{evaluate_policy, meets_threshold}
use adgate.Classify.Cache.{
  pos, LruCache, Entry, created, create_lru_cache, get, set, size, at, is_expired,
}
use adgate.Classify.Cache.History.{Operation, get_call, set_call, run, remembered, step, run-get}
use adgate.Classify.Cache.Recent.{set-get}
use adgate.Classify.Rules.Types.{Registry, RulesResult}
use adgate.Classify.Merge.{MergeInput, ClassifyPolicy, merge_classifications}
use adgate.Classify.Merge.Laws.{Counts, AtMost, merge_classifications_lem}
use adgate.Classify.Prepare.{
  system, user, Message, PrepareTextInput, PrepareTextOptions, prepare_text, message_line,
}
use adgate.Classify.Prepare.Laws.{read_lines, prepare_text_lem}
use adgate.Classify.Output.{
  Value, object, number, texts, LlmOutput, safe_parse, clamp_numbers, strip_fence, parsed,
  to_llm_classification, parse_llm_content,
}
use adgate.Classify.Output.Laws.{AcceptedMeets, parse_llm_content-parsed_iff}
use adgate.Classify.Run.Types.{
  done, threw, Classifier, ClassifyDeps, ClassifyCache, settled, success, cache, merged,
}
use adgate.Classify.Run.{Run, ready, begin, rules_of, classify, lru_operations}
use adgate.Classify.Run.Laws.{Explained, classify-Explained}
use adgate.Classify.Run.Safe.{classify-blocked}
use adgate.Classify.Run.{with_llm, ask_llm, after_miss, classify_body, finish}
use adgate.Classify.Run.Types.{with_deadline, rules_classification}
use adgate.Classify.Prepare.{default_prepare_options, drop_units, last_chars}
use adgate.Classify.Rules.{
  match_sensitive, commercial_matches, match_commercial, match_intent, strongest_commercial,
  classify_by_rules,
}
use adgate.Classify.Rules.Match.{find_phrases, find_patterns, mask_from, mask_phrases}
use adgate.Classify.Rules.Score.{
  complement, evidence_weights, score_intent, score_confidence, score_sensitive_confidence,
}
use adgate.Classify.Merge.{
  strong_sensitive_flags, rules_fired, rules_sensitive_unconfirmed, commercial_categories_disjoint,
  stages_corroborate, merged_confidence, in_taxonomy_order, merge_sensitive, capped_intent,
}
use adgate.Demand.Ranking.{insert, sort}
use adgate.Demand.Exclusions.{trim_start, trim_end}
use adgate.Samples.{classification, input}

abbrev two_places : LruCache
two_places = record { max_entries = 2; ttl_ms = 100; entries = [] }

abbrev calls : List Operation
calls =
    set_call "a" classification none 0
    ∷ set_call "b" classification (some (pos 10)) 5
    ∷ get_call "a" 20
    ∷ set_call "c" classification none 30
    ∷ []

is_created : create_lru_cache (some (pos 2)) (some (pos 100)) ≡ created two_places
unfolding create_lru_cache
is_created = refl

answers_a : (get (run two_places calls) "a" 40).1 ≡ some classification
unfolding get run step set
answers_a = refl

cache_example :
    (size (run two_places calls) ≤ two_places.max_entries)
    × ((entry : Entry) × (remembered two_places.ttl_ms (λ _. none) calls "a" ≡ some entry)
        × (is_expired entry.expires_at 40 ≡ false)
        × (entry.value ≡ classification))
cache_example =
    run-get (some (pos 2)) (some (pos 100)) two_places calls "a" 40 classification is_created
      answers_a

abbrev between : List Operation
between = get_call "a" 50 ∷ []

recent_example :
    (get (run (set two_places "a" classification none 0) between) "a" 60).1 ≡ some classification
recent_example =
    set-get two_places "a" classification none 0 60 (at 100) between refl ((λ e. refl), tt)
      (omega arith) refl

abbrev policy : ClassifyPolicy
policy = record { sensitive_detection = balanced; min_confidence = 700 }

abbrev rules_result : RulesResult
rules_result = record {
  verdict = record classification { sensitive = gambling ∷ [] };
  matches = record { sensitive = []; commercial = []; intent = []; informational = [] };
}

abbrev merge_input : MergeInput
merge_input = record {
  rules_result = rules_result;
  llm_result = record classification { sensitive = self_harm ∷ []; confidence = num 100 };
  policy = policy;
}

merge_classifications_example :
    ((c : SensitiveCategory)
      → (includes (merge_classifications merge_input).sensitive c ≡ true) ↔ (
          (includes (gambling ∷ []) c ≡ true)
          ⊎ ((includes (self_harm ∷ []) c ≡ true) × Counts merge_input c)))
    × (includes (merge_classifications merge_input).sensitive self_harm ≡ true
        → (merge_classifications merge_input).commercial_intent ≡ num 0)
    × (is_empty (merge_classifications merge_input).sensitive ≡ false
        → AtMost (merge_classifications merge_input).commercial_intent 200)
merge_classifications_example = merge_classifications_lem merge_input

abbrev said : List ℕ → Message
said text = record { role = user; content = text }

abbrev prompt : Message
prompt = record { role = system; content = codes "Be brief." }

-- A face of one code point, which takes two code units.
abbrev spoken : List Message
spoken = said (128512 ∷ 128512 ∷ 97 ∷ []) ∷ []

abbrev short_texts : PrepareTextOptions
short_texts = record { max_messages = 4; max_chars = 2 }

prepare_example :
    (let texts_of : List Message → PrepareTextInput =
        λ messages. record { messages = some messages; context_summary = none } in
      let prepared = prepare_text (texts_of spoken) short_texts in
      ((prepared.text ≡ read_lines message_line spoken short_texts)
        × (prepared.rules_text ≡ read_lines (λ m. m.content) spoken short_texts)
        × (length prepared.text ≤ 2)
        × (length prepared.rules_text ≤ 2))
      × (prepare_text (texts_of (prompt ∷ spoken)) short_texts ≡ prepared))
prepare_example =
    prepare_text_lem [] spoken prompt none short_texts (omega arith) (omega arith) refl

abbrev reply : Value
reply =
    object
      (("commercial_intent", number (pos 1020))
        ∷ ("categories", texts (codes "Food-Delivery" ∷ []))
        ∷ ("sensitive", texts (codes " Self Harm" ∷ codes "unknown" ∷ []))
        ∷ ("confidence", number (pos 900))
        ∷ [])
      []

abbrev parse : List ℕ → Option Value
parse content = some reply

abbrev content : List ℕ
content = codes "{}"

abbrev answer : Classification
answer = record {
  commercial_intent = num 1000;
  categories = "general" ∷ [];
  sensitive = self_harm ∷ [];
  confidence = num 900;
  method = llm;
  prompt_version = "p1";
}

output_example :
    ((parse_llm_content "p1" parse content ≡ parsed answer) ↔ (
      (value : Value) × (output : LlmOutput) × (parse (strip_fence content) ≡ some value)
      × (safe_parse (clamp_numbers value) ≡ some output)
      × (answer ≡ to_llm_classification "p1" parse output)))
    × AcceptedMeets (parse_llm_content "p1" parse content)
output_example = parse_llm_content-parsed_iff "p1" parse content answer refl

-- A classifier whose rules know one phrase of gambling.
abbrev registry : Registry
registry = record {
  sensitive =
      record {
        category = gambling;
        strong = [];
        weak = "casino" ∷ "bet" ∷ [];
        patterns = [];
        exclusions = [];
      }
      ∷ [];
  commercial = [];
  intent_phrases = [];
  intent_patterns = [];
  informational = [];
}

abbrev text_of : List ℕ → String
text_of text = if text == codes "casino bet" then "casino bet" else "other"

abbrev with : Classifier
with = record {
  normalize = text_of;
  rules_version = "rules-1";
  registry = registry;
  cache_key = λ text of_policy. done text;
  prepare_error = λ input. none;
  rules_error = λ text. none;
}

abbrev lru : ClassifyCache LruCache
lru = lru_operations 7

abbrev deps : ClassifyDeps LruCache
deps = record {
  llm = some (settled (success classification));
  operations = some lru;
  policy = policy;
  clock = record { started = done 7; finished = done 9; again = threw "Error" };
}

abbrev bets : PrepareTextInput
bets = record { messages = some (said (codes "casino bet") ∷ []); context_summary = none }

outcome_example :
    Explained with deps two_places
      (begin with bets deps.policy)
      (classify with bets deps two_places).0
      (classify with bets deps two_places).1
outcome_example = classify-Explained with bets deps two_places 7 9 refl refl

abbrev bets_run : Run
bets_run =
    let prepared = prepare_text bets default_prepare_options in
    record {
      prepared = prepared;
      cache_key = text_of prepared.text;
      result = rules_of with prepared;
    }

bets_are_ready : begin with bets deps.policy ≡ ready bets_run
unfolding begin
bets_are_ready = refl

blocks_gambling : includes bets_run.result.verdict.sensitive gambling ≡ true
unfolding drop_units last_chars prepare_text match_sensitive commercial_matches match_commercial
    match_intent strongest_commercial classify_by_rules find_phrases find_patterns mask_from
    mask_phrases complement evidence_weights score_intent score_confidence
    score_sensitive_confidence insert sort trim_start trim_end
blocks_gambling = refl

source_is_merged : (classify with bets deps two_places).1.source ≡ merged
unfolding begin with_llm after_miss classify_body finish classify with_deadline rules_classification
    drop_units last_chars prepare_text match_sensitive commercial_matches match_commercial
    match_intent strongest_commercial classify_by_rules find_phrases find_patterns mask_from
    mask_phrases complement evidence_weights score_intent score_confidence
    score_sensitive_confidence strong_sensitive_flags rules_fired rules_sensitive_unconfirmed
    commercial_categories_disjoint stages_corroborate merged_confidence in_taxonomy_order
    merge_sensitive capped_intent merge_classifications get set insert sort trim_start trim_end
    ask_llm meets_threshold
source_is_merged = refl

is_fresh : (classify with bets deps two_places).1.source ≢ cache
is_fresh h = cc (sym h ∙ source_is_merged)

blocked_turn_example :
    (evaluate_policy (record input {
      classification = (classify with bets deps two_places).1.classification;
    })).allowed
    ≡ false
blocked_turn_example =
    classify-blocked with bets deps two_places 7 9 bets_run gambling
      (record input { classification = (classify with bets deps two_places).1.classification }) refl
      refl bets_are_ready blocks_gambling (inl refl) is_fresh refl

-- ===== src/Classify/Run/Paths.antt =====
-- The paths through the classifier's `try` block: packages/core/src/classify/classify.ts.
use adgate.Prelude.{
  ◌⊎◌, inl, inr, ◌≡◌, refl, String, Bool, true, false, not, Option, none, some, if◌then◌else◌,
  is_empty,
}
use adgate.Schema.{Classification, cached}
use adgate.Demand.Exclusions.{trim_start, trim_end}
use adgate.Classify.Merge.{strong_sensitive_flags, merge_classifications}
use adgate.Classify.Run.Types.{
  Attempt, done, threw, timeout, success, failure, LlmEvent, settled, rejected, expired,
  with_deadline, ClassifySource, cache, rules_short_circuit, merged, rules_fallback,
  ClassifyLlmFailure, reason, thrown, unavailable, empty_input, ClassifyDeps, rules_classification,
}
use adgate.Classify.Run.{
  Run, Ending, ends, raises, cache_get, cache_set, stored, with_llm, ask_llm, after_miss, after_get,
  classify_body,
}

-- What a turn finds once its rules have run: the state that the lookup leaves, what the lookup came to,
-- whether the rules flag a category strongly, whether the text is blank, and the LLM, if there is one.
pub record Scene (S : Type 0) : Type 0 where
  pub looked : S
  pub got : Attempt (Option Classification)
  pub strong : Bool
  pub blank : Bool
  pub event : Option LlmEvent

abbrev pub scene_of : {S : Type 0} → ClassifyDeps S → Run → S → Scene S
scene_of deps run s = record {
  looked = (cache_get deps.operations s run.cache_key).0;
  got = (cache_get deps.operations s run.cache_key).1;
  strong = not (is_empty (strong_sensitive_flags run.result));
  blank = is_empty (trim_end (trim_start run.prepared.rules_text));
  event = deps.llm;
}

module _ {S : Type 0} (deps : ClassifyDeps S) (run : Run) where
  abbrev pub verdict : Classification
  verdict = rules_classification run.result

  -- The merge of the rules with an answer of the LLM.
  abbrev pub merge_with : Classification → Classification
  merge_with answer =
      merge_classifications
        (record { rules_result = run.result; llm_result = answer; policy = deps.policy })

  module _ (scene : Scene S) where
    abbrev pub Missed : Type 0
    Missed = scene.got ≡ done none

    -- The LLM is asked.
    abbrev pub Asked : LlmEvent → Type 0
    Asked event =
        Missed × (scene.strong ≡ false) × (scene.blank ≡ false) × (scene.event ≡ some event)

    -- Storing the classification leaves the state and throws what is named, if anything.
    abbrev pub Stores : Classification → S → Option String → Type 0
    Stores c after name = cache_set deps.operations scene.looked run.cache_key c ≡ (after, name)

    -- What throws the named value: the lookup, the LLM, or a store after either of the two ways there.
    abbrev pub Throws : S → String → Type 0
    Throws after name =
        ((scene.got ≡ threw name) × (after ≡ scene.looked))
        ⊎ ((Asked (rejected name) × (after ≡ scene.looked))
            ⊎ ((Missed × (scene.strong ≡ true) × Stores verdict after (some name))
                ⊎ ((answer : Classification) × Asked (settled (success answer))
                    × Stores (merge_with answer) after (some name))))

    -- Why an answer is the rules' alone.
    abbrev pub Failed : S → Option ClassifyLlmFailure → Option String → Type 0
    Failed after none name = ⊥
    Failed after (some (reason r)) name =
        (Asked (settled (failure r)) ⊎ (Asked expired × (r ≡ timeout)))
        × (after ≡ scene.looked)
        × (name ≡ none)
    Failed after (some unavailable) name =
        Missed
        × (scene.strong ≡ false)
        × (scene.blank ≡ false)
        × (scene.event ≡ none)
        × (after ≡ scene.looked)
        × (name ≡ none)
    Failed after (some empty_input) name =
        Missed
        × (scene.strong ≡ false)
        × (scene.blank ≡ true)
        × (after ≡ scene.looked)
        × (name ≡ none)
    Failed after (some thrown) name = (n : String) × (name ≡ some n) × Throws after n

    abbrev pub Silent : Option ClassifyLlmFailure → Option String → Type 0
    Silent failed name = (failed ≡ none) × (name ≡ none)

    -- What each source says of the state that is left, the classification, the failure and the error.
    abbrev pub Told :
        S → Classification → ClassifySource → Option ClassifyLlmFailure → Option String → Type 0
    Told after c cache failed name =
        (hit : Classification) × (scene.got ≡ done (some hit))
        × (c ≡ record hit { method = cached })
        × (after ≡ scene.looked)
        × Silent failed name
    Told after c rules_short_circuit failed name =
        Missed × (scene.strong ≡ true) × (c ≡ verdict) × Stores c after none × Silent failed name
    Told after c merged failed name =
        (answer : Classification) × Asked (settled (success answer))
        × (c ≡ merge_with answer)
        × Stores c after none
        × Silent failed name
    Told after c rules_fallback failed name = (c ≡ verdict) × Failed after failed name

    abbrev pub Ended : S × Ending → Type 0
    Ended (after, raises name) = Told after verdict rules_fallback (some thrown) (some name)
    Ended (after, ends c source failed) = Told after c source failed none

  short-Ended :
      (s : S) (blank : Bool) (event : Option LlmEvent)
      → Ended
          (record { looked = s; got = done none; strong = true; blank = blank; event = event })
          (stored (cache_set deps.operations s run.cache_key verdict) verdict rules_short_circuit)
  short-Ended s blank event = by_store (cache_set deps.operations s run.cache_key verdict) refl
    where
      by_store :
          (p : S × Option String)
          → cache_set deps.operations s run.cache_key verdict ≡ p
          → Ended
              (record { looked = s; got = done none; strong = true; blank = blank; event = event })
              (stored p verdict rules_short_circuit)
      by_store (after, none) e = (refl, refl, refl, e, (refl, refl))
      by_store (after, some name) e = (refl, (name, refl, inr (inr (inl (refl, refl, e)))))

  asked-Ended :
      (s : S) (event : LlmEvent)
      → Ended
          (record {
            looked = s;
            got = done none;
            strong = false;
            blank = false;
            event = some event;
          })
          (with_llm deps run s (with_deadline event))
  unfolding with_llm with_deadline
  asked-Ended s (rejected name) = (refl, (name, refl, inr (inl ((refl, refl, refl, refl), refl))))
  asked-Ended s expired = (refl, (inr ((refl, refl, refl, refl), refl), refl, refl))
  asked-Ended s (settled (failure r)) = (refl, (inl (refl, refl, refl, refl), refl, refl))
  asked-Ended s (settled (success answer)) =
      by_store (cache_set deps.operations s run.cache_key (merge_with answer)) refl
    where
      by_store :
          (p : S × Option String)
          → cache_set deps.operations s run.cache_key (merge_with answer) ≡ p
          → Ended
              (record {
                looked = s;
                got = done none;
                strong = false;
                blank = false;
                event = some (settled (success answer));
              })
              (stored p (merge_with answer) merged)
      by_store (after, none) e = (answer, (refl, refl, refl, refl), refl, e, (refl, refl))
      by_store (after, some name) e =
          (refl, (name, refl, inr (inr (inr (answer, (refl, refl, refl, refl), e)))))

  after_miss-Ended :
      (s : S)
      → Ended
          (record {
            looked = s;
            got = done none;
            strong = not (is_empty (strong_sensitive_flags run.result));
            blank = is_empty (trim_end (trim_start run.prepared.rules_text));
            event = deps.llm;
          })
          (after_miss deps run s)
  unfolding after_miss ask_llm
  after_miss-Ended s =
      by_tests (not (is_empty (strong_sensitive_flags run.result)))
        (is_empty (trim_end (trim_start run.prepared.rules_text))) deps.llm
    where
      by_tests :
          (strong blank : Bool) (event : Option LlmEvent)
          → Ended
              (record {
                looked = s;
                got = done none;
                strong = strong;
                blank = blank;
                event = event;
              })
              (if strong
                then stored
                    (cache_set deps.operations s run.cache_key verdict)
                    verdict
                    rules_short_circuit
                else if blank
                then (s, ends verdict rules_fallback (some empty_input))
                else ask_llm deps run s event)
      by_tests true blank event = short-Ended s blank event
      by_tests false true event = (refl, (refl, refl, refl, refl, refl))
      by_tests false false none = (refl, (refl, refl, refl, refl, refl, refl))
      by_tests false false (some event) = asked-Ended s event

  pub classify_body-Ended : (s : S) → Ended (scene_of deps run s) (classify_body deps run s)
  unfolding classify_body
  classify_body-Ended s = by_lookup (cache_get deps.operations s run.cache_key)
    where
      by_lookup :
          (p : S × Attempt (Option Classification))
          → Ended
              (record {
                looked = p.0;
                got = p.1;
                strong = not (is_empty (strong_sensitive_flags run.result));
                blank = is_empty (trim_end (trim_start run.prepared.rules_text));
                event = deps.llm;
              })
              (after_get deps run p)
      by_lookup (after, threw name) = (refl, (name, refl, inl (refl, refl)))
      by_lookup (after, done (some hit)) = (hit, refl, refl, refl, (refl, refl))
      by_lookup (after, done none) = after_miss-Ended after

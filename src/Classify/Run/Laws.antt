-- ===== src/Classify/Run/Laws.antt =====
-- How the classifier's answer comes about: packages/core/src/classify/classify.ts.
use adgate.Prelude.{ℕ, ◌≡◌, refl, sym, some, subst}
use adgate.Classify.Prepare.{PrepareTextInput}
use adgate.Classify.Run.Types.{
  done, rules_fallback, thrown, ClassifyOutcome, ClassifyDeps, Classifier,
}
use adgate.Classify.Run.{
  Run, Begun, ready, stopped, begin, recover_rules, Ending, ends, raises, classify_body, recovered,
  finish, classify_begun, classify_from, classify,
}
use adgate.Classify.Run.Paths.{scene_of, Told, Ended, classify_body-Ended}

-- What an outcome says of a turn whose steps before the lookup end as given.
abbrev pub Explained :
    {S : Type 0} → Classifier → ClassifyDeps S → S → Begun → S → ClassifyOutcome → Type 0
Explained with deps s (ready run) after o =
    Told deps run (scene_of deps run s) after o.classification o.source o.llm_failure o.error_name
Explained with deps s (stopped prepared key name) after o =
    (after ≡ s)
    × (o.classification ≡ recover_rules with prepared)
    × (o.source ≡ rules_fallback)
    × (o.llm_failure ≡ some thrown)
    × (o.error_name ≡ some name)

finish-Told :
    {S : Type 0} (with : Classifier) (deps : ClassifyDeps S) (run : Run) (s after : S)
    (ending : Ending) (started now : ℕ)
    → Ended deps run (scene_of deps run s) (after, ending)
    → Explained with deps s (ready run) after (finish with run started deps.clock ending (done now))
unfolding finish recovered
finish-Told with deps run s after (raises name) started now h = h
finish-Told with deps run s after (ends c source failed) started now h = h

classify_begun-Explained :
    {S : Type 0} (with : Classifier) (deps : ClassifyDeps S) (s : S) (begun : Begun)
    (started now : ℕ)
    → deps.clock.finished ≡ done now
    → Explained with deps s begun
        (classify_begun with deps started s begun).0
        (classify_begun with deps started s begun).1
unfolding recovered
classify_begun-Explained with deps s (stopped prepared key name) started now e =
    rw e (refl, refl, refl, refl, refl)
classify_begun-Explained with deps s (ready run) started now e =
    let body = classify_body deps run s in
    subst
      (λ reading.
        Explained with deps s (ready run) (body.0)
          (finish with run started deps.clock (body.1) reading))
      (sym e)
      (finish-Told with deps run s (body.0) (body.1) started now (classify_body-Ended deps run s))

-- Where both readings of the clock work, an outcome says how it came about. A cached one is a hit of the
-- lookup. A short circuit follows a miss where the rules flag a category strongly, is the rules' own
-- classification, and was stored. A merged one merges the rules with the answer that the LLM gave, and
-- was stored. A fallback is the rules' own classification, and its failure is the one that the LLM
-- reported, its deadline, a missing LLM, a blank text, or a throw of the lookup, of the LLM or of a store,
-- whose name is the error's; only a store leaves another state of the cache than the lookup. Where one of
-- the steps before the lookup throws, the fallback is what the rules still give, or else the fail-closed
-- classification, and the cache is left alone.
pub classify-Explained :
    {S : Type 0} (with : Classifier) (input : PrepareTextInput) (deps : ClassifyDeps S) (s : S)
    (started now : ℕ)
    → deps.clock.started ≡ done started
    → deps.clock.finished ≡ done now
    → Explained with deps s
        (begin with input deps.policy)
        (classify with input deps s).0
        (classify with input deps s).1
unfolding classify
classify-Explained with input deps s started now e f =
    let begun = begin with input deps.policy in
    subst
      (λ reading.
        Explained with deps s begun (classify_from with deps begun s reading).0
          (classify_from with deps begun s reading).1)
      (sym e) (classify_begun-Explained with deps s begun started now f)

-- ===== src/Classify/Run/Safe.antt =====
-- The classifier and the policy together: what the rules flag is not lost on the way.
use adgate.Prelude.{
  ℕ, ◌≡◌, ◌≢◌, refl, sym, ap, ◌∙◌, subst, inl, inr, Option, String, true, false, includes,
  Bool-cases,
}
use adgate.Schema.{Classification, SensitiveCategory, category_eq}
use adgate.Policy.Evaluate.{EvaluatePolicyInput, evaluate_policy}
use adgate.Policy.Evaluate.Rules.{Blocks}
use adgate.Policy.Evaluate.Servable.{evaluate_policy-allowed_iff}
use adgate.Classify.Merge.Laws.{merge_classifications_lem}
use adgate.Classify.Prepare.{PrepareTextInput}
use adgate.Classify.Run.Types.{
  done, ClassifySource, cache, rules_short_circuit, merged, rules_fallback, ClassifyLlmFailure,
  ClassifyDeps, Classifier, rules_classification,
}
use adgate.Classify.Run.{Run, ready, begin, classify}
use adgate.Classify.Run.Paths.{Scene, Told}
use adgate.Classify.Run.Laws.{Explained, classify-Explained}

names :
    {S : Type 0} (deps : ClassifyDeps S) (run : Run) (scene : Scene S) (after : S)
    (c : Classification) (source : ClassifySource) (failed : Option ClassifyLlmFailure)
    (name : Option String) (category : SensitiveCategory)
    → Told deps run scene after c source failed name
    → source ≢ cache
    → includes run.result.verdict.sensitive category ≡ true
    → includes c.sensitive category ≡ true
unfolding rules_classification
names deps run scene after c cache failed name category told fresh flagged = absurd (fresh refl)
names deps run scene after c rules_short_circuit failed name category told fresh flagged =
    ap (λ x. includes x.sensitive category) (told.2) ∙ flagged
names deps run scene after c rules_fallback failed name category told fresh flagged =
    ap (λ x. includes x.sensitive category) (told.0) ∙ flagged
names deps run scene after c merged failed name category (answer, asked, same, kept, silent) fresh
      flagged =
    ap (λ x. includes x.sensitive category) same
    ∙ ((merge_classifications_lem
            (record { rules_result = run.result; llm_result = answer; policy = deps.policy })).0
          category).1
        (inl flagged)

-- A turn is not served where its rules run and flag a category that the policy blocks, both readings
-- of the clock work, and the answer is not a cached one: whatever the LLM answers or fails to answer, and
-- whatever the cache throws.
pub classify-blocked :
    {S : Type 0} (with : Classifier) (input : PrepareTextInput) (deps : ClassifyDeps S) (s : S)
    (started now : ℕ) (run : Run) (category : SensitiveCategory) (i : EvaluatePolicyInput)
    → deps.clock.started ≡ done started
    → deps.clock.finished ≡ done now
    → begin with input deps.policy ≡ ready run
    → includes run.result.verdict.sensitive category ≡ true
    → Blocks i.policy.blocked_categories category
    → (classify with input deps s).1.source ≢ cache
    → i.classification ≡ (classify with input deps s).1.classification
    → (evaluate_policy i).allowed ≡ false
classify-blocked with input deps s started now run category i e f begun flagged blocks fresh same =
    let (after, outcome) = classify with input deps s in
    let told =
      subst (λ b. Explained with deps s b after outcome) begun
        (classify-Explained with input deps s started now e f) in
    let named =
      names deps run _ after outcome.classification outcome.source outcome.llm_failure
        outcome.error_name category told fresh flagged in
    elim (Bool-cases (evaluate_policy i).allowed) [
      | inl allowed ↦
          let clear = ((evaluate_policy-allowed_iff i).0 allowed).not_blocked category blocks in
          absurd (cc (sym (clear.0) ∙ ap (λ x. includes x.sensitive category) same ∙ named))
      | inr refused ↦ refused
    ]

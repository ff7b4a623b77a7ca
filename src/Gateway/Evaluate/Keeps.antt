-- ===== src/Gateway/Evaluate/Keeps.antt =====
-- How a predicate of the store passes through a whole evaluation.
use adgate.Prelude.{
  String, ◌≡◌, refl, inl, inr, Bool, true, false, ◌&&◌, not, Option, none, some, Option-cases,
  if◌then◌else◌,
}
use adgate.Policy.Evaluate.{PolicyEvaluation, evaluate_policy}
use adgate.Demand.Mediate.{MediationResult}
use adgate.Audit.Chain.{Platform}
use adgate.Gateway.Store.{Store, PersistedAudit, read_cap_state, persist}
use adgate.Gateway.Evaluate.{
  EvaluateResponse, Turn, with_caps, build_turn, build_error, Attempt, run_pipeline, persist_turn,
  answer_from, dry_run, fail_closed, error_answer, evaluate, settle_attempt, mediation_for,
  response_input, ResponseInput,
}

module _ (platform : Platform) (fields_ok : EvaluateResponse → Bool)
    (rules_version public_base_url : String) where
  -- The pipeline either reaches its transaction or leaves the store alone.
  pub run_pipeline-either :
      (turn : Turn) (before now : Store) (P : Attempt → Type 0)
      → ((evaluation : PolicyEvaluation) (input : ResponseInput)
          → P (
              persist_turn platform fields_ok rules_version public_base_url turn evaluation input
                now))
      → P (record { response = none; store = now })
      → P (run_pipeline platform fields_ok rules_version public_base_url turn before now)
  unfolding run_pipeline
  run_pipeline-either turn before now P ran threw =
      either
        (not turn.threw
          && dry_run platform fields_ok rules_version public_base_url turn evaluation mediation)
        (persist_turn platform fields_ok rules_version public_base_url turn evaluation
          (response_input mediation public_base_url turn.policy_input.policy.disclosure.label) now)
        (ran evaluation
          (response_input mediation public_base_url turn.policy_input.policy.disclosure.label))
    where
      evaluation : PolicyEvaluation
      evaluation = evaluate_policy (with_caps turn.policy_input (read_cap_state before turn.key))

      mediation : Option MediationResult
      mediation = mediation_for evaluation.allowed turn.mediated

      either :
          (b : Bool) (a : Attempt)
          → P a
          → P (if b then a else record { response = none; store = now })
      either true a k = k
      either false a k = threw

  -- What the transactions of one evaluation keep, from a state of the store on.
  module _ (turn : Turn) (P : Store → Type 0)
      (by_turn : (evaluation : PolicyEvaluation) (store : Store) (p : PersistedAudit)
        → persist
            (build_turn platform fields_ok rules_version public_base_url turn evaluation)
            turn.key
            turn.raw_text
            turn.commits
            store
          ≡ some p
        → P store
        → P p.store)
      (by_error : (store : Store) (p : PersistedAudit)
        → persist
            (build_error platform fields_ok rules_version public_base_url turn)
            turn.key
            none
            turn.error_commits
            store
          ≡ some p
        → P store
        → P p.store) where
    fail_closed-keeps :
        (store : Store)
        → P store
        → P (fail_closed platform fields_ok rules_version public_base_url turn store).store
    unfolding fail_closed error_answer
    fail_closed-keeps store h =
        by_outcome
          (persist (build_error platform fields_ok rules_version public_base_url turn) turn.key none
            turn.error_commits store)
          (λ p done. by_error store p done h)
      where
        by_outcome :
            (o : Option PersistedAudit)
            → ((p : PersistedAudit) → o ≡ some p → P p.store)
            → P (error_answer platform fields_ok rules_version public_base_url turn store o).store
        by_outcome none k = h
        by_outcome (some p) k = k p refl

    persist_turn-keeps :
        (evaluation : PolicyEvaluation) (input : ResponseInput) (store : Store)
        → P store
        → P
            (persist_turn platform fields_ok rules_version public_base_url turn evaluation input
              store).store
    unfolding persist_turn answer_from
    persist_turn-keeps evaluation input store h =
        by_outcome
          (persist (build_turn platform fields_ok rules_version public_base_url turn evaluation)
            turn.key turn.raw_text turn.commits store)
          (λ p done. by_turn evaluation store p done h)
      where
        by_outcome :
            (o : Option PersistedAudit)
            → ((p : PersistedAudit) → o ≡ some p → P p.store)
            → P
                (answer_from platform fields_ok rules_version public_base_url input turn.latency
                  store o).store
        by_outcome none k = h
        by_outcome (some p) k = k p refl

    run_pipeline-keeps :
        (before now : Store)
        → P now
        → P (run_pipeline platform fields_ok rules_version public_base_url turn before now).store
    run_pipeline-keeps before now h =
        run_pipeline-either turn before now (λ a. P a.store)
          (λ evaluation input. persist_turn-keeps evaluation input now h) h

    settle_attempt-keeps :
        (a : Attempt)
        → P a.store
        → P (settle_attempt platform fields_ok rules_version public_base_url turn a).store
    settle_attempt-keeps a h = elim (Option-cases a.response) [
      | inl failed ↦ rw (failed, settle_attempt) (fail_closed-keeps a.store h)
      | inr (response, done) ↦ rw (done, settle_attempt) h
    ]

    pub evaluate-keeps :
        (before now : Store)
        → P now
        → P (evaluate platform fields_ok rules_version public_base_url turn before now).store
    unfolding evaluate
    evaluate-keeps before now h = settle_attempt-keeps _ (run_pipeline-keeps before now h)

-- ===== src/Gateway/Evaluate/Responds.antt =====
-- What the caller is told, against the record that the turn leaves.
use adgate.Prelude.{
  ℕ, String, ◌≡◌, refl, ap, Bool, true, inl, inr, Option-cases, Option, none, some, arith, ◌⊎◌,
}
use adgate.Schema.{Candidate, error}
use adgate.Policy.Evaluate.{PolicyEvaluation}
use adgate.Policy.Evaluate.Servable.{Servable}
use adgate.Audit.Record.{serve, suppress, AuditRecord, AttestedBody, content_of}
use adgate.Audit.Chain.{Platform}
use adgate.Gateway.Store.{Store, PersistedAudit, latest_record, read_cap_state, persist}
use adgate.Gateway.Store.Laws.{persist_lem}
use adgate.Gateway.Evaluate.{
  EvaluateResponse, Turn, Attempt, evaluate, with_caps, ResponseInput, build_evaluate_response,
  response_refines, build_turn, persist_turn, answer_from, run_pipeline, fail_closed,
  settle_attempt, error_evaluate_response, build_error, error_answer,
}
use adgate.Gateway.Evaluate.Laws.{build_turn_lem}
use adgate.Gateway.Evaluate.Keeps.{run_pipeline-either}

build_evaluate_response_lem :
    (fields_ok : EvaluateResponse → Bool) (input : ResponseInput) (body : AttestedBody)
    (latency : ℕ) (response : EvaluateResponse)
    → build_evaluate_response fields_ok input body latency ≡ some response
    → (response.decision ≡ body.decision)
      × (response.audit_id ≡ body.id)
      × (response_refines response ≡ true)
unfolding build_evaluate_response
build_evaluate_response_lem fields_ok input body latency response h = ground arith

module _ (platform : Platform) (fields_ok : EvaluateResponse → Bool)
    (rules_version public_base_url : String) where
  -- A response other than the error one stands on the record just appended.
  abbrev pub Told : Turn → Store → EvaluateResponse → Store → Type 0
  Told turn now response after =
      (r : AuditRecord) × (latest_record after.audits ≡ some r)
      × (response.decision ≡ (content_of r).decision)
      × (response.audit_id ≡ (content_of r).id)
      × (response_refines response ≡ true)
      × ((content_of r).decision ≡ serve
          → Servable (with_caps turn.policy_input (read_cap_state now turn.key))
            × ((c : Candidate) × (turn.mediated.selected ≡ some c)))

  abbrev ToldBy : Turn → Store → Attempt → Type 0
  ToldBy turn now a =
      (response : EvaluateResponse) → a.response ≡ some response → Told turn now response a.store

  told_lem :
      (turn : Turn) (evaluation : PolicyEvaluation) (input : ResponseInput) (now : Store)
      (p : PersistedAudit)
      → persist
          (build_turn platform fields_ok rules_version public_base_url turn evaluation)
          turn.key
          turn.raw_text
          turn.commits
          now
        ≡ some p
      → (response : EvaluateResponse)
      → build_evaluate_response fields_ok input (content_of p.record_of) turn.latency
        ≡ some response
      → Told turn now response p.store
  told_lem turn evaluation input now p done response h =
      let (built, audits, caps) = persist_lem _ turn.key turn.raw_text turn.commits now p done in
      let (same, named, refined) =
        build_evaluate_response_lem fields_ok input _ turn.latency response h in
      let (follows, serves) =
        build_turn_lem platform fields_ok rules_version public_base_url turn evaluation _ _ _
          built in
      (p.record_of, ap (λ rows. latest_record rows) audits, same, named, refined, serves)

  persist_turn-Told :
      (turn : Turn) (evaluation : PolicyEvaluation) (input : ResponseInput) (now : Store)
      → ToldBy turn now
          (persist_turn platform fields_ok rules_version public_base_url turn evaluation input now)
  unfolding persist_turn answer_from
  persist_turn-Told turn evaluation input now =
      by_outcome
        (persist (build_turn platform fields_ok rules_version public_base_url turn evaluation)
          turn.key turn.raw_text turn.commits now)
        (told_lem turn evaluation input now)
    where
      by_outcome :
          (o : Option PersistedAudit)
          → ((p : PersistedAudit)
              → o ≡ some p
              → (response : EvaluateResponse)
              → build_evaluate_response fields_ok input (content_of p.record_of) turn.latency
                ≡ some response
              → Told turn now response p.store)
          → ToldBy turn now (
              answer_from platform fields_ok rules_version public_base_url input turn.latency now o)
      by_outcome none k response h = cc
      by_outcome (some p) k response h = k p refl response h

  run_pipeline-Told :
      (turn : Turn) (before now : Store)
      → ToldBy turn now
          (run_pipeline platform fields_ok rules_version public_base_url turn before now)
  run_pipeline-Told turn before now =
      run_pipeline-either platform fields_ok rules_version public_base_url turn before now
        (ToldBy turn now) (λ evaluation input. persist_turn-Told turn evaluation input now)
        (λ response h. cc)

  fail_closed-error :
      (turn : Turn) (store : Store)
      → ((fail_closed platform fields_ok rules_version public_base_url turn store).response.decision
          ≡ suppress)
        × ((fail_closed platform fields_ok rules_version public_base_url turn store).response.reason
            ≡ some error)
  unfolding fail_closed error_answer error_evaluate_response
  fail_closed-error turn store = by_outcome (
      persist (build_error platform fields_ok rules_version public_base_url turn) turn.key none
        turn.error_commits store)
    where
      by_outcome :
          (o : Option PersistedAudit)
          → (let result =
                error_answer platform fields_ok rules_version public_base_url turn store o in
              (result.response.decision ≡ suppress) × (result.response.reason ≡ some error))
      by_outcome none = (refl, refl)
      by_outcome (some p) = (refl, refl)

  -- Every call is answered. Either the answer has the decision and the id of the record that the
  -- call appended, meets the refinements of the schema, and serves only where the policy allows the
  -- turn under the caps of the transaction itself and mediation selected a candidate; or it is the
  -- suppression with the reason `error`.
  pub evaluate-Told :
      (turn : Turn) (before now : Store)
      → (let result = evaluate platform fields_ok rules_version public_base_url turn before now in
          Told turn now result.response result.store
          ⊎ ((result.response.decision ≡ suppress) × (result.response.reason ≡ some error)))
  unfolding evaluate
  evaluate-Told turn before now =
      by_attempt (run_pipeline platform fields_ok rules_version public_base_url turn before now)
        (run_pipeline-Told turn before now)
    where
      by_attempt :
          (a : Attempt)
          → ToldBy turn now a
          → (let result = settle_attempt platform fields_ok rules_version public_base_url turn a in
              Told turn now result.response result.store
              ⊎ ((result.response.decision ≡ suppress) × (result.response.reason ≡ some error)))
      by_attempt a k = elim (Option-cases a.response) [
        | inl failed ↦ rw (failed, settle_attempt) (inr (fail_closed-error turn a.store))
        | inr (response, done) ↦ rw (done, settle_attempt) (inl (k response done))
      ]

-- ===== src/Gateway/Evaluate.antt =====
-- packages/gateway/src/evaluate: pipeline.ts, response.ts and fail-closed.ts, with EvaluateResponse of
-- packages/schemas/src/evaluate.ts. A throw is `none`. A turn reads the caps of one state of the
-- store and persists in a later one: other turns of the app may have come between.
pub mod Laws
pub mod Keeps
pub mod Caps
pub mod Responds
use Prim.Native.Char.{code}
use Prim.Native.String
use adgate.Prelude.{
  ℕ, String, Bool, true, false, ◌&&◌, not, Option, none, some, List, [], ◌∷◌, if◌then◌else◌, eqb,
  or_else, is_none, ◌==◌, string_eq,
}
use adgate.Schema.{
  SuppressReason, error, Classification, rules, num, DemandSource, Candidate, CapState,
}
use adgate.Policy.Evaluate.{EvaluatePolicyInput, PolicyEvaluation, evaluate_policy}
use adgate.Demand.Mediate.{MediationResult}
use adgate.Classify.Run.Types.{fail_closed_classification}
use adgate.Audit.Record.{Decision, serve, suppress, AuditRecord, content_of, AttestedBody}
use adgate.Audit.Chain.{Platform, genesis, next_prev_hash}
use adgate.Audit.Build.{
  BuildAuditRecordInput, AuditPolicyResult, AuditMediation, build_audit_body, build_audit_record,
}
use adgate.Gateway.Store.{Store, CapKey, PersistedAudit, read_cap_state, persist}

pub record Creative : Type 0 where
  pub id : String
  pub advertiser : String
  pub headline : String
  pub body : String
  pub cta : String
  pub url : String
  pub source : DemandSource
  pub disclosure_label : String

pub record EvaluateResponse : Type 0 where
  pub decision : Decision
  pub reason : Option SuppressReason
  pub classification : Classification
  pub creative : Option Creative
  pub audit_id : String
  pub latency_ms : ℕ

-- `text.replace(/\/+$/, '')`
abbrev pub without_slashes : String → String
without_slashes String.[] = String.[]
without_slashes (String.◌∷◌ c text) =
    let rest = without_slashes text in
    if eqb (code c) 47 && rest == "" then "" else String.◌∷◌ c rest

abbrev pub click_url : String → String → String
click_url public_base_url audit_id =
    String.◌++◌ (without_slashes public_base_url) (String.◌++◌ "/c/" audit_id)

-- The two refinements of the schema.
abbrev pub response_refines : EvaluateResponse → Bool
response_refines r = elim (r.decision) [
  | serve ↦ not (is_none r.creative) && is_none r.reason
  | suppress ↦ is_none r.creative && not (is_none r.reason)
]

-- What mediation gave and what the response needs besides the record.
pub record ResponseInput : Type 0 where
  pub selected : Option Candidate
  pub selected_source : Option DemandSource
  pub public_base_url : String
  pub disclosure_label : String

abbrev pub to_creative : ResponseInput → String → Candidate → Creative
to_creative input audit_id candidate = record {
  id = candidate.creative.id;
  advertiser = candidate.creative.advertiser;
  headline = candidate.creative.headline;
  body = candidate.creative.body;
  cta = candidate.creative.cta;
  url = click_url input.public_base_url audit_id;
  source = or_else input.selected_source candidate.creative.source;
  disclosure_label = input.disclosure_label;
}

abbrev pub creative_for : Decision → ResponseInput → String → Option Candidate → Option Creative
creative_for serve input audit_id (some candidate) = some (to_creative input audit_id candidate)
creative_for serve input audit_id none = none
creative_for suppress input audit_id selected = none

abbrev pub parse_response : (EvaluateResponse → Bool) → EvaluateResponse → Option EvaluateResponse
parse_response fields_ok r = if fields_ok r && response_refines r then some r else none

-- `fields_ok` is the schema's check of the single fields.
unfoldable pub build_evaluate_response :
    (EvaluateResponse → Bool) → ResponseInput → AttestedBody → ℕ → Option EvaluateResponse
build_evaluate_response fields_ok input body latency = parse_response fields_ok (record {
  decision = body.decision;
  reason = body.reason;
  classification = body.classification;
  creative = creative_for body.decision input body.id input.selected;
  audit_id = body.id;
  latency_ms = latency;
})

unfoldable pub error_evaluate_response : String → String → ℕ → EvaluateResponse
error_evaluate_response rules_version audit_id latency = record {
  decision = suppress;
  reason = some error;
  classification = fail_closed_classification rules_version;
  creative = none;
  audit_id = audit_id;
  latency_ms = latency;
}

-- One call: what the steps before the record produced (`threw` if one of them did), the answer that
-- mediation gives if it is asked, whether the transactions commit, and the clock's latencies. The
-- caps of `policy_input` and the result, demand and predecessor of `base` are filled in below.
pub record Turn : Type 0 where
  pub threw : Bool
  pub base : BuildAuditRecordInput
  pub policy_input : EvaluatePolicyInput
  pub mediated : MediationResult
  pub key : CapKey
  pub raw_text : Option String
  pub commits : Bool
  pub latency : ℕ
  pub error_id : String
  pub error_base : BuildAuditRecordInput
  pub error_commits : Bool

-- How far the pipeline got: a response unless it threw, and the store it leaves.
pub record Attempt : Type 0 where
  pub response : Option EvaluateResponse
  pub store : Store

pub record EvaluateResult : Type 0 where
  pub response : EvaluateResponse
  pub store : Store

abbrev pub with_caps : EvaluatePolicyInput → CapState → EvaluatePolicyInput
with_caps input state = record input { cap_state = state }

abbrev pub result_of : PolicyEvaluation → AuditPolicyResult
result_of e = record { allowed = e.allowed; reason = e.reason; decisions = e.decisions }

abbrev pub audited : MediationResult → AuditMediation
audited m = record { selected = m.selected; trace = m.trace }

abbrev pub base_with :
    BuildAuditRecordInput
    → PolicyEvaluation
    → Option AuditMediation
    → String
    → BuildAuditRecordInput
base_with base evaluation mediation prev_hash = record base {
  policy_result = result_of evaluation;
  mediation = mediation;
  prev_hash = prev_hash;
}

-- The mediation of a turn, which is asked only where the policy allowed it.
abbrev pub mediation_for : Bool → MediationResult → Option MediationResult
mediation_for true m = some m
mediation_for false m = none

abbrev pub response_input : Option MediationResult → String → String → ResponseInput
response_input none url label = record {
  selected = none;
  selected_source = none;
  public_base_url = url;
  disclosure_label = label;
}
response_input (some m) url label = record {
  selected = m.selected;
  selected_source = m.selected_source;
  public_base_url = url;
  disclosure_label = label;
}

abbrev pub map_audited : Option MediationResult → Option AuditMediation
map_audited none = none
map_audited (some m) = some (audited m)

module _ (platform : Platform) (fields_ok : EvaluateResponse → Bool)
    (rules_version public_base_url : String) where
  -- The `build` callback: the caps read under the lock are the ones that count.
  unfoldable pub build_turn :
      Turn → PolicyEvaluation → Option AuditRecord → CapState → Option AuditRecord
  build_turn turn evaluation previous fresh_caps =
      let mediation = mediation_for evaluation.allowed turn.mediated in
      let prev_hash = next_prev_hash previous in
      let fresh = evaluate_policy (with_caps turn.policy_input fresh_caps) in
      if not evaluation.allowed
      then build_audit_record platform
          (base_with turn.base evaluation (map_audited mediation) prev_hash)
      else if fresh.allowed
      then build_audit_record platform
          (base_with turn.base evaluation (map_audited mediation) prev_hash)
      else build_audit_record platform (base_with turn.base fresh none prev_hash)

  -- The response from the persisted record, which stays even if the response is refused.
  unfoldable pub answer_from : ResponseInput → ℕ → Store → Option PersistedAudit → Attempt
  answer_from input latency now none = record { response = none; store = now }
  answer_from input latency now (some persisted) = record {
    response = build_evaluate_response fields_ok input (content_of persisted.record_of) latency;
    store = persisted.store;
  }

  unfoldable pub persist_turn : Turn → PolicyEvaluation → ResponseInput → Store → Attempt
  persist_turn turn evaluation input now =
      answer_from input turn.latency now
        (persist (build_turn turn evaluation) turn.key turn.raw_text turn.commits now)

  -- The body and the response are built once before anything is persisted.
  unfoldable pub dry_run : Turn → PolicyEvaluation → Option MediationResult → Bool
  dry_run turn evaluation mediation =
      elim (build_audit_body platform
        (base_with turn.base evaluation (map_audited mediation) genesis)) [
          | none ↦ false
          | some body ↦ not (
              is_none (
                build_evaluate_response fields_ok
                  (response_input mediation public_base_url
                    turn.policy_input.policy.disclosure.label)
                  body.content 0))
        ]

  -- `before` is the store when the caps are first read, `now` the one of the transaction.
  unfoldable pub run_pipeline : Turn → Store → Store → Attempt
  run_pipeline turn before now =
      let evaluation =
        evaluate_policy (with_caps turn.policy_input (read_cap_state before turn.key)) in
      let mediation = mediation_for evaluation.allowed turn.mediated in
      if not turn.threw && dry_run turn evaluation mediation
      then persist_turn turn evaluation
          (response_input mediation public_base_url turn.policy_input.policy.disclosure.label) now
      else record { response = none; store = now }

  abbrev pub error_evaluation : PolicyEvaluation
  error_evaluation = record { allowed = false; reason = some error; decisions = [] }

  abbrev pub build_error : Turn → Option AuditRecord → CapState → Option AuditRecord
  build_error turn previous caps = build_audit_record platform (
      base_with
        (record turn.error_base {
          id = turn.error_id;
          classification = fail_closed_classification rules_version;
        })
        error_evaluation none (next_prev_hash previous))

  -- The error response, whether or not its record could be written.
  unfoldable pub error_answer : Turn → Store → Option PersistedAudit → EvaluateResult
  error_answer turn store none = record {
    response = error_evaluate_response rules_version turn.error_id turn.latency;
    store = store;
  }
  error_answer turn store (some persisted) = record {
    response =
        error_evaluate_response rules_version (content_of persisted.record_of).id turn.latency;
    store = persisted.store;
  }

  unfoldable pub fail_closed : Turn → Store → EvaluateResult
  fail_closed turn store =
      error_answer turn store (persist (build_error turn) turn.key none turn.error_commits store)

  abbrev pub settle_attempt : Turn → Attempt → EvaluateResult
  settle_attempt turn attempt = elim (attempt.response) [
    | none ↦ fail_closed turn attempt.store
    | some response ↦ record { response = response; store = attempt.store }
  ]

  unfoldable pub evaluate : Turn → Store → Store → EvaluateResult
  evaluate turn before now = settle_attempt turn (run_pipeline turn before now)

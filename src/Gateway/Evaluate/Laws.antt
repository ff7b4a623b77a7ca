-- ===== src/Gateway/Evaluate/Laws.antt =====
-- The record that a turn builds for its transaction.
use adgate.Prelude.{
  String, ◌≡◌, ◌↔◌, sym, ap, subst, inl, inr, Bool, true, Bool-cases, Option, some,
}
use adgate.Schema.{CapState, Candidate}
use adgate.Policy.Evaluate.{PolicyEvaluation, evaluate_policy}
use adgate.Policy.Evaluate.Servable.{Servable, evaluate_policy-allowed_iff}
use adgate.Audit.Record.{serve, AuditRecord, content_of}
use adgate.Audit.Chain.{Platform, next_prev_hash}
use adgate.Audit.Build.{BuildAuditRecordInput, build_audit_record}
use adgate.Audit.Build.Laws.{Selected, build_audit_body-decision, build_audit_record-parts}
use adgate.Audit.Verify.RoundTrip.{sign_record-parts}
use adgate.Gateway.Evaluate.{EvaluateResponse, Turn, with_caps, build_turn, build_error}

module _ (platform : Platform) (fields_ok : EvaluateResponse → Bool)
    (rules_version public_base_url : String) where
  -- What a built record says is what its input decides, and it follows the given record.
  pub built_lem :
      (input : BuildAuditRecordInput) (r : AuditRecord)
      → build_audit_record platform input ≡ some r
      → (((content_of r).decision ≡ serve)
          ↔ ((input.policy_result.allowed ≡ true) × Selected input.mediation))
        × (r.unsigned.prev_hash ≡ input.prev_hash)
  built_lem input r h =
      let (body, built, signed) = build_audit_record-parts platform input r h in
      let (same, hashed, by_key) = sign_record-parts platform input.signing _ r signed in
      let content : content_of r ≡ body.content = ap (λ x. x.body.content) same in
      (
        subst
            (λ c.
              (c.decision ≡ serve)
              ↔ ((input.policy_result.allowed ≡ true) × Selected input.mediation))
            (sym content) (build_audit_body-decision platform input body built).0,
        ap (λ x. x.prev_hash) same,
      )

  -- A record that a turn writes follows the latest one, and it serves only if the policy allows the
  -- turn under the caps read in the transaction and mediation selected a candidate.
  pub build_turn_lem :
      (turn : Turn) (evaluation : PolicyEvaluation) (previous : Option AuditRecord)
      (caps : CapState) (r : AuditRecord)
      → build_turn platform fields_ok rules_version public_base_url turn evaluation previous caps
        ≡ some r
      → (r.unsigned.prev_hash ≡ next_prev_hash previous)
        × ((content_of r).decision ≡ serve
            → Servable (with_caps turn.policy_input caps)
              × ((c : Candidate) × (turn.mediated.selected ≡ some c)))
  unfolding build_turn
  build_turn_lem turn evaluation previous caps r h = elim (Bool-cases evaluation.allowed) [
    | inr refused ↦
        let (decides, follows) = built_lem _ r (rw refused at h) in
        (follows, λ served. absurd (cc ((decides.0 served).0)))
    | inl allowed ↦ elim (Bool-cases (evaluate_policy (with_caps turn.policy_input caps)).allowed) [
      | inl fresh ↦
          let (decides, follows) = built_lem _ r (rw (allowed, fresh) at h) in
          (
            follows,
            λ served. (
              (evaluate_policy-allowed_iff (with_caps turn.policy_input caps)).0 fresh,
              (decides.0 served).1,
            ),
          )
      | inr capped ↦
          let (decides, follows) = built_lem _ r (rw (allowed, capped) at h) in
          (follows, λ served. absurd ((decides.0 served).1))
    ]
  ]

  pub build_error_lem :
      (turn : Turn) (previous : Option AuditRecord) (caps : CapState) (r : AuditRecord)
      → build_error platform fields_ok rules_version public_base_url turn previous caps ≡ some r
      → (r.unsigned.prev_hash ≡ next_prev_hash previous) × ((content_of r).decision ≡ serve → ⊥)
  build_error_lem turn previous caps r h =
      let (decides, follows) = built_lem _ r h in (follows, λ served. cc ((decides.0 served).0))

-- ===== src/Audit/Build/Laws.antt =====
-- The body and the record of an evaluation.
use Prim.Native.String
use adgate.Prelude.{
  ℕ, refl, and-eq_true, String, ◌≡◌, ◌≢◌, ◌↔◌, inl, inr, true, false, Option, none, some, [], arith,
  string_eq, Bool-cases, ◌==◌, or_else,
}
use adgate.Schema.{Classification, Score, nan, num, Candidate, error, no_fill}
use adgate.Audit.Record.{AuditRecord, UnsignedAuditRecord, AuditRecordBody, serve, refines}
use adgate.Audit.Chain.{
  Platform, AuditSigningKey, compute_record_hash, sign_record, is_json, is_finite,
}
use adgate.Audit.Build.{
  BuildAuditRecordInput, AuditPolicyResult, AuditMediation, decide, body_with, conversation_id_hash,
  user_hash_of, build_audit_body, build_audit_record, unattested, identity_hash,
}

-- The scores of the classification are numbers.
abbrev pub Finite : Classification → Type 0
Finite c = ((n : ℕ) × (c.commercial_intent ≡ num n)) × ((n : ℕ) × (c.confidence ≡ num n))

-- A candidate was selected in a mediation that ran.
abbrev pub Selected : Option AuditMediation → Type 0
Selected none = ⊥
Selected (some mediation) = (c : Candidate) × (mediation.selected ≡ some c)

abbrev pub NothingSelected : Option AuditMediation → Type 0
NothingSelected none = Unit {0}
NothingSelected (some mediation) = mediation.selected ≡ none

decide_lem :
    (result : AuditPolicyResult) (mediation : Option AuditMediation)
    → (((decide result mediation).decision ≡ serve)
        ↔ ((result.allowed ≡ true) × Selected mediation))
      × (result.allowed ≡ false
          → (decide result mediation).reason ≡ some (or_else result.reason error))
      × (result.allowed ≡ true
          → NothingSelected mediation
          → (decide result mediation).reason ≡ some no_fill)
unfolding decide
decide_lem result none = ground arith
decide_lem result (some mediation) = ground arith

module _ (platform : Platform) where
  body-outcome :
      (input : BuildAuditRecordInput) (body : AuditRecordBody)
      → build_audit_body platform input ≡ some body
      → (body.content.decision ≡ (decide input.policy_result input.mediation).decision)
        × (body.content.reason ≡ (decide input.policy_result input.mediation).reason)
  unfolding build_audit_body body_with
  body-outcome input body h = ground arith

  -- A record says `serve` exactly when the policy allowed the turn and mediation selected a
  -- candidate; a refused turn carries the policy's reason (`error` if it gave none), and an
  -- allowed one with nothing selected carries `no_fill`.
  pub build_audit_body-decision :
      (input : BuildAuditRecordInput) (body : AuditRecordBody)
      → build_audit_body platform input ≡ some body
      → ((body.content.decision ≡ serve)
          ↔ ((input.policy_result.allowed ≡ true) × Selected input.mediation))
        × (input.policy_result.allowed ≡ false
            → body.content.reason ≡ some (or_else input.policy_result.reason error))
        × (input.policy_result.allowed ≡ true
            → NothingSelected input.mediation
            → body.content.reason ≡ some no_fill)
  build_audit_body-decision input body h =
      let (served, reason, no_ad) = decide_lem input.policy_result input.mediation in
      let (decision_is, reason_is) = body-outcome input body h in
      rw (decision_is, reason_is) (served, reason, no_ad)

  -- Every body meets the refinements of the schema: a served turn has a creative and no reason, a
  -- suppressed one a reason and no creative.
  pub build_audit_body-refines :
      (input : BuildAuditRecordInput) (body : AuditRecordBody)
      → build_audit_body platform input ≡ some body
      → (refines body.content ≡ true) × (body.attestation ≡ unattested)
  unfolding build_audit_body body_with decide refines
  build_audit_body-refines input body h = ground arith

  user_hash_of-total :
      (salt : String) (value : Option String)
      → salt ≢ ""
      → (user : Option String) × (user_hash_of platform salt value ≡ some user)
  unfolding user_hash_of
  user_hash_of-total salt none given = (none, ground (arith, string_eq.test_iff salt ""))
  user_hash_of-total salt (some value) given = elim (Bool-cases (value == "")) [
    | inl blank ↦ (none, ground (arith, string_eq.test_iff salt ""))
    | inr there ↦
        (some (identity_hash platform salt value), ground (arith, string_eq.test_iff salt ""))
  ]

  conversation_id_hash-total :
      (salt id : String)
      → salt ≢ ""
      → id ≢ ""
      → (hash : String) × (conversation_id_hash platform salt id ≡ some hash)
  unfolding conversation_id_hash
  conversation_id_hash-total salt id given named = (
    platform.sha256_prefixed (String.◌++◌ salt id),
    ground (arith, string_eq.test_iff salt "", string_eq.test_iff id ""),
  )

  is_finite_iff : (s : Score) → (is_finite s ≡ true) ↔ ((n : ℕ) × (s ≡ num n))
  is_finite_iff nan = (λ h. cc, λ (n, h). absurd (cc h))
  is_finite_iff (num n) = (λ h. (n, refl), λ h. refl)

  is_json_iff :
      (u : UnsignedAuditRecord) → (is_json u ≡ true) ↔ Finite u.body.content.classification
  unfolding is_json
  is_json_iff u =
      let c = u.body.content.classification in
      let intent = is_finite_iff c.commercial_intent in
      let confidence = is_finite_iff c.confidence in
      (
        λ h.
            let (i, j) = and-eq_true (is_finite c.commercial_intent) (is_finite c.confidence) h in
            (intent.0 i, confidence.0 j),
        λ (i, j). rw (intent.1 i, confidence.1 j) refl,
      )

  sign_record-is_json :
      (u : UnsignedAuditRecord) (signing : AuditSigningKey) (r : AuditRecord)
      → sign_record platform u signing ≡ some r
      → is_json u ≡ true
  unfolding sign_record
  sign_record-is_json u signing r h = ground arith

  sign_record-total :
      (u : UnsignedAuditRecord) (signing : AuditSigningKey)
      → platform.is_key_id signing.key_id ≡ true
      → is_json u ≡ true
      → ((text : String) → (sig : String) × (platform.sign text signing.private_pem ≡ some sig))
      → (r : AuditRecord) × (sign_record platform u signing ≡ some r)
  unfolding sign_record
  sign_record-total u signing key json signs =
      let keyed : UnsignedAuditRecord = record u { key_id = signing.key_id } in
      let hash = compute_record_hash platform keyed [] in
      let (sig, by_key) = signs hash in
      (record { unsigned = keyed; record_hash = hash; signature = sig }, rw (key, json) (rw by_key))

  -- Of a turn whose app has a salt, whose conversation has an id and whose signing key has a valid id
  -- and can sign every text, a record is built exactly if the two scores of its classification are
  -- numbers: on NaN the builder throws.
  pub build_audit_record-total_iff :
      (input : BuildAuditRecordInput)
      → input.app.salt ≢ ""
      → input.conversation_id ≢ ""
      → platform.is_key_id input.signing.key_id ≡ true
      → ((text : String)
          → (sig : String) × (platform.sign text input.signing.private_pem ≡ some sig))
      → ((r : AuditRecord) × (build_audit_record platform input ≡ some r))
        ↔ Finite input.classification
  unfolding build_audit_record build_audit_body
  build_audit_record-total_iff input salt id key signs =
      let (conversation, hashed) = conversation_id_hash-total _ _ salt id in
      let (user, named) = user_hash_of-total _ input.user_hash salt in
      let u : UnsignedAuditRecord = record {
        body = body_with platform input conversation user;
        prev_hash = input.prev_hash;
        key_id = input.signing.key_id;
      } in
      let scores = is_json_iff u in
      (
        λ (r, built).
            unfold body_with in
            (scores.0
              (sign_record-is_json u input.signing r (ground (arith, built, hashed, named)))),
        λ finite.
            let (r, signed) =
              sign_record-total u input.signing key (scores.1 (unfold body_with in finite)) signs in
            (r, ground (arith, hashed, named, signed)),
      )

  -- What a built record is signed from.
  pub build_audit_record-parts :
      (input : BuildAuditRecordInput) (r : AuditRecord)
      → build_audit_record platform input ≡ some r
      → (body : AuditRecordBody) × (build_audit_body platform input ≡ some body)
        × (sign_record platform
              (record { body = body; prev_hash = input.prev_hash; key_id = input.signing.key_id })
              input.signing
            ≡ some r)
  unfolding build_audit_record
  build_audit_record-parts input r h = ground arith

  pub build_audit_body-copies :
      (input : BuildAuditRecordInput) (body : AuditRecordBody)
      → build_audit_body platform input ≡ some body
      → (body.content.app_id ≡ input.app.app_id)
        × (body.content.disclosure ≡ input.policy.disclosure)
  unfolding build_audit_body body_with
  build_audit_body-copies input body h = ground arith

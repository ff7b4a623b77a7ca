-- ===== src/Audit/Tests.antt =====
-- The audit's theorems at one suppressed turn and its attestation.
use adgate.Prelude.{
  ◌≡◌, ◌≢◌, ◌↔◌, refl, true, false, none, some, [], ◌∷◌, string_eq, or_else, arith,
}
use adgate.Schema.{error, no_fill}
use adgate.Audit.Record.{
  AuditRecord, AuditRecordBody, UnsignedAuditRecord, serve, suppress, refines, content_of,
}
use adgate.Audit.Chain.{
  genesis, next_prev_hash, compute_record_hash, record_hash_input, sign_record, is_json,
  ring_lookup, PublicKeyRing,
}
use adgate.Audit.Build.{
  build_audit_body, build_audit_record, body_with, conversation_id_hash, user_hash_of, decide,
  unattested,
}
use adgate.Audit.Build.Laws.{
  Selected, NothingSelected, build_audit_body-decision, build_audit_body-refines,
  build_audit_record-total_iff, Finite,
}
use adgate.Audit.Attest.{attest, attested, attested_unsigned, parses, is_unattested}
use adgate.Audit.Checks.{undefined}
use adgate.Audit.Verify.{verify, object, Loaded}
use adgate.Audit.Verify.Valid.{Verified, verify_iff, CreativeStored}
use adgate.Audit.Verify.RoundTrip.{KeyPair, plain_context, Sound, LatestOf}
use adgate.Audit.Verify.Built.{build_audit_record-verify}
use adgate.Audit.Verify.Attested.{attested_context, attest-verify}
use adgate.Samples.{platform, signing, base}

abbrev ring : PublicKeyRing
ring = ("k1", "public") ∷ []

pair : KeyPair platform ring signing
unfolding ring_lookup
pair = record {
  pem = "public";
  listed = refl;
  verifies = λ text sig h. (string_eq.test_iff text sig).1 (ground arith);
}

abbrev body : AuditRecordBody
body = body_with platform base "sha256:saltconv" (some "sha256:saltu1")

body_is_built : build_audit_body platform base ≡ some body
unfolding build_audit_body conversation_id_hash user_hash_of
body_is_built = refl

abbrev signed : UnsignedAuditRecord → AuditRecord
signed u = record {
  unsigned = u;
  record_hash = compute_record_hash platform u [];
  signature = compute_record_hash platform u [];
}

abbrev built : AuditRecord
built = signed (record { body = body; prev_hash = genesis; key_id = "k1" })

record_is_built : build_audit_record platform base ≡ some built
unfolding build_audit_record build_audit_body conversation_id_hash user_hash_of sign_record is_json
    body_with
record_is_built = refl

decision_example :
    ((body.content.decision ≡ serve)
      ↔ ((base.policy_result.allowed ≡ true) × Selected base.mediation))
    × (base.policy_result.allowed ≡ false
        → body.content.reason ≡ some (or_else base.policy_result.reason error))
    × (base.policy_result.allowed ≡ true
        → NothingSelected base.mediation
        → body.content.reason ≡ some no_fill)
decision_example = build_audit_body-decision platform base body body_is_built

refines_example : (refines body.content ≡ true) × (body.attestation ≡ unattested)
refines_example = build_audit_body-refines platform base body body_is_built

salt_is_given : base.app.salt ≢ ""
salt_is_given h = cc

conversation_is_given : base.conversation_id ≢ ""
conversation_is_given h = cc

total_example :
    ((r : AuditRecord) × (build_audit_record platform base ≡ some r)) ↔ Finite base.classification
total_example =
    build_audit_record-total_iff platform base salt_is_given conversation_is_given refl
      (λ text. (text, refl))

abbrev loaded : Loaded
loaded = object built []

valid_example :
    ((verify platform ring loaded (plain_context none undefined)).valid ≡ true)
    ↔ Verified platform ring built [] (plain_context none undefined)
valid_example = verify_iff platform ring built [] (plain_context none undefined)

genesis_follows_none : base.prev_hash ≡ next_prev_hash none
unfolding next_prev_hash
genesis_follows_none = refl

nothing_is_stored : CreativeStored platform (content_of built).creative undefined
unfolding body_with decide
nothing_is_stored = tt

built_example :
    Sound platform signing ring pair built none undefined
    × ((content_of built).decision ≡ suppress
        → (verify platform ring (object built []) (plain_context none undefined)).valid ≡ true)
built_example =
    build_audit_record-verify platform ring base pair none undefined built genesis_follows_none tt
      (refl, refl, refl) record_is_built refl nothing_is_stored

built-Sound : Sound platform signing ring pair built none undefined
built-Sound =
    (build_audit_record-verify platform ring base pair none undefined built genesis_follows_none tt
      (refl, refl, refl) record_is_built refl nothing_is_stored).0

abbrev attestation : AuditRecord
attestation =
    signed (record (attested_unsigned built "sha256:out" "2026-01-01T00:00:09Z" built.record_hash) {
      key_id = "k1";
    })

attestation_is_signed :
    attest platform built "sha256:out" "2026-01-01T00:00:09Z" built.record_hash signing
    ≡ attested attestation
unfolding attest parses is_unattested sign_record body_with decide refines compute_record_hash
    record_hash_input attested_unsigned is_json
attestation_is_signed = refl

built_is_latest : LatestOf (some built) (content_of built).app_id
unfolding compute_record_hash record_hash_input body_with
built_is_latest = (refl, λ h. cc)

attest_example :
    (verify platform ring
      (object attestation [])
      (attested_context built none (some built) undefined)).valid
    ≡ true
attest_example =
    attest-verify platform signing ring pair built attestation none built undefined "sha256:out"
      "2026-01-01T00:00:09Z" built-Sound built_is_latest attestation_is_signed refl

-- ===== src/Audit/Verify/Built.antt =====
-- The records that the pipeline builds, under verification.
use adgate.Prelude.{◌≡◌, ap, subst, ◌∙◌, true, Option, some, []}
use adgate.Audit.Record.{AuditRecord, content_of, attestation_of, suppress}
use adgate.Audit.Chain.{Platform, PublicKeyRing, next_prev_hash, sign_record}
use adgate.Audit.Build.{BuildAuditRecordInput, build_audit_record, unattested}
use adgate.Audit.Build.Laws.{
  build_audit_record-parts, build_audit_body-refines, build_audit_body-copies,
}
use adgate.Audit.Attest.{is_unattested}
use adgate.Audit.Checks.{StoredHash}
use adgate.Audit.Verify.{object, verify}
use adgate.Audit.Verify.Valid.{CreativeStored, Disclosed}
use adgate.Audit.Verify.RoundTrip.{
  KeyPair, LatestOf, Sound, sign_record-parts, sign_record-Sound, Sound-suppress, plain_context,
}

module _ (platform : Platform) (ring : PublicKeyRing) (input : BuildAuditRecordInput)
    (pair : KeyPair platform ring input.signing) where
  -- A record built for an evaluation and chained to the app's latest record (which has a real hash),
  -- under a disclosure as the policy has to have it, with fields of the right formats and the stored
  -- hash of its creative, passes the checks that do not look at the attestation; if the turn was
  -- suppressed it verifies at once.
  pub build_audit_record-verify :
      (previous : Option AuditRecord) (creative : StoredHash) (r : AuditRecord)
      → input.prev_hash ≡ next_prev_hash previous
      → LatestOf previous input.app.app_id
      → Disclosed platform input.policy.disclosure
      → build_audit_record platform input ≡ some r
      → platform.formats_ok r ≡ true
      → CreativeStored platform (content_of r).creative creative
      → Sound platform input.signing ring pair r previous creative
        × ((content_of r).decision ≡ suppress
            → (verify platform ring (object r []) (plain_context previous creative)).valid ≡ true)
  unfolding is_unattested
  build_audit_record-verify previous creative r prev latest discloses h formats named =
      let (body, built, signed) = build_audit_record-parts platform input r h in
      let (consistent, fresh) = build_audit_body-refines platform input body built in
      let (app, disclosure) = build_audit_body-copies platform input body built in
      let (same, hashed, by_key) = sign_record-parts platform input.signing _ r signed in
      let content : content_of r ≡ body.content = ap (λ x. x.body.content) same in
      let attestation : attestation_of r ≡ unattested = ap (λ x. x.body.attestation) same ∙ fresh in
      let sound =
        sign_record-Sound platform input.signing ring pair body input.signing.key_id previous
          creative r
          (subst
            (λ p.
              sign_record platform
                (record { body = body; prev_hash = p; key_id = input.signing.key_id }) input.signing
              ≡ some r)
            prev signed)
          (rw app latest) consistent formats
          (subst (λ c. CreativeStored platform c.creative creative) content named)
          (rw disclosure discloses) in
      (
        sound,
        λ suppressed.
            Sound-suppress platform input.signing ring pair r previous creative sound
              (rw attestation) suppressed,
      )

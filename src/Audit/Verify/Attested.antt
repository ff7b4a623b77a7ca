-- ===== src/Audit/Verify/Attested.antt =====
-- Attested records under verification, each with the record that it supersedes.
use adgate.Prelude.{
  String, ◌≡◌, refl, sym, ap, subst, beq_self, inl, inr, true, Option, none, some, [], arith,
  string_eq,
}
use adgate.Audit.Record.{AuditRecord, UnsignedAuditRecord, refines, content_of, attestation_of}
use adgate.Audit.Chain.{Platform, AuditSigningKey, PublicKeyRing, next_prev_hash, sign_record}
use adgate.Audit.Attest.{attested, attest, attested_unsigned, parses, is_attested, is_unattested}
use adgate.Audit.Checks.{StoredHash, undefined, attests_record}
use adgate.Audit.Verify.{object, VerifyContext, nested_in, nested_context, verify}
use adgate.Audit.Verify.Valid.{Superseding, verify_iff}
use adgate.Audit.Verify.RoundTrip.{
  KeyPair, LatestOf, predecessor, plain_context, Sound, Superseding-none, next_prev_hash-Chained,
  sign_record-parts, sign_record-Signed,
}

-- The context in which an attestation is verified: its own predecessor, the original that it
-- supersedes, and the original's predecessor.
abbrev pub attested_context :
    AuditRecord → Option AuditRecord → Option AuditRecord → StoredHash → VerifyContext
attested_context original previous latest creative =
    nested_in
      (record {
        prev_record = predecessor latest;
        stored_creative_hash = creative;
        superseded_by = none;
        superseded_record = object original [];
        verify_superseded = true;
      })
      (plain_context previous undefined)

module _ (platform : Platform) (signing : AuditSigningKey) (ring : PublicKeyRing)
    (pair : KeyPair platform ring signing) where
  -- What a successful `attest` has checked and signed.
  attest-parts :
      (original r : AuditRecord) (output now prev_hash : String)
      → attest platform original output now prev_hash signing ≡ attested r
      → (parses platform original ≡ true)
        × (is_unattested (attestation_of original) ≡ true)
        × (sign_record platform (attested_unsigned original output now prev_hash) signing ≡ some r)
  unfolding attest
  attest-parts original r output now prev_hash h = ground arith

  unattested_supersedes :
      (r : AuditRecord)
      → is_unattested (attestation_of r) ≡ true
      → (attestation_of r).supersedes_hash ≡ none
  unfolding is_unattested
  unattested_supersedes r fresh = ground arith

  -- The original verifies under its attestation, served or not.
  attested_original :
      (original r : AuditRecord) (previous latest : Option AuditRecord) (creative : StoredHash)
      → Sound platform signing ring pair original previous creative
      → is_unattested (attestation_of original) ≡ true
      → attests_record original (some r) ≡ true
      → (verify platform ring
          (object original [])
          (nested_context r (attested_context original previous latest creative))).valid
        ≡ true
  unfolding nested_context is_unattested
  attested_original original r previous latest creative s fresh attests =
      (verify_iff platform ring original [] _).1 (record {
        parsed = s.parsed;
        hashed = s.hashed;
        chained = s.chained;
        signed = s.signed;
        creative = s.stored_creative;
        disclosed = s.disclosed;
        separated = inr (fresh, inl attests);
        superseding =
            Superseding-none platform signing ring pair original
              (nested_context r (attested_context original previous latest creative)) _
              (ground arith);
      })

  -- What an attestation is to its original.
  attests :
      (original r : AuditRecord) (output now prev_hash : String)
      → r.unsigned
        ≡ record (attested_unsigned original output now prev_hash) { key_id = signing.key_id }
      → (attests_record original (some r) ≡ true)
        × (content_of r ≡ content_of original)
        × ((attestation_of r).supersedes_hash ≡ some original.record_hash)
        × (is_attested (attestation_of r) ≡ true)
        × (r.unsigned.prev_hash ≡ prev_hash)
  unfolding attested_unsigned attests_record is_attested
  attests original r output now prev_hash same = ground (
    arith,
    beq_self original.record_hash,
    beq_self (content_of original).id,
    beq_self (content_of original).app_id,
  )

  -- An attestation of a sound record, chained to the app's latest record (which has a real hash) and
  -- with fields of the right formats, verifies together with the record that it supersedes.
  pub attest-verify :
      (original r : AuditRecord) (previous : Option AuditRecord) (latest : AuditRecord)
      (creative : StoredHash) (output now : String)
      → Sound platform signing ring pair original previous creative
      → LatestOf (some latest) (content_of original).app_id
      → attest platform original output now latest.record_hash signing ≡ attested r
      → platform.formats_ok r ≡ true
      → (verify platform ring
          (object r [])
          (attested_context original previous (some latest) creative)).valid
        ≡ true
  unfolding parses next_prev_hash
  attest-verify original r previous latest creative output now s is_latest h formats =
      let (parsed, fresh, signed) = attest-parts original r output now latest.record_hash h in
      let u : UnsignedAuditRecord = attested_unsigned original output now latest.record_hash in
      let (same, hashed, by_key) = sign_record-parts platform signing u r signed in
      let (proves, content, hash, whole, prev) =
        attests original r output now latest.record_hash same in
      let ctx : VerifyContext = attested_context original previous (some latest) creative in
      (verify_iff platform ring r [] ctx).1 (record {
        parsed = ground (arith, formats, ap refines content, s.parsed);
        hashed = hashed;
        chained =
            next_prev_hash-Chained platform signing ring pair r (some latest) (rw content is_latest)
              prev;
        signed = sign_record-Signed platform signing ring pair u r signed;
        creative = rw content s.stored_creative;
        disclosed = rw content s.disclosed;
        separated = inl whole;
        superseding = subst (Superseding platform ring r ctx) (sym hash) (
          refl,
          ap (λ c. c.id) (sym content),
          ap (λ c. c.app_id) (sym content),
          unattested_supersedes original fresh,
          s.parsed,
          ap platform.canonical_body (sym content),
          inr (attested_original original r previous (some latest) creative s fresh proves),
        );
      })

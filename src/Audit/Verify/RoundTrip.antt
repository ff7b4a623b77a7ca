-- ===== src/Audit/Verify/RoundTrip.antt =====
-- Signed records under the checks of verification that do not look at the attestation.
use adgate.Prelude.{
  String, ◌≡◌, ◌≢◌, sym, ap, ◌∙◌, inr, true, Option, none, some, [], arith, string_eq,
}
use adgate.Audit.Record.{
  AuditRecord, UnsignedAuditRecord, AuditRecordBody, refines, content_of, attestation_of, suppress,
}
use adgate.Audit.Chain.{
  Platform, AuditSigningKey, PublicKeyRing, genesis, next_prev_hash, ring_lookup,
  compute_record_hash, sign_record,
}
use adgate.Audit.Attest.{parses, is_unattested}
use adgate.Audit.Checks.{PreviousRecord, no_previous, previous_record, StoredHash}
use adgate.Audit.Verify.{object, not_object, VerifyContext, last, verify}
use adgate.Audit.Verify.Valid.{Chained, Signed, CreativeStored, Disclosed, Superseding, verify_iff}

-- The public key belongs to the signing key, is in the ring under its id, and verifies what the
-- signing key signs.
pub record KeyPair (platform : Platform) (ring : PublicKeyRing) (signing : AuditSigningKey)
    : Type 0 where
  pub pem : String
  pub listed : ring_lookup ring signing.key_id ≡ some pem
  pub verifies :
      (text sig : String)
      → platform.sign text signing.private_pem ≡ some sig
      → platform.verify_with_public_key text sig pem ≡ true

-- The predecessor as verification is handed it.
abbrev pub predecessor : Option AuditRecord → PreviousRecord
predecessor none = no_previous
predecessor (some r) = previous_record r

-- The latest record of the app, if there is one, is of this app and has a real hash.
abbrev pub LatestOf : Option AuditRecord → String → Type 0
LatestOf none app_id = Unit {0}
LatestOf (some latest) app_id =
    ((content_of latest).app_id ≡ app_id) × (latest.record_hash ≢ genesis)

-- The context of a record that nothing supersedes and that supersedes nothing.
abbrev pub plain_context : Option AuditRecord → StoredHash → VerifyContext
plain_context previous creative = last (record {
  prev_record = predecessor previous;
  stored_creative_hash = creative;
  superseded_by = none;
  superseded_record = not_object;
  verify_superseded = true;
})

module _ (platform : Platform) (signing : AuditSigningKey) where
  -- A signed record is the given one under the id of the key, with its own hash.
  pub sign_record-parts :
      (u : UnsignedAuditRecord) (r : AuditRecord)
      → sign_record platform u signing ≡ some r
      → (r.unsigned ≡ record u { key_id = signing.key_id })
        × (compute_record_hash platform r.unsigned [] ≡ r.record_hash)
        × (platform.sign r.record_hash signing.private_pem ≡ some r.signature)
  unfolding sign_record
  sign_record-parts u r h = ground arith

  module _ (ring : PublicKeyRing) (pair : KeyPair platform ring signing) where
    pub sign_record-Signed :
        (u : UnsignedAuditRecord) (r : AuditRecord)
        → sign_record platform u signing ≡ some r
        → Signed platform ring r
    sign_record-Signed u r h =
        let (same, hashed, by_key) = sign_record-parts u r h in
        (pair.pem, ground (arith, pair.listed), pair.verifies r.record_hash r.signature by_key)

    -- The six checks that do not look at the attestation.
    pub record Sound (r : AuditRecord) (previous : Option AuditRecord) (creative : StoredHash)
        : Type 0 where
      pub parsed : parses platform r ≡ true
      pub hashed : compute_record_hash platform r.unsigned [] ≡ r.record_hash
      pub chained : Chained platform r (predecessor previous)
      pub signed : Signed platform ring r
      pub stored_creative : CreativeStored platform (content_of r).creative creative
      pub disclosed : Disclosed platform (content_of r).disclosure

    pub next_prev_hash-Chained :
        (r : AuditRecord) (previous : Option AuditRecord)
        → LatestOf previous (content_of r).app_id
        → r.unsigned.prev_hash ≡ next_prev_hash previous
        → Chained platform r (predecessor previous)
    unfolding next_prev_hash
    next_prev_hash-Chained r none latest e = e
    next_prev_hash-Chained r (some prev) (same, real) e = (λ g. real (sym e ∙ g), sym e, same)

    -- A body that is chained to the app's latest record and signed passes these checks, if it is
    -- consistent, discloses the ad and names the stored creative.
    pub sign_record-Sound :
        (body : AuditRecordBody) (key_id : String) (previous : Option AuditRecord)
        (creative : StoredHash) (r : AuditRecord)
        → sign_record platform
            (record { body = body; prev_hash = next_prev_hash previous; key_id = key_id })
            signing
          ≡ some r
        → LatestOf previous body.content.app_id
        → refines body.content ≡ true
        → platform.formats_ok r ≡ true
        → CreativeStored platform body.content.creative creative
        → Disclosed platform body.content.disclosure
        → Sound r previous creative
    unfolding parses
    sign_record-Sound body key_id previous creative r h latest consistent formats is_stored
          discloses =
        let u : UnsignedAuditRecord = record {
          body = body;
          prev_hash = next_prev_hash previous;
          key_id = key_id;
        } in
        let (same, hashed, by_key) = sign_record-parts u r h in
        let content : content_of r ≡ body.content = ap (λ x. x.body.content) same in
        record {
          parsed = ground (arith, formats, ap refines content ∙ consistent);
          hashed = hashed;
          chained =
              next_prev_hash-Chained r previous (rw content latest) (ap (λ x. x.prev_hash) same);
          signed = sign_record-Signed u r h;
          stored_creative = rw content is_stored;
          disclosed = rw content discloses;
        }

    pub Superseding-none :
        (r : AuditRecord) (ctx : VerifyContext) (hash : Option String)
        → hash ≡ none
        → Superseding platform ring r ctx hash
    Superseding-none r ctx none e = tt
    Superseding-none r ctx (some hash) e = cc

    -- Such a record verifies at once if its turn was suppressed and it is not attested.
    pub Sound-suppress :
        (r : AuditRecord) (previous : Option AuditRecord) (creative : StoredHash)
        → Sound r previous creative
        → is_unattested (attestation_of r) ≡ true
        → (content_of r).decision ≡ suppress
        → (verify platform ring (object r []) (plain_context previous creative)).valid ≡ true
    unfolding is_unattested
    Sound-suppress r previous creative s fresh suppressed =
        (verify_iff platform ring r [] _).1 (record {
          parsed = s.parsed;
          hashed = s.hashed;
          chained = s.chained;
          signed = s.signed;
          creative = s.stored_creative;
          disclosed = s.disclosed;
          separated = inr (fresh, inr suppressed);
          superseding = Superseding-none r (plain_context previous creative) _ (ground arith);
        })

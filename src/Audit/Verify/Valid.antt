-- ===== src/Audit/Verify/Valid.antt =====
-- What a valid verification means, check by check and as a whole.
use adgate.Prelude.{
  ℕ, ◌≤◌, String, ◌≡◌, ◌≢◌, refl, ◌↔◌, ◌⊎◌, Bool, true, false, Option, none, some, arith, string_eq,
}
use adgate.Schema.{Disclosure}
use adgate.Audit.Record.{AuditRecord, AuditCreative, suppress, content_of, attestation_of}
use adgate.Audit.Chain.{
  Platform, Extras, PublicKeyRing, genesis, compute_record_hash, ring_lookup, ring_verify,
}
use adgate.Audit.Attest.{parses, is_attested, is_unattested}
use adgate.Audit.Checks.{
  PreviousRecord, no_previous, pruned_predecessor, previous_record, not_an_object, StoredHash,
  undefined, null, stored, check_record_hash, check_chain, check_signature, check_content_hash,
  check_creative_hash, check_disclosure, attests_record, check_separation,
}
use adgate.Audit.Verify.{
  Loaded, not_object, object, VerifyContext, VerifyResponse, fields, nested_context, check_prior,
  check_supersedes_hash, check_supersedes, verify_step, failed_response, verify,
}
use adgate.Audit.Verify.Depth.{verify_lem}

-- The separation of the slot from the answer is attested, by this record or by the one that
-- supersedes it, or there was no slot.
abbrev pub Separated : AuditRecord → Option AuditRecord → Type 0
Separated r by =
    (is_attested (attestation_of r) ≡ true)
    ⊎ ((is_unattested (attestation_of r) ≡ true)
        × ((attests_record r by ≡ true) ⊎ ((content_of r).decision ≡ suppress)))

module _ (platform : Platform) where
  open platform use {verify_with_public_key, date_parse, is_blank, canonical_body}

  -- The place in the app's chain: the genesis has no predecessor; any other record names the hash
  -- of its positional predecessor, of the same app, or is younger than the retention cutoff.
  abbrev pub Chained : AuditRecord → PreviousRecord → Type 0
  Chained r no_previous = r.unsigned.prev_hash ≡ genesis
  Chained r not_an_object = ⊥
  Chained r (pruned_predecessor cutoff) =
      (r.unsigned.prev_hash ≢ genesis)
      × ((t : ℕ) × (c : ℕ) × (date_parse (content_of r).ts ≡ some t)
          × (date_parse cutoff ≡ some c)
          × (c ≤ t))
  Chained r (previous_record prev) =
      (r.unsigned.prev_hash ≢ genesis)
      × (prev.record_hash ≡ r.unsigned.prev_hash)
      × ((content_of prev).app_id ≡ (content_of r).app_id)

  abbrev pub Signed : PublicKeyRing → AuditRecord → Type 0
  Signed ring r =
      (pem : String) × (ring_lookup ring r.unsigned.key_id ≡ some pem)
      × (verify_with_public_key r.record_hash r.signature pem ≡ true)

  abbrev pub CreativeStored : Option AuditCreative → StoredHash → Type 0
  CreativeStored none hash = Unit {0}
  CreativeStored (some creative) undefined = ⊥
  CreativeStored (some creative) null = ⊥
  CreativeStored (some creative) (stored hash) = (hash ≢ "") × (hash ≡ creative.content_hash)

  abbrev pub Disclosed : Disclosure → Type 0
  Disclosed d =
      (is_blank d.label ≡ false) × (d.position ≡ "after_answer") × (d.style ≡ "separate_block")

  check_chain_iff :
      (r : AuditRecord) (prev : PreviousRecord)
      → ((check_chain platform r prev).ok ≡ true) ↔ Chained r prev
  unfolding check_chain
  check_chain_iff r no_previous = ground (arith, string_eq.test_iff r.unsigned.prev_hash genesis)
  check_chain_iff r not_an_object = ground (arith, string_eq.test_iff r.unsigned.prev_hash genesis)
  check_chain_iff r (pruned_predecessor cutoff) =
      ground (arith, string_eq.test_iff r.unsigned.prev_hash genesis)
  check_chain_iff r (previous_record prev) = ground (
    arith,
    string_eq.test_iff r.unsigned.prev_hash genesis,
    string_eq.test_iff prev.record_hash r.unsigned.prev_hash,
    string_eq.test_iff (content_of prev).app_id (content_of r).app_id,
  )

  check_signature_iff :
      (ring : PublicKeyRing) (r : AuditRecord)
      → ((check_signature platform r ring).ok ≡ true) ↔ Signed ring r
  unfolding check_signature ring_verify
  check_signature_iff ring r = ground arith

  check_content_hash_iff :
      (creative : Option AuditCreative) (hash : StoredHash)
      → ((check_content_hash platform creative hash).ok ≡ true) ↔ CreativeStored creative hash
  unfolding check_content_hash
  check_content_hash_iff none hash = ground arith
  check_content_hash_iff (some creative) undefined = ground arith
  check_content_hash_iff (some creative) null = ground arith
  check_content_hash_iff (some creative) (stored hash) =
      ground (arith, string_eq.test_iff hash "", string_eq.test_iff hash creative.content_hash)

  check_disclosure_iff : (d : Disclosure) → ((check_disclosure platform d).ok ≡ true) ↔ Disclosed d
  unfolding check_disclosure
  check_disclosure_iff d = ground (
    arith,
    string_eq.test_iff d.position "after_answer",
    string_eq.test_iff d.style "separate_block",
  )

check_separation_iff :
    (r : AuditRecord) (by : Option AuditRecord)
    → ((check_separation r by).ok ≡ true) ↔ Separated r by
unfolding check_separation
check_separation_iff r by = ground arith

module _ (platform : Platform) (ring : PublicKeyRing) where
  open platform use {canonical_body}

  -- The record is a faithful copy of the one that it supersedes: that one is given, is no
  -- attestation itself, has the same identity and content, and verifies (unless not asked for).
  abbrev pub Copies : AuditRecord → VerifyContext → String → Loaded → Type 0
  Copies r ctx hash not_object = ⊥
  Copies r ctx hash (object prior extras) =
      (prior.record_hash ≡ hash)
      × ((content_of prior).id ≡ (content_of r).id)
      × ((content_of prior).app_id ≡ (content_of r).app_id)
      × ((attestation_of prior).supersedes_hash ≡ none)
      × (parses platform prior ≡ true)
      × (canonical_body (content_of prior) ≡ canonical_body (content_of r))
      × (((fields ctx).verify_superseded ≡ false)
          ⊎ ((verify platform ring (object prior extras) (nested_context r ctx)).valid ≡ true))

  abbrev pub Superseding : AuditRecord → VerifyContext → Option String → Type 0
  Superseding r ctx none = Unit {0}
  Superseding r ctx (some hash) = Copies r ctx hash (fields ctx).superseded_record

  check_prior_iff :
      (r : AuditRecord) (hash : String) (prior : AuditRecord) (deep : Bool)
      (result : VerifyResponse)
      → ((check_prior platform r hash prior deep result).ok ≡ true) ↔ (
          (prior.record_hash ≡ hash)
          × ((content_of prior).id ≡ (content_of r).id)
          × ((content_of prior).app_id ≡ (content_of r).app_id)
          × ((attestation_of prior).supersedes_hash ≡ none)
          × (parses platform prior ≡ true)
          × (canonical_body (content_of prior) ≡ canonical_body (content_of r))
          × ((deep ≡ false) ⊎ (result.valid ≡ true)))
  unfolding check_prior
  check_prior_iff r hash prior deep result = ground (
    arith,
    string_eq.test_iff prior.record_hash hash,
    string_eq.test_iff (content_of prior).id (content_of r).id,
    string_eq.test_iff (content_of prior).app_id (content_of r).app_id,
    string_eq.test_iff (canonical_body (content_of prior)) (canonical_body (content_of r)),
  )

  check_hash_iff :
      (r : AuditRecord) (ctx : VerifyContext) (hash : Option String) (loaded : Loaded)
      → (fields ctx).superseded_record ≡ loaded
      → ((check_supersedes_hash platform r ctx (verify platform ring) hash).ok ≡ true)
        ↔ Superseding r ctx hash
  unfolding check_supersedes_hash
  check_hash_iff r ctx none loaded e = (λ h. tt, λ h. refl)
  check_hash_iff r ctx (some hash) not_object e =
      rw (e, check_supersedes_hash) (λ h. cc, λ h. absurd h)
  check_hash_iff r ctx (some hash) (object prior extras) e =
      rw (e, check_supersedes_hash)
        (check_prior_iff r hash prior (fields ctx).verify_superseded
          (verify platform ring (object prior extras) (nested_context r ctx)))

  pub record Verified (r : AuditRecord) (extras : Extras) (ctx : VerifyContext) : Type 0 where
    pub parsed : parses platform r ≡ true
    pub hashed : compute_record_hash platform r.unsigned extras ≡ r.record_hash
    pub chained : Chained platform r (fields ctx).prev_record
    pub signed : Signed platform ring r
    pub creative : CreativeStored platform (content_of r).creative (fields ctx).stored_creative_hash
    pub disclosed : Disclosed platform (content_of r).disclosure
    pub separated : Separated r (fields ctx).superseded_by
    pub superseding : Superseding r ctx (attestation_of r).supersedes_hash

  -- The eight checks, apart.
  valid_parts :
      (r : AuditRecord) (extras : Extras) (ctx : VerifyContext)
      → ((verify platform ring (object r extras) ctx).valid ≡ true) ↔ (
          (parses platform r ≡ true)
          × ((check_record_hash platform r extras).ok ≡ true)
          × ((check_chain platform r (fields ctx).prev_record).ok ≡ true)
          × ((check_signature platform r ring).ok ≡ true)
          × ((check_creative_hash platform r (fields ctx).stored_creative_hash).ok ≡ true)
          × ((check_disclosure platform (content_of r).disclosure).ok ≡ true)
          × ((check_separation r (fields ctx).superseded_by).ok ≡ true)
          × ((check_supersedes platform r ctx (verify platform ring)).ok ≡ true))
  unfolding verify_step failed_response
  valid_parts r extras ctx = rw (verify_lem platform ring (object r extras) ctx) (ground arith)

  hashed_iff :
      (r : AuditRecord) (extras : Extras)
      → ((check_record_hash platform r extras).ok ≡ true)
        ↔ (compute_record_hash platform r.unsigned extras ≡ r.record_hash)
  unfolding check_record_hash
  hashed_iff r extras =
      ground
        (arith, string_eq.test_iff (compute_record_hash platform r.unsigned extras) r.record_hash)

  creative_iff :
      (r : AuditRecord) (hash : StoredHash)
      → ((check_creative_hash platform r hash).ok ≡ true)
        ↔ CreativeStored platform (content_of r).creative hash
  unfolding check_creative_hash
  creative_iff r hash = check_content_hash_iff platform (content_of r).creative hash

  Superseding-iff :
      (r : AuditRecord) (ctx : VerifyContext)
      → ((check_supersedes platform r ctx (verify platform ring)).ok ≡ true)
        ↔ Superseding r ctx (attestation_of r).supersedes_hash
  unfolding check_supersedes
  Superseding-iff r ctx = check_hash_iff r ctx (attestation_of r).supersedes_hash _ refl

  -- A record verifies exactly when it parses, its hash is that of its content as loaded, it has its
  -- place in the app's chain, it is signed under a key of the ring, its creative is the stored one,
  -- it discloses the ad, the separation is attested and it copies what it supersedes faithfully.
  pub verify_iff :
      (r : AuditRecord) (extras : Extras) (ctx : VerifyContext)
      → ((verify platform ring (object r extras) ctx).valid ≡ true) ↔ Verified r extras ctx
  verify_iff r extras ctx = (
    λ h.
        let (parsed, hashed, chained, signed, creative, disclosed, separated, superseding) =
          (valid_parts r extras ctx).0 h in
        record {
          parsed = parsed;
          hashed = (hashed_iff r extras).0 hashed;
          chained = (check_chain_iff platform r (fields ctx).prev_record).0 chained;
          signed = (check_signature_iff platform ring r).0 signed;
          creative = (creative_iff r (fields ctx).stored_creative_hash).0 creative;
          disclosed = (check_disclosure_iff platform (content_of r).disclosure).0 disclosed;
          separated = (check_separation_iff r (fields ctx).superseded_by).0 separated;
          superseding = (Superseding-iff r ctx).0 superseding;
        },
    λ v. (valid_parts r extras ctx).1 (
      v.parsed,
      (hashed_iff r extras).1 v.hashed,
      (check_chain_iff platform r (fields ctx).prev_record).1 v.chained,
      (check_signature_iff platform ring r).1 v.signed,
      (creative_iff r (fields ctx).stored_creative_hash).1 v.creative,
      (check_disclosure_iff platform (content_of r).disclosure).1 v.disclosed,
      (check_separation_iff r (fields ctx).superseded_by).1 v.separated,
      (Superseding-iff r ctx).1 v.superseding,
    ),
  )

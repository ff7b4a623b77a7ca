-- ===== src/Audit/Checks.antt =====
-- packages/core/src/audit/verify-checks.ts: the checks of a record, one function for each. A
-- constructor of `VerifyDetail` stands for the text that the source writes.
use adgate.Prelude.{
  ℕ, String, Bool, true, false, ◌&&◌, not, Option, none, some, List, if◌then◌else◌, leb, ◌==◌,
  string_eq,
}
use adgate.Schema.{Disclosure}
use adgate.Audit.Record.{
  AuditRecord, Decision, serve, suppress, AuditCreative, content_of, attestation_of,
}
use adgate.Audit.Chain.{
  Platform, Extras, PublicKeyRing, KeyRingVerification, verified, unknown_key_id, bad_signature,
  genesis, compute_record_hash, ring_verify,
}
use adgate.Audit.Attest.{is_attested, is_unattested}

pub data VerifyCheckName : Type 0 where
  schema record_hash chain signature creative_hash disclosure_present : VerifyCheckName
  separation_attested supersedes : VerifyCheckName

pub data VerifyDetail : Type 0 where
  skipped not_applicable hash_mismatch from_genesis pruned pruned_before_cutoff : VerifyDetail
  genesis_with_previous previous_missing previous_mismatch previous_other_app : VerifyDetail
  stored_creative_missing creative_mismatch label_empty not_attested : VerifyDetail
  attestation_incomplete attested_by_superseding superseded_missing : VerifyDetail
  superseded_mismatch superseded_other_id superseded_other_app : VerifyDetail
  superseded_is_attestation body_mismatch superseded_not_verified : VerifyDetail
  superseded_verified superseded_schema schema_issues : VerifyDetail
  no_such_key wrong_signature : VerifyDetail
  by_key position_is style_is : String → VerifyDetail
  superseded_invalid : List VerifyCheckName → VerifyDetail

pub record VerifyCheck : Type 0 where
  pub name : VerifyCheckName
  pub ok : Bool
  pub detail : Option VerifyDetail

abbrev pub passes : VerifyCheckName → VerifyCheck
passes name = record { name = name; ok = true; detail = none }

abbrev pub passes_as : VerifyCheckName → VerifyDetail → VerifyCheck
passes_as name detail = record { name = name; ok = true; detail = some detail }

abbrev pub fails : VerifyCheckName → VerifyDetail → VerifyCheck
fails name detail = record { name = name; ok = false; detail = some detail }

-- The positional predecessor, as it is handed in.
pub data PreviousRecord : Type 0 where
  no_previous : PreviousRecord
  pruned_predecessor : String → PreviousRecord
  previous_record : AuditRecord → PreviousRecord
  not_an_object : PreviousRecord

-- A value of `storedCreativeHash`.
pub data StoredHash : Type 0 where
  undefined null : StoredHash
  stored : String → StoredHash

module _ (platform : Platform) where
  open platform use {date_parse, is_blank}

  unfoldable pub check_record_hash : AuditRecord → Extras → VerifyCheck
  check_record_hash r extras =
      if compute_record_hash platform r.unsigned extras == r.record_hash
      then passes record_hash
      else fails record_hash hash_mismatch

  abbrev pub at_or_after : Option ℕ → Option ℕ → Bool
  at_or_after ts none = false
  at_or_after none (some cutoff) = false
  at_or_after (some ts) (some cutoff) = leb cutoff ts

  -- A record whose `prev_hash` is not the genesis.
  unfoldable pub check_link : AuditRecord → PreviousRecord → VerifyCheck
  check_link r (pruned_predecessor cutoff) =
      if at_or_after (date_parse (content_of r).ts) (date_parse cutoff)
      then passes_as chain pruned
      else fails chain pruned_before_cutoff
  check_link r no_previous = fails chain previous_missing
  check_link r not_an_object = fails chain previous_missing
  check_link r (previous_record prev) =
      if not (prev.record_hash == r.unsigned.prev_hash)
      then fails chain previous_mismatch
      else if not ((content_of prev).app_id == (content_of r).app_id)
      then fails chain previous_other_app
      else passes chain

  abbrev pub is_no_previous : PreviousRecord → Bool
  is_no_previous no_previous = true
  is_no_previous _ = false

  unfoldable pub check_chain : AuditRecord → PreviousRecord → VerifyCheck
  unfolding check_link
  check_chain r previous =
      if r.unsigned.prev_hash == genesis
      then (if is_no_previous previous
          then passes_as chain from_genesis
          else fails chain genesis_with_previous)
      else check_link r previous

  abbrev pub signature_check : KeyRingVerification → VerifyCheck
  signature_check (verified key_id) = passes_as signature (by_key key_id)
  signature_check unknown_key_id = fails signature no_such_key
  signature_check bad_signature = fails signature wrong_signature

  unfoldable pub check_signature : AuditRecord → PublicKeyRing → VerifyCheck
  check_signature r ring =
      signature_check (ring_verify platform ring r.record_hash r.signature r.unsigned.key_id)

  unfoldable pub check_content_hash : Option AuditCreative → StoredHash → VerifyCheck
  check_content_hash none stored_hash = passes_as creative_hash not_applicable
  check_content_hash (some creative) undefined = fails creative_hash stored_creative_missing
  check_content_hash (some creative) null = fails creative_hash stored_creative_missing
  check_content_hash (some creative) (stored hash) =
      if hash == ""
      then fails creative_hash stored_creative_missing
      else if hash == creative.content_hash
      then passes creative_hash
      else fails creative_hash creative_mismatch

  unfoldable pub check_creative_hash : AuditRecord → StoredHash → VerifyCheck
  unfolding check_content_hash
  check_creative_hash r stored_hash = check_content_hash (content_of r).creative stored_hash

  unfoldable pub check_disclosure : Disclosure → VerifyCheck
  check_disclosure d =
      if is_blank d.label
      then fails disclosure_present label_empty
      else if not (d.position == "after_answer")
      then fails disclosure_present (position_is d.position)
      else if not (d.style == "separate_block")
      then fails disclosure_present (style_is d.style)
      else passes disclosure_present

abbrev pub is_hash_of : Option String → String → Bool
is_hash_of none hash = false
is_hash_of (some h) hash = h == hash

-- `by` is the complete attestation of exactly this record.
unfoldable pub attests_record : AuditRecord → Option AuditRecord → Bool
attests_record r none = false
attests_record r (some by) =
    is_hash_of (attestation_of by).supersedes_hash r.record_hash
    && ((content_of by).id == (content_of r).id
        && ((content_of by).app_id == (content_of r).app_id && is_attested (attestation_of by)))

abbrev is_suppress : Decision → Bool
is_suppress serve = false
is_suppress suppress = true

unfoldable pub check_separation : AuditRecord → Option AuditRecord → VerifyCheck
check_separation r superseded_by =
    if is_attested (attestation_of r)
    then passes separation_attested
    else if not (is_unattested (attestation_of r))
    then fails separation_attested attestation_incomplete
    else if attests_record r superseded_by
    then passes_as separation_attested attested_by_superseding
    else if is_suppress (content_of r).decision
    then passes_as separation_attested not_applicable
    else fails separation_attested not_attested

-- ===== src/Audit/Verify.antt =====
-- packages/core/src/audit/verify.ts and verify-supersedes.ts: the eight checks in order. The
-- source recurses through `supersedes`; here the recursion takes fuel, and Audit/Verify/Depth.antt
-- shows that the fuel of `verify` is enough. An object whose fields have other types than the
-- schema's is not modelled: `object` is a value of the record's shape with any further keys.
pub mod Depth
pub mod Valid
pub mod RoundTrip
pub mod Attested
pub mod Built
use adgate.Prelude.{
  ℕ, zero, suc, String, Bool, true, false, ◌&&◌, not, Option, none, some, List, [], ◌∷◌, map,
  filter, all, if◌then◌else◌, ◌==◌, string_eq, is_none,
}
use adgate.Audit.Record.{AuditRecord, content_of, attestation_of}
use adgate.Audit.Chain.{Platform, Extras, PublicKeyRing}
use adgate.Audit.Attest.{parses}
use adgate.Audit.Checks.{
  VerifyCheckName, schema, record_hash, chain, signature, creative_hash, disclosure_present,
  separation_attested, supersedes, VerifyDetail, skipped, not_applicable, superseded_missing,
  superseded_mismatch, superseded_other_id, superseded_other_app, superseded_is_attestation,
  body_mismatch, superseded_not_verified, superseded_verified, superseded_schema, schema_issues,
  superseded_invalid, VerifyCheck, passes, passes_as, fails, PreviousRecord, StoredHash, undefined,
  null, stored, check_record_hash, check_chain, check_signature, check_creative_hash,
  check_disclosure, check_separation,
}

pub data Loaded : Type 0 where
  not_object : Loaded
  object : AuditRecord → Extras → Loaded

-- The fields of a context, but for the context of the superseded record.
pub record ContextFields : Type 0 where
  pub prev_record : PreviousRecord
  pub stored_creative_hash : StoredHash
  pub superseded_by : Option AuditRecord
  pub superseded_record : Loaded
  pub verify_superseded : Bool

-- `last` is a context whose `superseded` is absent.
pub data VerifyContext : Type 0 where
  last : ContextFields → VerifyContext
  nested_in : ContextFields → VerifyContext → VerifyContext

abbrev pub fields : VerifyContext → ContextFields
fields (last f) = f
fields (nested_in f superseded) = f

abbrev pub empty_fields : ContextFields
empty_fields = record {
  prev_record = PreviousRecord.no_previous;
  stored_creative_hash = undefined;
  superseded_by = none;
  superseded_record = not_object;
  verify_superseded = true;
}

abbrev pub inherit : StoredHash → StoredHash → StoredHash
inherit undefined outer = outer
inherit null outer = null
inherit (stored hash) outer = stored hash

abbrev nest : AuditRecord → ContextFields → ContextFields → ContextFields
nest r outer inner = record inner {
  stored_creative_hash = inherit inner.stored_creative_hash outer.stored_creative_hash;
  superseded_by = some r;
}

unfoldable pub nested_context : AuditRecord → VerifyContext → VerifyContext
nested_context r (last outer) = last (nest r outer empty_fields)
nested_context r (nested_in outer (last inner)) = last (nest r outer inner)
nested_context r (nested_in outer (nested_in inner superseded)) =
    nested_in (nest r outer inner) superseded

pub record VerifyResponse : Type 0 where
  pub valid : Bool
  pub checks : List VerifyCheck

abbrev pub names_of_failed : List VerifyCheck → List VerifyCheckName
names_of_failed checks = map (λ check. check.name) (filter (λ check. not check.ok) checks)

abbrev pub verify_check_order : List VerifyCheckName
verify_check_order =
    schema ∷ record_hash ∷ chain ∷ signature ∷ creative_hash ∷ disclosure_present
    ∷ separation_attested ∷ supersedes ∷ []

unfoldable pub failed_response : VerifyCheck → VerifyDetail → VerifyResponse
failed_response first detail = record {
  valid = false;
  checks =
      first
      ∷ map (λ name. fails name detail)
          (record_hash ∷ chain ∷ signature ∷ creative_hash ∷ disclosure_present
            ∷ separation_attested ∷ supersedes ∷ []);
}

module _ (platform : Platform) where
  open platform use {canonical_body}

  abbrev pub nested_result : VerifyResponse → VerifyCheck
  nested_result result =
      if result.valid
      then passes_as supersedes superseded_verified
      else fails supersedes (superseded_invalid (names_of_failed result.checks))

  -- The checks on a superseded record that is there, up to the nested verification.
  unfoldable pub check_prior :
      AuditRecord → String → AuditRecord → Bool → VerifyResponse → VerifyCheck
  check_prior r hash prior verify_superseded result =
      if not (prior.record_hash == hash)
      then fails supersedes superseded_mismatch
      else if not ((content_of prior).id == (content_of r).id)
      then fails supersedes superseded_other_id
      else if not ((content_of prior).app_id == (content_of r).app_id)
      then fails supersedes superseded_other_app
      else if not (is_none (attestation_of prior).supersedes_hash)
      then fails supersedes superseded_is_attestation
      else if not (parses platform prior)
      then fails supersedes superseded_schema
      else if not (canonical_body (content_of prior) == canonical_body (content_of r))
      then fails supersedes body_mismatch
      else if not verify_superseded
      then passes_as supersedes superseded_not_verified
      else nested_result result

  unfoldable pub check_supersedes_hash :
      AuditRecord
      → VerifyContext
      → (Loaded → VerifyContext → VerifyResponse)
      → Option String
      → VerifyCheck
  check_supersedes_hash r ctx nested none = passes_as supersedes not_applicable
  check_supersedes_hash r ctx nested (some hash) = elim ((fields ctx).superseded_record) [
    | not_object ↦ fails supersedes superseded_missing
    | object prior extras ↦
        check_prior r hash prior (fields ctx).verify_superseded
          (nested (object prior extras) (nested_context r ctx))
  ]

  unfoldable pub check_supersedes :
      AuditRecord → VerifyContext → (Loaded → VerifyContext → VerifyResponse) → VerifyCheck
  unfolding check_supersedes_hash
  check_supersedes r ctx nested =
      check_supersedes_hash r ctx nested (attestation_of r).supersedes_hash

  abbrev pub respond : List VerifyCheck → VerifyResponse
  respond checks = record { valid = all (λ check. check.ok) checks; checks = checks }

  module _ (ring : PublicKeyRing) where
    -- `verifyWith`, given what it calls for a superseded record.
    unfoldable pub verify_step :
        (Loaded → VerifyContext → VerifyResponse) → Loaded → VerifyContext → VerifyResponse
    verify_step nested not_object ctx = failed_response (fails schema schema_issues) skipped
    verify_step nested (object r extras) ctx =
        if not (parses platform r)
        then failed_response (fails schema schema_issues) skipped
        else respond (
            passes schema
            ∷ check_record_hash platform r extras
            ∷ check_chain platform r (fields ctx).prev_record
            ∷ check_signature platform r ring
            ∷ check_creative_hash platform r (fields ctx).stored_creative_hash
            ∷ check_disclosure platform (content_of r).disclosure
            ∷ check_separation r (fields ctx).superseded_by
            ∷ check_supersedes r ctx nested
            ∷ [])

    unfoldable pub verify_at : ℕ → Loaded → VerifyContext → VerifyResponse
    verify_at zero loaded ctx = record { valid = false; checks = [] }
    verify_at (suc fuel) loaded ctx = verify_step (verify_at fuel) loaded ctx

    -- The superseded record is no attestation itself, so two levels are all there are.
    unfoldable pub verify : Loaded → VerifyContext → VerifyResponse
    unfolding verify_at
    verify loaded ctx = verify_at 2 loaded ctx

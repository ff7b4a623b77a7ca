-- ===== src/Audit/Attest.antt =====
-- packages/core/src/audit/attest.ts: the attested version of a record. A throw is a constructor of
-- the result, named after the reason of the error.

use adgate.Prelude.{
  String, Bool, true, ◌&&◌, ◌||◌, not, Option, none, some, if◌then◌else◌, ◌==◌, string_eq, is_none,
}
use adgate.Audit.Record.{
  AuditRecord, UnsignedAuditRecord, Attestation, refines, content_of, attestation_of,
}
use adgate.Audit.Chain.{Platform, AuditSigningKey, genesis, sign_record}

pub data AuditAttestErrorReason : Type 0 where
  invalid_record already_attested invalid_model_output_hash : AuditAttestErrorReason
  invalid_attested_at invalid_prev_hash : AuditAttestErrorReason

pub data AttestResult : Type 0 where
  attested : AuditRecord → AttestResult
  attest_error : AuditAttestErrorReason → AttestResult
  key_error : AttestResult

unfoldable pub is_attested : Attestation → Bool
is_attested a =
    a.separation_attestation && (not (is_none a.model_output_hash) && not (is_none a.attested_at))

unfoldable pub is_unattested : Attestation → Bool
is_unattested a =
    not a.separation_attestation
    && (is_none a.model_output_hash && (is_none a.attested_at && is_none a.supersedes_hash))

-- What `attest` writes over the original, before it is signed.
unfoldable pub attested_unsigned : AuditRecord → String → String → String → UnsignedAuditRecord
attested_unsigned original model_output_hash now prev_hash = record {
  body = record {
    content = content_of original;
    attestation = record {
      model_output_hash = some model_output_hash;
      separation_attestation = true;
      attested_at = some now;
      supersedes_hash = some original.record_hash;
    };
  };
  prev_hash = prev_hash;
  key_id = original.unsigned.key_id;
}

abbrev pub result_of : Option AuditRecord → AttestResult
result_of none = key_error
result_of (some r) = attested r

module _ (platform : Platform) where
  open platform use {formats_ok, is_hash, is_timestamp}

  -- `AuditRecord.safeParse` on a value of the record's shape.
  unfoldable pub parses : AuditRecord → Bool
  parses r = formats_ok r && refines (content_of r)

  unfoldable pub attest : AuditRecord → String → String → String → AuditSigningKey → AttestResult
  attest original model_output_hash now prev_hash signing =
      if not (parses original)
      then attest_error invalid_record
      else if not (is_unattested (attestation_of original))
      then attest_error already_attested
      else if not (is_hash model_output_hash)
      then attest_error invalid_model_output_hash
      else if not (is_timestamp now)
      then attest_error invalid_attested_at
      else if not (is_hash prev_hash || prev_hash == genesis) || prev_hash == genesis
      then attest_error invalid_prev_hash
      else result_of (
          sign_record platform (attested_unsigned original model_output_hash now prev_hash) signing)

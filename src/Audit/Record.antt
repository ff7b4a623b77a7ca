-- ===== src/Audit/Record.antt =====
-- packages/schemas/src/audit-record.ts: the record, the part of it that is hashed, and the two
-- refinements of its schema. The formats of the single fields (hash, id and time patterns) are
-- zod's, and are a parameter where they matter (Audit/Chain.antt).
use adgate.Prelude.{ℕ, String, Bool, ◌&&◌, not, Option, List, is_none}
use adgate.Schema.{SuppressReason, Classification, Disclosure, DemandTrace, OverrideRejection}
use adgate.Policy.Evaluate.{PolicyDecision}

pub data Decision : Type 0 where
  serve suppress : Decision

pub record AuditSurface : Type 0 where
  pub surface_type : String
  pub placement : String

pub record AuditCreative : Type 0 where
  pub id : String
  pub advertiser : String
  pub advertiser_domain : String
  pub content_hash : String

-- The fields that attestation and chaining leave alone (see ATTESTATION_FIELDS).
pub record AttestedBody : Type 0 where
  pub id : String
  pub app_id : String
  pub conversation_id_hash : String
  pub user_hash : Option String
  pub turn_id : String
  pub ts : String
  pub surface : AuditSurface
  pub classification : Classification
  pub policy_version : ℕ
  pub policy_hash : String
  pub policy_decisions : List PolicyDecision
  pub override_rejected : List OverrideRejection
  pub decision : Decision
  pub reason : Option SuppressReason
  pub demand : DemandTrace
  pub creative : Option AuditCreative
  pub disclosure : Disclosure

pub record Attestation : Type 0 where
  pub model_output_hash : Option String
  pub separation_attestation : Bool
  pub attested_at : Option String
  pub supersedes_hash : Option String

pub record AuditRecordBody : Type 0 where
  pub content : AttestedBody
  pub attestation : Attestation

pub record UnsignedAuditRecord : Type 0 where
  pub body : AuditRecordBody
  pub prev_hash : String
  pub key_id : String

pub record AuditRecord : Type 0 where
  pub unsigned : UnsignedAuditRecord
  pub record_hash : String
  pub signature : String

abbrev pub content_of : AuditRecord → AttestedBody
content_of r = r.unsigned.body.content

abbrev pub attestation_of : AuditRecord → Attestation
attestation_of r = r.unsigned.body.attestation

-- A served turn has a creative and no reason, a suppressed one a reason and no creative.
abbrev pub consistent : Decision → Option AuditCreative → Option SuppressReason → Bool
consistent serve creative reason = not (is_none creative) && is_none reason
consistent suppress creative reason = is_none creative && not (is_none reason)

unfoldable pub refines : AttestedBody → Bool
refines b = consistent b.decision b.creative b.reason

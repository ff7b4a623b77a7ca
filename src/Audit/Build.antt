-- ===== src/Audit/Build.antt =====
-- packages/core/src/audit/record.ts, with the hashes of privacy-hash.ts and content-hash.ts: the
-- record of one evaluation. A throw is `none`.
pub mod Laws
use Prim.Native.String
use adgate.Prelude.{
  ℕ, String, Bool, true, false, not, Option, none, some, List, [], ◌∷◌, if◌then◌else◌, or_else,
  ◌==◌, string_eq,
}
use adgate.Schema.{
  SuppressReason, error, no_fill, Classification, Surface, Disclosure, Candidate, CatalogCreative,
  DemandTrace, OverrideRejection,
}
use adgate.Policy.Evaluate.{PolicyDecision}
use adgate.Audit.Record.{
  Decision, serve, suppress, AuditSurface, AuditCreative, AttestedBody, Attestation,
  AuditRecordBody, UnsignedAuditRecord, AuditRecord,
}
use adgate.Audit.Chain.{Platform, AuditSigningKey, CreativeContent, sign_record}

pub record AuditAppContext : Type 0 where
  pub app_id : String
  pub salt : String

pub record AuditPolicyContext : Type 0 where
  pub policy_version : ℕ
  pub policy_hash : String
  pub disclosure : Disclosure

pub record AuditPolicyResult : Type 0 where
  pub allowed : Bool
  pub reason : Option SuppressReason
  pub decisions : List PolicyDecision

pub record AuditMediation : Type 0 where
  pub selected : Option Candidate
  pub trace : DemandTrace

pub record BuildAuditRecordInput : Type 0 where
  pub id : String
  pub app : AuditAppContext
  pub conversation_id : String
  pub user_hash : Option String
  pub turn_id : String
  pub ts : String
  pub surface : Surface
  pub classification : Classification
  pub policy : AuditPolicyContext
  pub policy_result : AuditPolicyResult
  pub override_rejected : Option (List OverrideRejection)
  pub mediation : Option AuditMediation
  pub prev_hash : String
  pub signing : AuditSigningKey

abbrev pub empty_demand_trace : DemandTrace
empty_demand_trace = record { requested = []; responses = []; excluded = []; selected = none }

pub record Outcome : Type 0 where
  pub decision : Decision
  pub reason : Option SuppressReason
  pub selected : Option Candidate

abbrev selected_by : Option AuditMediation → Option Candidate
selected_by none = none
selected_by (some mediation) = mediation.selected

abbrev outcome_of : Option Candidate → Outcome
outcome_of none = record { decision = suppress; reason = some no_fill; selected = none }
outcome_of (some candidate) = record { decision = serve; reason = none; selected = some candidate }

unfoldable pub decide : AuditPolicyResult → Option AuditMediation → Outcome
decide result mediation =
    if not result.allowed
    then record {
      decision = suppress;
      reason = some (or_else result.reason error);
      selected = none;
    }
    else outcome_of (selected_by mediation)

abbrev pub trace_of : Option AuditMediation → DemandTrace
trace_of none = empty_demand_trace
trace_of (some mediation) = mediation.trace

abbrev pub unattested : Attestation
unattested = record {
  model_output_hash = none;
  separation_attestation = false;
  attested_at = none;
  supersedes_hash = none;
}

abbrev pub content : CatalogCreative → CreativeContent
content c = record {
  advertiser = c.advertiser;
  advertiser_domain = c.advertiser_domain;
  headline = c.headline;
  body = c.body;
  cta = c.cta;
  url_template = c.url_template;
}

module _ (platform : Platform) where
  open platform use {canonical_content, sha256_prefixed, digest_hex}

  unfoldable pub creative_content_hash : CatalogCreative → String
  creative_content_hash c = sha256_prefixed (canonical_content (content c))

  -- `conversationIdHash` throws on an empty salt or id.
  unfoldable pub conversation_id_hash : String → String → Option String
  conversation_id_hash salt id =
      if salt == ""
      then none
      else if id == ""
      then none
      else some (sha256_prefixed (String.◌++◌ salt id))

  abbrev pub normalize_sha256_hash : String → Option String
  normalize_sha256_hash value = elim (digest_hex value) [
    | none ↦ none
    | some hex ↦ some (String.◌++◌ "sha256:" hex)
  ]

  abbrev pub identity_hash : String → String → String
  identity_hash salt value =
      or_else (normalize_sha256_hash value) (sha256_prefixed (String.◌++◌ salt value))

  -- `userHash` throws on an empty salt; the inner option is the hash or null.
  unfoldable pub user_hash_of : String → Option String → Option (Option String)
  user_hash_of salt none = if salt == "" then none else some none
  user_hash_of salt (some value) =
      if salt == ""
      then none
      else if value == ""
      then some none
      else some (some (identity_hash salt value))

  abbrev pub audit_creative : Option Candidate → Option AuditCreative
  audit_creative none = none
  audit_creative (some candidate) = some (record {
    id = candidate.creative.id;
    advertiser = candidate.creative.advertiser;
    advertiser_domain = candidate.creative.advertiser_domain;
    content_hash = creative_content_hash candidate.creative;
  })

  -- The body, given the two hashes of the identities.
  unfoldable pub body_with : BuildAuditRecordInput → String → Option String → AuditRecordBody
  body_with input conversation user =
      let outcome = decide input.policy_result input.mediation in
      record {
        content = record {
          id = input.id;
          app_id = input.app.app_id;
          conversation_id_hash = conversation;
          user_hash = user;
          turn_id = input.turn_id;
          ts = input.ts;
          surface = record {
            surface_type = input.surface.surface_type;
            placement = input.surface.placement;
          };
          classification = input.classification;
          policy_version = input.policy.policy_version;
          policy_hash = input.policy.policy_hash;
          policy_decisions = input.policy_result.decisions;
          override_rejected = or_else input.override_rejected [];
          decision = outcome.decision;
          reason = outcome.reason;
          demand = trace_of input.mediation;
          creative = audit_creative outcome.selected;
          disclosure = input.policy.disclosure;
        };
        attestation = unattested;
      }

  unfoldable pub build_audit_body : BuildAuditRecordInput → Option AuditRecordBody
  build_audit_body input = elim (conversation_id_hash input.app.salt input.conversation_id) [
    | none ↦ none
    | some conversation ↦ elim (user_hash_of input.app.salt input.user_hash) [
      | none ↦ none
      | some user ↦ some (body_with input conversation user)
    ]
  ]

  unfoldable pub build_audit_record : BuildAuditRecordInput → Option AuditRecord
  build_audit_record input = elim (build_audit_body input) [
    | none ↦ none
    | some body ↦
        sign_record platform
          (record { body = body; prev_hash = input.prev_hash; key_id = input.signing.key_id })
          input.signing
  ]

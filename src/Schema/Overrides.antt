-- ===== src/Schema/Overrides.antt =====
-- policy-overrides.ts of packages/schemas/src: the partial policy that a request may send. The
-- texts of a rejection are built by templates in packages/core/src/policy/merge.ts; a
-- constructor stands for a template and holds the values put into it.
use adgate.Prelude.{ℕ, String, Bool, Option, List}
use adgate.Schema.Taxonomy.{SensitiveCategory}
use adgate.Schema.Policy.{SensitiveDetection, AffiliateNetwork, DemandSource}

-- An affiliate entry with no network matches every affiliate entry of the policy.
pub record DemandEntryOverride : Type 0 where
  pub source : DemandSource
  pub network : Option AffiliateNetwork
  pub enabled : Option Bool

pub record CapsOverride : Type 0 where
  pub per_session : Option ℕ
  pub per_user_per_day : Option ℕ
  pub min_turns_between : Option ℕ

pub record DisclosureOverride : Type 0 where
  pub label : Option String
  pub position : Option String
  pub style : Option String

pub record PrivacyOverride : Type 0 where
  pub store_raw_text : Option Bool
  pub retain_days : Option ℕ

-- `regions` is flattened: none where `overrides.regions?.allow` is undefined.
pub record PolicyOverrides : Type 0 where
  pub version : Option ℕ
  pub app_id : Option String
  pub serve_to_tiers : Option (List String)
  pub allow_paid_tiers : Option Bool
  pub blocked_categories : Option (List SensitiveCategory)
  pub sensitive_detection : Option SensitiveDetection
  pub min_commercial_intent : Option ℕ
  pub min_confidence : Option ℕ
  pub competitor_exclusions : Option (List String)
  pub frequency_caps : Option CapsOverride
  pub disclosure : Option DisclosureOverride
  pub demand : Option (List DemandEntryOverride)
  pub privacy : Option PrivacyOverride
  pub regions_allow : Option (List String)

-- `field p` is a dotted path; `demand_at i` is `demand[i]`.
pub data RejectPath : Type 0 where
  field : String → RejectPath
  demand_at : ℕ → RejectPath

pub data RejectReason : Type 0 where
  fixed : String → RejectReason
  cannot_raise cannot_lower : String → ℕ → ℕ → RejectReason
  cannot_add : String → List String → RejectReason
  cannot_add_demand cannot_enable_demand : DemandSource → Option AffiliateNetwork → RejectReason

pub record OverrideRejection : Type 0 where
  pub path : RejectPath
  pub reason : RejectReason

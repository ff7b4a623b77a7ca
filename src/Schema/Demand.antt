-- ===== src/Schema/Demand.antt =====
-- demand.ts, demand-trace.ts and Creative of creative.ts in packages/schemas/src. Money and
-- scores are finite numbers in a common unit.
use adgate.Prelude.{ℕ, String, Bool, Option, List}
use adgate.Schema.Turn.{Classification, Surface}
use adgate.Schema.Policy.{AffiliateNetwork, DemandSource}

pub record CatalogCreative : Type 0 where
  pub id : String
  pub advertiser : String
  pub advertiser_domain : String
  pub headline : String
  pub body : String
  pub cta : String
  pub url_template : String
  pub target_categories : List String
  pub target_regions : List String
  pub keywords : List String
  pub ecpm : ℕ
  pub source : DemandSource
  pub active : Bool
  pub network : Option AffiliateNetwork
  pub program_id : Option String

pub record DemandUser : Type 0 where
  pub region : Option String
  pub locale : Option String

pub record DemandRequest : Type 0 where
  pub app_id : String
  pub classification : Classification
  pub surface : Surface
  pub user : DemandUser
  pub exclusions : List String
  pub keywords : Option (List String)

-- A catalog creative with the scores of the adapter that proposes it.
pub record Candidate : Type 0 where
  pub creative : CatalogCreative
  open creative use *
  pub ecpm_estimate : ℕ
  pub targeting_match : ℕ
  pub resolved_url : Option String

pub record DemandResponse : Type 0 where
  pub response_source : DemandSource
  pub candidates : List Candidate
  pub latency_ms : ℕ
  pub error : Option String

pub record DemandResponseSummary : Type 0 where
  pub source : DemandSource
  pub candidates : ℕ
  pub latency_ms : ℕ
  pub error : Option String

pub record ExcludedCandidate : Type 0 where
  pub source : DemandSource
  pub creative_id : String
  pub advertiser_domain : String
  pub reason : String

pub record DemandTrace : Type 0 where
  pub requested : List DemandSource
  pub responses : List DemandResponseSummary
  pub excluded : List ExcludedCandidate
  pub selected : Option DemandSource

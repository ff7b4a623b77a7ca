-- ===== src/Gateway/Click.antt =====
-- packages/gateway/src/click: destination.ts and route.ts, and the event that store.ts writes. What the
-- tables and the app's policy answer a request is an argument; the log is left out.
pub mod Laws
mod Tests
use adgate.Prelude.{
  ℕ, String, Bool, true, false, ◌&&◌, not, Option, none, some, List, [], ◌∷◌, if◌then◌else◌, ◌==◌,
}
use adgate.Schema.{DemandSource, affiliate, source_eq, AffiliateNetwork, DemandEntry}
use adgate.Demand.Affiliate.Amazon.{Urls}
use adgate.Demand.Affiliate.Template.{built, not_built}
use adgate.Demand.Affiliate.{Built, result, build_threw, AffiliateConfig, build_affiliate_url}
use adgate.Demand.Affiliate.Adapter.{default_destination}

-- `network` is there where the creative's names a network.
pub record ClickCreative : Type 0 where
  pub source : DemandSource
  pub url_template : List ℕ
  pub network : Option AffiliateNetwork
  pub program_id : Option (List ℕ)
  pub advertiser_domain : String

-- The configuration is there where the stored one meets its schema, and the demand entries are
-- those of the policy, if it can be read.
pub record DestinationInput : Type 0 where
  pub creative : ClickCreative
  pub affiliate_config : Option AffiliateConfig
  pub demand : Option (List DemandEntry)

pub data DestinationVia : Type 0 where
  template affiliate_link landing_page : DestinationVia

pub data Destination : Type 0 where
  found : List ℕ → DestinationVia → Destination
  invalid_url : Destination

abbrev pub first_affiliate : List DemandEntry → Option AffiliateNetwork
first_affiliate [] = none
first_affiliate (entry ∷ entries) =
    if entry.source == affiliate && entry.enabled then entry.network else first_affiliate entries

abbrev pub entries_of : Option (List DemandEntry) → List DemandEntry
entries_of none = []
entries_of (some entries) = entries

unfoldable pub affiliate_network_of :
    ClickCreative → Option (List DemandEntry) → Option AffiliateNetwork
affiliate_network_of creative demand = elim (creative.network) [
  | some own ↦ some own
  | none ↦ first_affiliate (entries_of demand)
]

module _ (urls : Urls) where
  abbrev pub http_only : List ℕ → DestinationVia → Destination
  http_only url via = if urls.is_http_url url then found url via else invalid_url

  -- `none` where the builder threw.
  abbrev pub from_built : List ℕ → Built → Option Destination
  from_built landing build_threw = none
  from_built landing (result (not_built error)) = some (http_only landing landing_page)
  from_built landing (result (built url)) = some (http_only url affiliate_link)

  abbrev pub build_link : ClickCreative → List ℕ → AffiliateNetwork → AffiliateConfig → Built
  build_link creative landing network config = build_affiliate_url urls (record {
    network = network;
    template = creative.url_template;
    config = config;
    destination = some landing;
    program_id = creative.program_id;
  })

  abbrev pub affiliate_destination :
      ClickCreative → List ℕ → Option AffiliateNetwork → Option AffiliateConfig → Option Destination
  affiliate_destination creative landing none config = some (http_only landing landing_page)
  affiliate_destination creative landing (some network) none = some (http_only landing landing_page)
  affiliate_destination creative landing (some network) (some config) =
      from_built landing (build_link creative landing network config)

  unfoldable pub resolve_destination : DestinationInput → Option Destination
  resolve_destination input =
      let creative = input.creative in
      if not (creative.source == affiliate)
      then some (http_only creative.url_template template)
      else affiliate_destination creative (default_destination creative.advertiser_domain)
          (affiliate_network_of creative input.demand) input.affiliate_config

pub record ClickTarget : Type 0 where
  pub app_id : String
  pub affiliate_config : Option AffiliateConfig
  pub demand : Option (List DemandEntry)
  pub creative : Option ClickCreative

pub record ClickInsert : Type 0 where
  pub audit_id : String
  pub app_id : String
  pub ts : ℕ

pub data ClickResponse : Type 0 where
  not_found : ClickResponse
  redirect : List ℕ → ClickResponse
  internal_error : ClickResponse

-- What the tables do with a request: the target of the id, and whether the event can be written.
-- `none` is a throw.
pub record ClickDeps : Type 0 where
  pub is_audit_id : String → Bool
  pub find_target : String → Option (Option ClickTarget)
  pub records_click : Bool
  pub now : ℕ

module _ (urls : Urls) (deps : ClickDeps) (audit_id : String) (events : List ClickInsert) where
  abbrev pub record_click : ClickTarget → List ℕ → List ClickInsert × ClickResponse
  record_click target url =
      if deps.records_click
      then (
        record { audit_id = audit_id; app_id = target.app_id; ts = deps.now } ∷ events,
        redirect url,
      )
      else (events, internal_error)

  abbrev pub go_to : ClickTarget → Option Destination → List ClickInsert × ClickResponse
  go_to target none = (events, internal_error)
  go_to target (some invalid_url) = (events, not_found)
  go_to target (some (found url via)) = record_click target url

  abbrev pub with_creative : ClickTarget → Option ClickCreative → List ClickInsert × ClickResponse
  with_creative target none = (events, not_found)
  with_creative target (some creative) = go_to target (
      resolve_destination urls (record {
        creative = creative;
        affiliate_config = target.affiliate_config;
        demand = target.demand;
      }))

  abbrev pub with_target : Option (Option ClickTarget) → List ClickInsert × ClickResponse
  with_target none = (events, internal_error)
  with_target (some none) = (events, not_found)
  with_target (some (some target)) = with_creative target target.creative

  -- The events after the request, and its response.
  unfoldable pub click_route : List ClickInsert × ClickResponse
  click_route =
      if not (deps.is_audit_id audit_id)
      then (events, not_found)
      else with_target (deps.find_target audit_id)

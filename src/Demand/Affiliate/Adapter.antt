-- ===== src/Demand/Affiliate/Adapter.antt =====
-- packages/core/src/demand/affiliate/adapter.ts and network-stub.ts. `text_of` makes a text of its code
-- points, and `failure_text` is the cut list of the failures.
use adgate.Prelude.{
  ℕ, String, Bool, false, ◌&&◌, not, Option, none, some, List, [], ◌∷◌, ◌++◌, if◌then◌else◌, eqb,
  is_empty, or_else, codes, ◌==◌,
}
use adgate.Schema.{
  CatalogCreative, Candidate, DemandRequest, DemandResponse, DemandSource, AffiliateNetwork,
  network_eq, affiliate, source_eq,
}
use adgate.Demand.Ranking.{rank_candidates, max_candidates}
use adgate.Demand.Exclusions.{trim_start, trim_end}
use adgate.Demand.Match.{match_score, normalize_keywords}
use adgate.Demand.Match.Direct.{demand_response}
use adgate.Demand.Affiliate.Amazon.{Urls}
use adgate.Demand.Affiliate.Template.{BuildError, built, not_built}
use adgate.Demand.Affiliate.{
  Built, result, build_threw, AffiliateConfig, is_affiliate_configured, build_affiliate_url,
}

unfoldable pub default_destination : String → List ℕ
default_destination advertiser_domain = codes "https://" ++ codes advertiser_domain ++ codes "/"

abbrev program_codes : Option String → Option (List ℕ)
program_codes none = none
program_codes (some id) = some (codes id)

pub record AffiliateSelection : Type 0 where
  pub candidates : List Candidate
  pub failures : List (String × BuildError)

module _ (urls : Urls) (text_of : List ℕ → String) (normalize : String → String) where
  -- The creative belongs to the adapter's network.
  abbrev is_own : AffiliateNetwork → CatalogCreative → Bool
  is_own network creative =
      creative.source == affiliate && or_else creative.network network == network

  abbrev build_for : AffiliateNetwork → AffiliateConfig → CatalogCreative → Built
  build_for network config creative = build_affiliate_url urls (record {
    network = network;
    template = codes creative.url_template;
    config = config;
    destination = some (default_destination creative.advertiser_domain);
    program_id = program_codes creative.program_id;
  })

  abbrev as_candidate : CatalogCreative → ℕ → List ℕ → Candidate
  as_candidate creative score url = record {
    creative = creative;
    ecpm_estimate = creative.ecpm;
    targeting_match = score;
    resolved_url = some (text_of url);
  }

  abbrev add_built : CatalogCreative → ℕ → Built → AffiliateSelection → Option AffiliateSelection
  add_built creative score build_threw found = none
  add_built creative score (result (not_built error)) found =
      some (record found { failures = found.failures ++ (creative.id, error) ∷ [] })
  add_built creative score (result (built url)) found =
      some (record found { candidates = found.candidates ++ as_candidate creative score url ∷ [] })

  abbrev continue_with :
      Option AffiliateSelection
      → (AffiliateSelection → Option AffiliateSelection)
      → Option AffiliateSelection
  continue_with none next = none
  continue_with (some found) next = next found

  -- The loop over the catalog; `none` where a builder threw.
  unfoldable pub collect_affiliate :
      DemandRequest
      → List String
      → AffiliateNetwork
      → AffiliateConfig
      → List CatalogCreative
      → AffiliateSelection
      → Option AffiliateSelection
  collect_affiliate req keywords network config [] found = some found
  collect_affiliate req keywords network config (creative ∷ catalog) found =
      let next = collect_affiliate req keywords network config catalog in
      let score = match_score normalize creative req keywords in
      if not (is_own network creative)
      then next found
      else if eqb score 0
      then next found
      else continue_with (add_built creative score (build_for network config creative) found) next

  abbrev ranked : Option AffiliateSelection → Option AffiliateSelection
  ranked none = none
  ranked (some found) =
      some (record found { candidates = rank_candidates found.candidates max_candidates })

  unfoldable pub select_affiliate_candidates :
      List CatalogCreative
      → DemandRequest
      → AffiliateNetwork
      → AffiliateConfig
      → Option AffiliateSelection
  select_affiliate_candidates catalog req network config = ranked (
      collect_affiliate req (normalize_keywords normalize (or_else req.keywords [])) network config
        catalog (record { candidates = []; failures = [] }))

  abbrev respond :
      (List (String × BuildError) → String)
      → String
      → ℕ
      → Option AffiliateSelection
      → DemandResponse
  respond failure_text thrown latency none =
      demand_response normalize affiliate [] latency (some thrown)
  respond failure_text thrown latency (some found) =
      demand_response normalize affiliate found.candidates latency
        (if is_empty found.failures then none else some (failure_text found.failures))

  -- `fetch`, with what the error of a throw reads as.
  unfoldable pub affiliate_fetch :
      (List (String × BuildError) → String)
      → String
      → Bool
      → ℕ
      → List CatalogCreative
      → DemandRequest
      → AffiliateNetwork
      → AffiliateConfig
      → DemandResponse
  affiliate_fetch failure_text thrown aborted latency catalog req network config =
      if aborted
      then demand_response normalize affiliate [] latency (some "aborted")
      else if not (is_affiliate_configured config network)
      then demand_response normalize affiliate [] latency (some "affiliate_not_configured")
      else respond failure_text thrown latency
          (select_affiliate_candidates catalog req network config)

pub record NetworkAdapterConfig : Type 0 where
  pub enabled : Option Bool
  pub api_key : Option String
  pub base_url : Option String

abbrev is_present : Option String → Bool
is_present none = false
is_present (some value) = not (is_empty (trim_end (trim_start (codes value))))

unfoldable pub is_network_configured : NetworkAdapterConfig → Bool
is_network_configured config =
    or_else config.enabled false && (is_present config.api_key && is_present config.base_url)

-- `NetworkStubAdapter.fetch`
unfoldable pub network_fetch : DemandSource → NetworkAdapterConfig → Bool → ℕ → DemandResponse
network_fetch source config aborted latency = record {
  response_source = source;
  candidates = [];
  latency_ms = latency;
  error = some (
      if aborted
      then "aborted"
      else if not (is_network_configured config)
      then "not_configured"
      else "not_implemented");
}

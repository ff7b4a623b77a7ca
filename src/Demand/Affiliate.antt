-- ===== src/Demand/Affiliate.antt =====
-- packages/core/src/demand/affiliate: registry.ts, adapter.ts and the builder of amazon.ts. Templates
-- and links are lists of code points; `text_of` makes a text of one.
mod Text
pub mod Amazon
pub mod Tag
pub mod Template
pub mod Adapter
pub mod Laws
mod Tests
use adgate.Prelude.{
  ℕ, String, Bool, true, false, ◌&&◌, ◌||◌, not, Option, none, some, List, [], ◌∷◌, ◌++◌, map,
  if◌then◌else◌, eqb, is_empty, is_none, or_else, codes, ◌==◌,
}
use adgate.Schema.{
  CatalogCreative, Candidate, DemandRequest, DemandResponse, AffiliateNetwork, partnerstack, impact,
  amazon, network_eq, affiliate, source_eq,
}
use adgate.Demand.Ranking.{rank_candidates, max_candidates}
use adgate.Demand.Match.{match_score, normalize_keywords}
use adgate.Demand.Affiliate.Amazon.{Urls, AmazonConfig, is_amazon_host, set_tag_param}
use adgate.Demand.Affiliate.Template.{
  BuildError, not_amazon_host, marketplace_mismatch, affiliate_not_configured, AffiliateBuildResult,
  built, not_built, fill_template, PartnerStackConfig, ImpactConfig, AffiliateBuildInput,
  build_partner_stack_url, build_impact_url,
}

-- `AMAZON_MARKETPLACES`
abbrev pub amazon_marketplaces : List (List ℕ)
amazon_marketplaces = map codes (
    "com" ∷ "ca" ∷ "com.mx" ∷ "com.br" ∷ "co.uk" ∷ "de" ∷ "fr" ∷ "es" ∷ "it" ∷ "nl" ∷ "se" ∷ "pl"
    ∷ "com.be" ∷ "com.tr" ∷ "ae" ∷ "sa" ∷ "eg" ∷ "in" ∷ "sg" ∷ "co.jp" ∷ "com.au" ∷ [])

-- What a builder comes to: `encodeURIComponent` of the tag may throw.
pub data Built : Type 0 where
  result : AffiliateBuildResult → Built
  build_threw : Built

abbrev pub tagged_link : Urls → List ℕ → Option (List ℕ) → Built
tagged_link urls url none = build_threw
tagged_link urls url (some encoded) = result (built (set_tag_param urls url encoded))

abbrev pub check_host : Urls → AmazonConfig → AffiliateBuildResult → Built
check_host urls config (not_built error) = result (not_built error)
check_host urls config (built url) =
    let host = urls.hostname url in
    if not (is_amazon_host amazon_marketplaces host none)
    then result (not_built not_amazon_host)
    else if not (is_none config.marketplace)
        && not (is_amazon_host amazon_marketplaces host config.marketplace)
    then result (not_built marketplace_mismatch)
    else tagged_link urls url (urls.encode config.tag)

unfoldable pub build_amazon_url : Urls → AffiliateBuildInput AmazonConfig → Built
build_amazon_url urls input = check_host urls input.config (
    fill_template urls
      (record {
        program_id = none;
        campaign_id = none;
        tag = some input.config.tag;
        destination = input.destination;
      })
      input.template)

pub record AffiliateConfig : Type 0 where
  pub partnerstack_entry : Option PartnerStackConfig
  pub impact_entry : Option ImpactConfig
  pub amazon_entry : Option AmazonConfig

unfoldable pub is_affiliate_configured : AffiliateConfig → AffiliateNetwork → Bool
is_affiliate_configured config partnerstack = not (is_none config.partnerstack_entry)
is_affiliate_configured config impact = not (is_none config.impact_entry)
is_affiliate_configured config amazon = not (is_none config.amazon_entry)

pub record BuildAffiliateUrlInput : Type 0 where
  pub network : AffiliateNetwork
  pub template : List ℕ
  pub config : AffiliateConfig
  pub destination : Option (List ℕ)
  pub program_id : Option (List ℕ)

abbrev not_configured : Built
not_configured = result (not_built affiliate_not_configured)

module _ (urls : Urls) (template : List ℕ) (destination program_id : Option (List ℕ)) where
  abbrev from_partnerstack : Option PartnerStackConfig → Built
  from_partnerstack none = not_configured
  from_partnerstack (some entry) = result (
      build_partner_stack_url urls (record {
        template = template;
        config = record { program_id = or_else program_id entry.program_id };
        destination = destination;
      }))

  abbrev from_impact : Option ImpactConfig → Built
  from_impact none = not_configured
  from_impact (some entry) = result (
      build_impact_url urls (record {
        template = template;
        config = record entry { program_id = or_else program_id entry.program_id };
        destination = destination;
      }))

  abbrev pub from_amazon : Option AmazonConfig → Built
  from_amazon none = not_configured
  from_amazon (some entry) =
      build_amazon_url urls
        (record { template = template; config = entry; destination = destination })

  -- The `switch` over the networks.
  abbrev pub build_by_network : AffiliateConfig → AffiliateNetwork → Built
  build_by_network config partnerstack = from_partnerstack config.partnerstack_entry
  build_by_network config impact = from_impact config.impact_entry
  build_by_network config amazon = from_amazon config.amazon_entry

unfoldable pub build_affiliate_url : Urls → BuildAffiliateUrlInput → Built
build_affiliate_url urls input =
    build_by_network urls input.template input.destination input.program_id input.config
      input.network

-- ===== src/Demand/Deliverability.antt =====
-- packages/core/src/demand/deliverability.ts: why a creative can never serve for one app. The
-- texts that go with a reason are left out.
pub mod Laws
use adgate.Prelude.{
  ℕ, String, Bool, true, false, ◌&&◌, ◌||◌, not, Option, none, some, List, [], ◌∷◌, ◌++◌, map,
  if◌then◌else◌, filter, any, all, is_empty, includes, distinct, ◌==◌, string_eq, codes, codes_eq,
  starts_with,
}
use adgate.Schema.{
  AffiliateNetwork, network_eq, DemandSource, affiliate, source_eq, DemandEntry, PolicyConfig,
  CatalogCreative, category_name,
}
use adgate.Policy.Regions.{expand_regions, is_region_allowed}
use adgate.Demand.Match.{is_wildcard_target, without_last}

pub data DeliverabilityReason : Type 0 where
  inactive source_not_enabled network_not_enabled affiliate_not_configured : DeliverabilityReason
  region_never_allowed no_target_categories all_categories_blocked : DeliverabilityReason

pub data CreativeDeliverability : Type 0 where
  deliverable : CreativeDeliverability
  blocked : DeliverabilityReason → CreativeDeliverability

-- The networks that `apps.affiliate_config` has credentials for.
abbrev pub AffiliateConfig : Type 0
AffiliateConfig = List AffiliateNetwork

unfoldable pub enabled_demand_sources : List DemandEntry → List DemandSource
enabled_demand_sources demand =
    distinct (map (λ entry. entry.source) (filter (λ entry. entry.enabled) demand))

-- `flatMap` to the network of an enabled affiliate entry.
unfoldable pub affiliate_networks : List DemandEntry → List AffiliateNetwork
affiliate_networks [] = []
affiliate_networks (entry ∷ demand) =
    (if entry.enabled && entry.source == affiliate
      then elim (entry.network) [ none ↦ [] | some n ↦ n ∷ [] ]
      else [])
    ++ affiliate_networks demand

unfoldable pub enabled_affiliate_networks : List DemandEntry → List AffiliateNetwork
enabled_affiliate_networks demand = distinct (affiliate_networks demand)

abbrev pub networks_for : CatalogCreative → List AffiliateNetwork → List AffiliateNetwork
networks_for creative enabled = elim (creative.network) [ none ↦ enabled | some n ↦ n ∷ [] ]

-- By code points, without a trailing `.*`.
unfoldable pub target_category_base : String → List ℕ
target_category_base target =
    if is_wildcard_target target then without_last (without_last (codes target)) else codes target

unfoldable pub is_blocked_category : List String → String → Bool
is_blocked_category blocked_categories target =
    let base = target_category_base target in
    any (λ category. base == codes category || starts_with base (codes category ++ 46 ∷ []))
      blocked_categories

unfoldable pub serves_some_allowed_region : CatalogCreative → List String → Bool
serves_some_allowed_region creative allow =
    if is_empty creative.target_regions
    then not (is_empty (expand_regions allow))
    else any (λ region. is_region_allowed region allow) (expand_regions creative.target_regions)

unfoldable pub affiliate_failure :
    CatalogCreative → List DemandEntry → AffiliateConfig → CreativeDeliverability
affiliate_failure creative demand config =
    let enabled = enabled_affiliate_networks demand in
    if elim (creative.network) [ none ↦ false | some n ↦ not (includes enabled n) ]
    then blocked network_not_enabled
    else if any (includes config) (networks_for creative enabled)
    then deliverable
    else blocked affiliate_not_configured

abbrev pub or_blocked : CreativeDeliverability → CreativeDeliverability → CreativeDeliverability
or_blocked deliverable later = later
or_blocked (blocked reason) later = blocked reason

unfoldable pub creative_deliverability :
    CatalogCreative → PolicyConfig → AffiliateConfig → CreativeDeliverability
creative_deliverability creative policy config =
    if not creative.active
    then blocked inactive
    else if not (includes (enabled_demand_sources policy.demand) creative.source)
    then blocked source_not_enabled
    else or_blocked
        (if creative.source == affiliate
          then affiliate_failure creative policy.demand config
          else deliverable)
        (if not (serves_some_allowed_region creative policy.regions_allow)
          then blocked region_never_allowed
          else if is_empty creative.target_categories
          then blocked no_target_categories
          else if all (is_blocked_category (map category_name policy.blocked_categories))
              creative.target_categories
          then blocked all_categories_blocked
          else deliverable)

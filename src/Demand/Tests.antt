-- ===== src/Demand/Tests.antt =====
-- The demand's theorems at one catalog and one request.
use adgate.Prelude.{
  ℕ, ◌≤◌, ◌<◌, ◌≡◌, ◌↔◌, ◌⊎◌, ◌≢◌, ◌+◌, refl, true, Option, none, some, List, [], ◌∷◌, ◌++◌, map,
  codes, All, Among, length,
}
use adgate.Schema.{Candidate, CatalogCreative, direct, affiliate, gravity}
use adgate.Policy.Regions.{is_region_allowed, expand_regions, eu_member_states}
use adgate.Demand.Exclusions.{domain_matches, normalize_domain, dot}
use adgate.Demand.Exclusions.Laws.{domain_matches_iff}
use adgate.Demand.Ranking.{compare_by_revenue, max_candidates}
use adgate.Demand.Ranking.Order.{Before}
use adgate.Demand.Match.{match_score, creative_serves_region}
use adgate.Demand.Match.Laws.{match_score_iff, matches}
use adgate.Demand.Match.Direct.{select_direct_candidates}
use adgate.Demand.Match.Direct.Laws.{select_direct_candidates_lem, is_eligible, as_candidate}
use adgate.Demand.Mediate.{
  Adapter, answers, times_out, runs, throws, EligibleCandidate, mediate, requested_of, candidate_of,
  source_of, fetch_one, fulfilled, settle,
}
use adgate.Demand.Mediate.Settled.{fetch_one-runs}
use adgate.Demand.Mediate.Selection.{all_eligible}
use adgate.Demand.Mediate.Winner.{IsWinner}
use adgate.Demand.Mediate.Laws.{mediate-IsWinner, mediate-responses, mediate-tally, tally}
use adgate.Demand.Deliverability.{
  creative_deliverability, blocked, region_never_allowed, enabled_demand_sources,
  serves_some_allowed_region,
}
use adgate.Demand.Deliverability.Laws.{creative_deliverability-blocked}
use adgate.Samples.{policy, creative, candidate, request, same_text}

domain_matches_example : (domain_matches "shop.rival.com" "Rival.com" ≡ true) ↔ (
    (normalize_domain (codes "shop.rival.com") ≢ [])
    × (normalize_domain (codes "Rival.com") ≢ [])
    × ((normalize_domain (codes "shop.rival.com") ≡ normalize_domain (codes "Rival.com"))
        ⊎ ((front : List ℕ) × (normalize_domain (codes "shop.rival.com")
              ≡ front ++ dot ∷ normalize_domain (codes "Rival.com")))))
domain_matches_example = domain_matches_iff "shop.rival.com" "Rival.com"

match_score_example : (0 < match_score same_text creative request []) ↔ (
    (creative.active ≡ true)
    × (creative_serves_region creative.target_regions request.user.region ≡ true)
    × (matches creative.target_categories request.classification.categories ≡ true))
match_score_example = match_score_iff same_text creative request []

direct_example :
    (let chosen = select_direct_candidates same_text (creative ∷ []) request in
      (length chosen ≤ max_candidates)
      × ((c : Candidate)
          → Among c chosen
          → (x : CatalogCreative) × Among x (creative ∷ [])
            × (is_eligible same_text request x ≡ true)
            × (as_candidate same_text request x ≡ c))
      × ((x : CatalogCreative)
          → Among x (creative ∷ [])
          → is_eligible same_text request x ≡ true
          → Among (as_candidate same_text request x) chosen
            ⊎ ((length chosen ≡ max_candidates)
                × All
                    (λ y. Before compare_by_revenue y (as_candidate same_text request x))
                    chosen)))
direct_example = select_direct_candidates_lem same_text request (creative ∷ [])

abbrev adapters : List Adapter
adapters =
    record { source = direct; behaviour = runs (answers (candidate ∷ []) 12 none ∷ []) }
    ∷ record { source = affiliate; behaviour = throws "TypeError" }
    ∷ record { source = gravity; behaviour = runs [] }
    ∷ []

selection_example :
    (winner : Option EligibleCandidate) × IsWinner same_text
      (policy.competitor_exclusions ++ [])
      250
      adapters
      winner
    × (let result = mediate same_text none adapters policy.competitor_exclusions [] none in
        (result.selected ≡ candidate_of winner)
        × (result.selected_source ≡ source_of winner)
        × (result.trace.selected ≡ source_of winner))
selection_example = mediate-IsWinner same_text adapters policy.competitor_exclusions [] none

responses_example :
    (let trace =
        (mediate same_text (some "Error") adapters policy.competitor_exclusions [] none).trace in
      (trace.requested ≡ requested_of adapters)
      × (map (λ entry. entry.source) trace.responses ≡ requested_of adapters))
responses_example =
    mediate-responses same_text (some "Error") adapters policy.competitor_exclusions [] none

tally_example :
    (let trace = (mediate same_text none adapters policy.competitor_exclusions [] none).trace in
      tally same_text trace.responses
      ≡ length trace.excluded
        + length (all_eligible same_text (policy.competitor_exclusions ++ []) 250 adapters))
tally_example = mediate-tally same_text adapters policy.competitor_exclusions [] none

settled_example :
    fetch_one same_text 250
      (record { source = direct; behaviour = runs (answers [] 3 none ∷ times_out ∷ []) })
    ≡ fulfilled (settle same_text direct 250 (answers [] 3 none))
settled_example = fetch_one-runs same_text 250 direct (answers [] 3 none ∷ times_out ∷ [])

abbrev overseas : CatalogCreative
overseas = record creative { target_regions = "BR" ∷ [] }

overseas_is_blocked : creative_deliverability overseas policy [] ≡ blocked region_never_allowed
unfolding creative_deliverability enabled_demand_sources serves_some_allowed_region expand_regions
    is_region_allowed eu_member_states
overseas_is_blocked = refl

region_is_allowed : is_region_allowed "FR" policy.regions_allow ≡ true
unfolding is_region_allowed expand_regions eu_member_states
region_is_allowed = refl

blocked_example : match_score same_text overseas request [] ≡ 0
blocked_example =
    creative_deliverability-blocked same_text overseas policy [] region_never_allowed request []
      "FR" overseas_is_blocked refl refl region_is_allowed

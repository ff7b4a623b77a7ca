-- ===== src/Policy/Merge/Nested.antt =====
-- packages/core/src/policy/merge.ts, the steps for the nested parts of a policy: the caps, the
-- disclosure, the demand list, the privacy settings and the regions.
use adgate.Prelude.{
  ℕ, ◌+◌, String, Bool, true, false, ◌||◌, not, Option, none, some, List, [], ◌∷◌, ◌++◌, map,
  if◌then◌else◌, ◌==◌, nat_eq, string_eq, distinct, filter, any, all, is_empty,
}
use adgate.Schema.{
  AffiliateNetwork, network_eq, DemandSource, affiliate, source_eq, DemandEntry,
  DemandEntryOverride, CapsOverride, DisclosureOverride, PrivacyOverride, PolicyOverrides, field,
  demand_at, fixed, cannot_add, cannot_add_demand, cannot_enable_demand,
}
use adgate.Policy.Regions.{expand_regions, is_region_allowed}
use adgate.Policy.Merge.Fields.{MergedPolicy, reject, keep_fixed, tighten, lower, higher}

unfoldable pub merge_caps : Option CapsOverride → MergedPolicy → MergedPolicy
merge_caps none m = m
merge_caps (some caps) m =
    let current = m.policy.frequency_caps in
    let session = tighten "frequency_caps.per_session" current.per_session caps.per_session lower in
    let day =
      tighten "frequency_caps.per_user_per_day" current.per_user_per_day caps.per_user_per_day
        lower in
    let turns =
      tighten "frequency_caps.min_turns_between" current.min_turns_between caps.min_turns_between
        higher in
    record {
      policy = record (m.policy) {
        frequency_caps = record {
          per_session = session.0;
          per_user_per_day = day.0;
          min_turns_between = turns.0;
        };
      };
      rejected = ((m.rejected ++ session.1) ++ day.1) ++ turns.1;
    }

unfoldable pub merge_frequency_caps : PolicyOverrides → MergedPolicy → MergedPolicy
unfolding merge_caps
merge_frequency_caps o m = merge_caps o.frequency_caps m

abbrev pub fixed_disclosure : String → String → Option String → MergedPolicy → MergedPolicy
fixed_disclosure path current value m =
    keep_fixed path "disclosure cannot be overridden per request" current value m

unfoldable pub reject_disclosure : Option DisclosureOverride → MergedPolicy → MergedPolicy
reject_disclosure none m = m
reject_disclosure (some d) m =
    let current = m.policy.disclosure in
    fixed_disclosure "disclosure.style" current.style d.style (
      fixed_disclosure "disclosure.position" current.position d.position
        (fixed_disclosure "disclosure.label" current.label d.label m))

unfoldable pub merge_disclosure : PolicyOverrides → MergedPolicy → MergedPolicy
unfolding reject_disclosure
merge_disclosure o m = reject_disclosure o.disclosure m

abbrev pub is_affiliate : DemandSource → Bool
is_affiliate source = source == affiliate

abbrev pub same_network : Option AffiliateNetwork → AffiliateNetwork → Bool
same_network none network = false
same_network (some n) network = n == network

abbrev pub network_fits : DemandEntry → Option AffiliateNetwork → Bool
network_fits entry none = true
network_fits entry (some network) =
    if is_affiliate entry.source then same_network entry.network network else true

unfoldable pub matches_demand : DemandEntry → DemandEntryOverride → Bool
matches_demand entry override =
    if not (entry.source == override.source) then false else network_fits entry override.network

abbrev pub disable : DemandEntryOverride → DemandEntry → DemandEntry
disable override entry =
    if matches_demand entry override then record entry { enabled = false } else entry

abbrev pub enable_or_disable : ℕ → DemandEntryOverride → Option Bool → MergedPolicy → MergedPolicy
enable_or_disable index override none m = m
enable_or_disable index override (some false) m = record m {
  policy = record (m.policy) { demand = map (disable override) m.policy.demand };
}
enable_or_disable index override (some true) m =
    let targets = filter (λ entry. matches_demand entry override) m.policy.demand in
    if any (λ entry. not entry.enabled) targets
    then reject (demand_at index) (cannot_enable_demand override.source override.network) m
    else m

-- The body of the loop over `overrides.demand`.
unfoldable pub merge_entry : ℕ → DemandEntryOverride → MergedPolicy → MergedPolicy
merge_entry index override m =
    if is_empty (filter (λ entry. matches_demand entry override) m.policy.demand)
    then reject (demand_at index) (cannot_add_demand override.source override.network) m
    else enable_or_disable index override override.enabled m

unfoldable pub merge_entries : ℕ → List DemandEntryOverride → MergedPolicy → MergedPolicy
merge_entries index [] m = m
merge_entries index (override ∷ overrides) m =
    merge_entries (index + 1) overrides (merge_entry index override m)

abbrev pub demand_overrides : Option (List DemandEntryOverride) → List DemandEntryOverride
demand_overrides none = []
demand_overrides (some overrides) = overrides

unfoldable pub merge_demand : PolicyOverrides → MergedPolicy → MergedPolicy
merge_demand o m = merge_entries 0 (demand_overrides o.demand) m

abbrev pub restrict_raw_text : Option Bool → MergedPolicy → MergedPolicy
restrict_raw_text none m = m
restrict_raw_text (some false) m = record m {
  policy = record (m.policy) { privacy = record (m.policy.privacy) { store_raw_text = false } };
}
restrict_raw_text (some true) m =
    if m.policy.privacy.store_raw_text
    then m
    else reject (field "privacy.store_raw_text") (fixed "cannot enable raw text storage") m

unfoldable pub restrict_privacy : Option PrivacyOverride → MergedPolicy → MergedPolicy
restrict_privacy none m = m
restrict_privacy (some privacy) m =
    let m' = restrict_raw_text privacy.store_raw_text m in
    keep_fixed "privacy.retain_days" "retain_days cannot be overridden per request"
      m'.policy.privacy.retain_days privacy.retain_days m'

unfoldable pub merge_privacy : PolicyOverrides → MergedPolicy → MergedPolicy
unfolding restrict_privacy
merge_privacy o m = restrict_privacy o.privacy m

-- Every country that the entry names is one that the stored list admits.
abbrev pub covered : List String → String → Bool
covered stored entry =
    all (λ country. is_region_allowed country stored) (expand_regions (entry ∷ []))

abbrev pub kept_regions : List String → List String → List String
kept_regions stored allow = filter (covered stored) (distinct allow)

abbrev pub added_regions : List String → List String → List String
added_regions stored allow = filter (λ entry. not (covered stored entry)) (distinct allow)

unfoldable pub restrict_regions : Option (List String) → MergedPolicy → MergedPolicy
restrict_regions none m = m
restrict_regions (some allow) m =
    let stored = m.policy.regions_allow in
    let kept = kept_regions stored allow in
    let added = added_regions stored allow in
    let m' =
      if is_empty added then m else reject (field "regions.allow") (cannot_add "regions" added) m in
    if not (is_empty kept) || is_empty added
    then record m' { policy = record (m'.policy) { regions_allow = kept } }
    else m'

unfoldable pub merge_regions : PolicyOverrides → MergedPolicy → MergedPolicy
unfolding restrict_regions
merge_regions o m = restrict_regions o.regions_allow m

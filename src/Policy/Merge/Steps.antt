-- ===== src/Policy/Merge/Steps.antt =====
-- No step of the merge loosens the policy.
use adgate.Prelude.{
  ℕ, ◌≤◌, String, ◌≡◌, refl, Bool, true, false, Option, none, some, List, [], ◌∷◌, arith, map,
  includes, string_eq, ◌+◌, is_empty, Bool-cases, inl, inr, nat_eq, includes-append,
  includes-filter, EqTest, distinct, filter, not,
}
use adgate.Schema.{category_eq, DemandEntry, DemandEntryOverride, PolicyOverrides, PrivacyOverride}
use adgate.Policy.Regions.{is_region_allowed, is_region_allowed_entry, is_region_allowed_mono}
use adgate.Policy.Merge.Fields.{
  MergedPolicy, reject, tighten, lower, higher, merge_identity, merge_tiers, merge_additive_lists,
  merge_sensitive_detection, merge_thresholds, restrict_tiers, restrict_paid, keep_fixed,
  union_with,
}
use adgate.Policy.Merge.Nested.{
  merge_frequency_caps, merge_disclosure, merge_demand, merge_privacy, merge_regions,
  restrict_privacy, restrict_raw_text, disable, enable_or_disable, merge_entry, merge_entries,
  matches_demand, demand_overrides, kept_regions, covered, restrict_regions,
}
use adgate.Policy.Merge.Stricter.{
  IsStricter, DemandWithin, DemandWithin-refl, IsStricter-refl, IsStricter-trans,
}

tighten-lower :
    (path : String) (current : ℕ) (value : Option ℕ)
    → (tighten path current value lower).0 ≤ current
unfolding tighten
tighten-lower path current none = omega arith
tighten-lower path current (some v) = ground arith

tighten-higher :
    (path : String) (current : ℕ) (value : Option ℕ)
    → current ≤ (tighten path current value higher).0
unfolding tighten
tighten-higher path current none = omega arith
tighten-higher path current (some v) = ground arith

keep_fixed-policy {ℓ} :
    {A : Type ℓ} ⦃e : EqTest A⦄ (path reason : String) (current : A) (value : Option A)
    (m : MergedPolicy)
    → (keep_fixed path reason current value m).policy ≡ m.policy
unfolding reject
keep_fixed-policy path reason current none m = refl
keep_fixed-policy path reason current (some v) m = ground arith

pub merge_identity-policy :
    (o : PolicyOverrides) (m : MergedPolicy) → (merge_identity o m).policy ≡ m.policy
unfolding merge_identity reject
merge_identity-policy o m = ground arith

restrict_tiers-IsStricter :
    (tiers : Option (List String)) (m : MergedPolicy)
    → IsStricter (restrict_tiers tiers m).policy m.policy
unfolding reject
restrict_tiers-IsStricter none m = IsStricter-refl m.policy
restrict_tiers-IsStricter (some tiers) m = grind (arith, includes-filter, DemandWithin-refl)

restrict_paid-IsStricter :
    (paid : Option Bool) (m : MergedPolicy) → IsStricter (restrict_paid paid m).policy m.policy
unfolding reject
restrict_paid-IsStricter none m = IsStricter-refl m.policy
restrict_paid-IsStricter (some true) m = grind (arith, includes-filter, DemandWithin-refl)
restrict_paid-IsStricter (some false) m = grind (arith, includes-filter, DemandWithin-refl)

pub merge_tiers-IsStricter :
    (o : PolicyOverrides) (m : MergedPolicy) → IsStricter (merge_tiers o m).policy m.policy
unfolding merge_tiers
merge_tiers-IsStricter o m =
    IsStricter-trans _ (restrict_tiers o.serve_to_tiers m).policy _
      (restrict_paid-IsStricter o.allow_paid_tiers (restrict_tiers o.serve_to_tiers m))
      (restrict_tiers-IsStricter o.serve_to_tiers m)

includes-union_with {ℓ} :
    {A : Type ℓ} ⦃e : EqTest A⦄ (base : List A) (extra : Option (List A)) (a : A)
    → includes base a ≡ true
    → includes (union_with base extra) a ≡ true
includes-union_with base none a h = h
includes-union_with base (some extra) a h =
    ground
      (arith, includes-append base (distinct (filter (λ item. not (includes base item)) extra)) a)

pub merge_additive_lists-IsStricter :
    (o : PolicyOverrides) (m : MergedPolicy) → IsStricter (merge_additive_lists o m).policy m.policy
unfolding merge_additive_lists
merge_additive_lists-IsStricter o m = grind (
  arith,
  DemandWithin-refl,
  includes-union_with ⦃e = category_eq⦄,
  includes-union_with ⦃e = string_eq⦄,
)

pub merge_sensitive_detection-IsStricter :
    (o : PolicyOverrides) (m : MergedPolicy)
    → IsStricter (merge_sensitive_detection o m).policy m.policy
unfolding merge_sensitive_detection reject
merge_sensitive_detection-IsStricter o m = grind (arith, DemandWithin-refl)

pub merge_thresholds-IsStricter :
    (o : PolicyOverrides) (m : MergedPolicy) → IsStricter (merge_thresholds o m).policy m.policy
unfolding merge_thresholds
merge_thresholds-IsStricter o m = grind (arith, DemandWithin-refl, tighten-higher)

pub merge_frequency_caps-IsStricter :
    (o : PolicyOverrides) (m : MergedPolicy) → IsStricter (merge_frequency_caps o m).policy m.policy
unfolding merge_frequency_caps
merge_frequency_caps-IsStricter o m =
    grind (arith, DemandWithin-refl, tighten-higher, tighten-lower)

pub merge_disclosure-policy :
    (o : PolicyOverrides) (m : MergedPolicy) → (merge_disclosure o m).policy ≡ m.policy
unfolding merge_disclosure reject
merge_disclosure-policy o m = ground arith

restrict_raw_text-IsStricter :
    (raw : Option Bool) (m : MergedPolicy) → IsStricter (restrict_raw_text raw m).policy m.policy
unfolding reject
restrict_raw_text-IsStricter none m = IsStricter-refl m.policy
restrict_raw_text-IsStricter (some false) m = grind (arith, DemandWithin-refl)
restrict_raw_text-IsStricter (some true) m = grind (arith, DemandWithin-refl)

restrict_privacy-IsStricter :
    (privacy : Option PrivacyOverride) (m : MergedPolicy)
    → IsStricter (restrict_privacy privacy m).policy m.policy
unfolding restrict_privacy
restrict_privacy-IsStricter none m = IsStricter-refl m.policy
restrict_privacy-IsStricter (some privacy) m =
    rw keep_fixed-policy (restrict_raw_text-IsStricter privacy.store_raw_text m)

pub merge_privacy-IsStricter :
    (o : PolicyOverrides) (m : MergedPolicy) → IsStricter (merge_privacy o m).policy m.policy
unfolding merge_privacy
merge_privacy-IsStricter o m = restrict_privacy-IsStricter o.privacy m

disable-DemandWithin :
    (override : DemandEntryOverride) (xs : List DemandEntry)
    → DemandWithin (map (disable override) xs) xs
disable-DemandWithin override [] = tt
disable-DemandWithin override (x ∷ xs) = ground (arith, disable-DemandWithin override xs)

enable_or_disable-IsStricter :
    (i : ℕ) (override : DemandEntryOverride) (enabled : Option Bool) (m : MergedPolicy)
    → IsStricter (enable_or_disable i override enabled m).policy m.policy
unfolding reject
enable_or_disable-IsStricter i override none m = IsStricter-refl m.policy
enable_or_disable-IsStricter i override (some false) m = grind (arith, disable-DemandWithin)
enable_or_disable-IsStricter i override (some true) m = grind (arith, DemandWithin-refl)

merge_entries-IsStricter :
    (i : ℕ) (overrides : List DemandEntryOverride) (m : MergedPolicy)
    → IsStricter (merge_entries i overrides m).policy m.policy
unfolding merge_entries merge_entry reject
merge_entries-IsStricter i [] m = IsStricter-refl m.policy
merge_entries-IsStricter i (override ∷ overrides) m =
    IsStricter-trans _ (merge_entry i override m).policy _
      (merge_entries-IsStricter (i + 1) overrides (merge_entry i override m))
      (elim (Bool-cases
        (is_empty (filter (λ entry. matches_demand entry override) m.policy.demand))) [
          | inl missing ↦ rw missing (IsStricter-refl m.policy)
          | inr there ↦ rw there (enable_or_disable-IsStricter i override override.enabled m)
        ])

pub merge_demand-IsStricter :
    (o : PolicyOverrides) (m : MergedPolicy) → IsStricter (merge_demand o m).policy m.policy
unfolding merge_demand
merge_demand-IsStricter o m = merge_entries-IsStricter 0 (demand_overrides o.demand) m

-- The regions that an override keeps admit no region that the stored list does not.
kept_regions_lem :
    (stored allow : List String) (r : String)
    → is_region_allowed r (kept_regions stored allow) ≡ true
    → is_region_allowed r stored ≡ true
kept_regions_lem stored allow r h =
    let (entry, listed, by_entry) = is_region_allowed_entry r (kept_regions stored allow) h in
    is_region_allowed_mono r (entry ∷ []) stored
      (ground (arith, includes-filter (covered stored) (distinct allow) entry)) by_entry

restrict_regions-IsStricter :
    (allow : Option (List String)) (m : MergedPolicy)
    → IsStricter (restrict_regions allow m).policy m.policy
unfolding restrict_regions reject
restrict_regions-IsStricter none m = IsStricter-refl m.policy
restrict_regions-IsStricter (some allow) m = grind (arith, DemandWithin-refl, kept_regions_lem)

pub merge_regions-IsStricter :
    (o : PolicyOverrides) (m : MergedPolicy) → IsStricter (merge_regions o m).policy m.policy
unfolding merge_regions
merge_regions-IsStricter o m = restrict_regions-IsStricter o.regions_allow m

-- ===== src/Policy/Tests.antt =====
-- The policy's theorems at one turn and one policy.
use adgate.Prelude.{◌≡◌, ◌↔◌, refl, inl, true, false, none, some, [], ◌∷◌, not, string_eq}
use adgate.Schema.{self_harm}
use adgate.Policy.Regions.{eu_member_states, is_eu_member_state, expand_regions, is_region_allowed}
use adgate.Policy.Caps.{next_cap_row}
use adgate.Policy.Caps.Invariant.{IsValid, empty-IsValid, next_cap_row-IsValid}
use adgate.Policy.Evaluate.{
  policy_rules, EvaluatePolicyInput, check_serve_to_tiers, check_region, check_regions,
  effective_blocked, check_names, check_blocked_categories, meets_threshold, check_min_confidence,
  check_min_commercial_intent, has_user_hash, turns_ok, check_frequency_caps, check, to_decision,
  keep_reason, run_rules, evaluate_policy,
}
use adgate.Policy.Evaluate.Loop.{
  evaluate_policy_lem, any_failed, first_failure, outcomes, decisions_of,
}
use adgate.Policy.Evaluate.Servable.{
  Servable, evaluate_policy-allowed_iff, evaluate_policy-self_harm,
}
use adgate.Policy.Merge.{merge_overrides}
use adgate.Policy.Merge.Fields.{
  reject, tighten, merge_identity, merge_tiers, merge_additive_lists, merge_sensitive_detection,
  merge_thresholds,
}
use adgate.Policy.Merge.Nested.{
  merge_caps, merge_frequency_caps, reject_disclosure, merge_disclosure, matches_demand,
  merge_entry, merge_entries, merge_demand, restrict_privacy, merge_privacy, restrict_regions,
  merge_regions,
}
use adgate.Policy.Merge.Stricter.{IsStricter}
use adgate.Policy.Merge.Laws.{merge_overrides-IsStricter, merge_overrides-serves_less}
use adgate.Samples.{input, policy, overrides, classification}

next_cap_row_example : IsValid (next_cap_row none (record { served = true; user_hash = some "u1" }))
next_cap_row_example =
    next_cap_row-IsValid none (record { served = true; user_hash = some "u1" }) empty-IsValid

rules_example :
    ((evaluate_policy input).allowed ≡ not (any_failed input policy_rules))
    × ((evaluate_policy input).reason ≡ first_failure (outcomes input policy_rules))
    × ((evaluate_policy input).decisions ≡ decisions_of input policy_rules)
rules_example = evaluate_policy_lem input

allowed_example : ((evaluate_policy input).allowed ≡ true) ↔ Servable input
allowed_example = evaluate_policy-allowed_iff input

abbrev in_danger : EvaluatePolicyInput
in_danger = record input { classification = record classification { sensitive = self_harm ∷ [] } }

self_harm_example : (evaluate_policy in_danger).allowed ≡ false
self_harm_example = evaluate_policy-self_harm in_danger (inl refl)

merge_example : IsStricter (merge_overrides policy overrides).policy policy
merge_example = merge_overrides-IsStricter policy overrides

merged_allows :
    (evaluate_policy (record input { policy = (merge_overrides policy overrides).policy })).allowed
    ≡ true
unfolding check_serve_to_tiers check_region check_regions effective_blocked check_names
    check_blocked_categories meets_threshold check_min_confidence check_min_commercial_intent
    has_user_hash turns_ok check_frequency_caps check to_decision keep_reason run_rules
    evaluate_policy eu_member_states is_eu_member_state expand_regions is_region_allowed reject
    tighten merge_identity merge_tiers merge_additive_lists merge_sensitive_detection
    merge_thresholds merge_caps merge_frequency_caps reject_disclosure merge_disclosure
    matches_demand merge_entry merge_entries merge_demand restrict_privacy merge_privacy
    restrict_regions merge_regions merge_overrides
merged_allows = refl

serves_less_example : (evaluate_policy (record input { policy = policy })).allowed ≡ true
serves_less_example = merge_overrides-serves_less input policy overrides merged_allows

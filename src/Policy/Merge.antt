-- ===== src/Policy/Merge.antt =====
-- packages/core/src/policy/merge.ts: `policy_overrides` may only make the stored policy stricter.
pub mod Fields
pub mod Nested
pub mod Stricter
pub mod Steps
pub mod Laws
use adgate.Prelude.{[]}
use adgate.Schema.{PolicyConfig, PolicyOverrides}
use adgate.Policy.Merge.Fields.{
  MergedPolicy, merge_identity, merge_tiers, merge_additive_lists, merge_sensitive_detection,
  merge_thresholds,
}
use adgate.Policy.Merge.Nested.{
  merge_frequency_caps, merge_disclosure, merge_demand, merge_privacy, merge_regions,
}

unfoldable pub merge_overrides : PolicyConfig → PolicyOverrides → MergedPolicy
merge_overrides policy overrides =
    let m : MergedPolicy = record { policy = policy; rejected = [] } in
    let m = merge_identity overrides m in
    let m = merge_tiers overrides m in
    let m = merge_additive_lists overrides m in
    let m = merge_sensitive_detection overrides m in
    let m = merge_thresholds overrides m in
    let m = merge_frequency_caps overrides m in
    let m = merge_disclosure overrides m in
    let m = merge_demand overrides m in
    let m = merge_privacy overrides m in merge_regions overrides m

-- ===== src/Policy/Merge/Fields.antt =====
-- packages/core/src/policy/merge.ts, the steps for the lists and the thresholds. The clone of the
-- policy that the source changes in place, and the list that `reject` pushes to, are the state
-- that each step passes on. The values are immutable, so the clone is the stored policy itself.
use adgate.Prelude.{
  ℕ, String, Bool, true, false, not, Option, none, some, List, [], ◌∷◌, ◌++◌, if◌then◌else◌, ltb,
  EqTest, ◌==◌, nat_eq, string_eq, includes, distinct, filter, is_empty,
}
use adgate.Schema.{
  category_eq, SensitiveDetection, strict, balanced, network_eq, source_eq, PolicyConfig,
  PolicyOverrides, RejectPath, field, RejectReason, fixed, cannot_raise, cannot_lower, cannot_add,
  OverrideRejection,
}

pub record MergedPolicy : Type 0 where
  pub policy : PolicyConfig
  pub rejected : List OverrideRejection

unfoldable pub reject : RejectPath → RejectReason → MergedPolicy → MergedPolicy
reject path reason m = record m {
  rejected = m.rejected ++ record { path = path; reason = reason } ∷ [];
}

module _ {ℓ} {A : Type ℓ} ⦃e : EqTest A⦄ where
  -- `intersect`: what stays of `base`, and what `allowed` would add.
  abbrev pub kept : List A → List A → List A
  kept base allowed = filter (includes allowed) base

  abbrev pub added : List A → List A → List A
  added base allowed = distinct (filter (λ item. not (includes base item)) allowed)

  abbrev pub union : List A → List A → List A
  union base extra = base ++ distinct (filter (λ item. not (includes base item)) extra)

  -- A per-app setting: any change of it is rejected.
  abbrev pub keep_fixed : String → String → A → Option A → MergedPolicy → MergedPolicy
  keep_fixed path reason current none m = m
  keep_fixed path reason current (some value) m =
      if value == current then m else reject (field path) (fixed reason) m

pub data Direction : Type 0 where
  lower higher : Direction

abbrev pub stricter_than : Direction → ℕ → ℕ → Bool
stricter_than lower value current = ltb value current
stricter_than higher value current = ltb current value

abbrev pub cannot : Direction → String → ℕ → ℕ → RejectReason
cannot lower path current value = cannot_raise path current value
cannot higher path current value = cannot_lower path current value

-- The value to keep, with the rejection if the override is the looser one.
unfoldable pub tighten : String → ℕ → Option ℕ → Direction → ℕ × List OverrideRejection
tighten path current none stricter = (current, [])
tighten path current (some value) stricter =
    if value == current
    then (current, [])
    else if stricter_than stricter value current
    then (value, [])
    else (current, record { path = field path; reason = cannot stricter path current value } ∷ [])

unfoldable pub merge_identity : PolicyOverrides → MergedPolicy → MergedPolicy
merge_identity o m =
    let m' = keep_fixed "version" "version cannot be overridden" m.policy.version o.version m in
    keep_fixed "app_id" "app_id cannot be overridden" m'.policy.app_id o.app_id m'

abbrev pub restrict_tiers : Option (List String) → MergedPolicy → MergedPolicy
restrict_tiers none m = m
restrict_tiers (some tiers) m =
    let base = m.policy.serve_to_tiers in
    let m' = record m { policy = record (m.policy) { serve_to_tiers = kept base tiers } } in
    if is_empty (added base tiers)
    then m'
    else reject (field "serve_to_tiers") (cannot_add "tiers" (added base tiers)) m'

abbrev pub restrict_paid : Option Bool → MergedPolicy → MergedPolicy
restrict_paid none m = m
restrict_paid (some true) m =
    if m.policy.allow_paid_tiers
    then m
    else reject (field "allow_paid_tiers") (fixed "cannot enable paid tiers") m
restrict_paid (some false) m =
    if m.policy.allow_paid_tiers
    then record m {
      policy = record (m.policy) {
        allow_paid_tiers = false;
        serve_to_tiers = filter (λ tier. tier == "free") m.policy.serve_to_tiers;
      };
    }
    else m

unfoldable pub merge_tiers : PolicyOverrides → MergedPolicy → MergedPolicy
merge_tiers o m = restrict_paid o.allow_paid_tiers (restrict_tiers o.serve_to_tiers m)

abbrev pub union_with {ℓ} : {A : Type ℓ} ⦃e : EqTest A⦄ → List A → Option (List A) → List A
union_with base none = base
union_with base (some extra) = union base extra

unfoldable pub merge_additive_lists : PolicyOverrides → MergedPolicy → MergedPolicy
merge_additive_lists o m = record m {
  policy = record (m.policy) {
    blocked_categories = union_with m.policy.blocked_categories o.blocked_categories;
    competitor_exclusions = union_with m.policy.competitor_exclusions o.competitor_exclusions;
  };
}

abbrev pub is_strict : SensitiveDetection → Bool
is_strict strict = true
is_strict balanced = false

abbrev pub merge_detection : Option SensitiveDetection → MergedPolicy → MergedPolicy
merge_detection none m = m
merge_detection (some strict) m = record m {
  policy = record (m.policy) { sensitive_detection = strict };
}
merge_detection (some balanced) m =
    if is_strict m.policy.sensitive_detection
    then reject (field "sensitive_detection")
        (fixed "cannot relax sensitive_detection from strict to balanced") m
    else m

unfoldable pub merge_sensitive_detection : PolicyOverrides → MergedPolicy → MergedPolicy
merge_sensitive_detection o m = merge_detection o.sensitive_detection m

unfoldable pub merge_thresholds : PolicyOverrides → MergedPolicy → MergedPolicy
merge_thresholds o m =
    let intent =
      tighten "min_commercial_intent" m.policy.min_commercial_intent o.min_commercial_intent
        higher in
    let confidence = tighten "min_confidence" m.policy.min_confidence o.min_confidence higher in
    record {
      policy = record (m.policy) {
        min_commercial_intent = intent.0;
        min_confidence = confidence.0;
      };
      rejected = (m.rejected ++ intent.1) ++ confidence.1;
    }

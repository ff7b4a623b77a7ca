-- ===== src/Policy/Merge/Laws.antt =====
-- The merged policy against the stored one.
use adgate.Prelude.{◌≡◌, ℕ, ◌≤◌, String, true, [], arith, Option, none, some, inl, inr}
use native.Mathlib.Nat.{le_trans}
use adgate.Schema.{Score, nan, num, PolicyConfig, PolicyOverrides}
use adgate.Policy.Evaluate.{EvaluatePolicyInput, evaluate_policy}
use adgate.Policy.Evaluate.Rules.{RegionServed, Reaches, GapServed, CapsHaveRoom}
use adgate.Policy.Evaluate.Servable.{Servable, evaluate_policy-allowed_iff}
use adgate.Policy.Merge.{merge_overrides}
use adgate.Policy.Merge.Fields.{
  MergedPolicy, merge_identity, merge_tiers, merge_additive_lists, merge_sensitive_detection,
  merge_thresholds,
}
use adgate.Policy.Merge.Nested.{merge_frequency_caps, merge_disclosure, merge_demand, merge_privacy}
use adgate.Policy.Merge.Stricter.{IsStricter, IsStricter-refl, IsStricter-trans}
use adgate.Policy.Merge.Steps.{
  merge_identity-policy, merge_tiers-IsStricter, merge_additive_lists-IsStricter,
  merge_sensitive_detection-IsStricter, merge_thresholds-IsStricter,
  merge_frequency_caps-IsStricter, merge_disclosure-policy, merge_demand-IsStricter,
  merge_privacy-IsStricter, merge_regions-IsStricter,
}

-- Whatever the overrides, every value of the merged policy is at least as strict as the stored one,
-- and the settings of the app (version, id, disclosure, retention) are the stored ones.
pub merge_overrides-IsStricter :
    (policy : PolicyConfig) (o : PolicyOverrides)
    → IsStricter (merge_overrides policy o).policy policy
unfolding merge_overrides
merge_overrides-IsStricter policy o =
    let m0 : MergedPolicy = record { policy = policy; rejected = [] } in
    let m1 = merge_identity o m0 in
    let m2 = merge_tiers o m1 in
    let m3 = merge_additive_lists o m2 in
    let m4 = merge_sensitive_detection o m3 in
    let m5 = merge_thresholds o m4 in
    let m6 = merge_frequency_caps o m5 in
    let m7 = merge_disclosure o m6 in
    let m8 = merge_demand o m7 in
    let m9 = merge_privacy o m8 in
    let s1 : IsStricter m1.policy policy =
      rw (merge_identity-policy o m0) (IsStricter-refl policy) in
    let s2 = IsStricter-trans _ _ _ (merge_tiers-IsStricter o m1) s1 in
    let s3 = IsStricter-trans _ _ _ (merge_additive_lists-IsStricter o m2) s2 in
    let s4 = IsStricter-trans _ _ _ (merge_sensitive_detection-IsStricter o m3) s3 in
    let s5 = IsStricter-trans _ _ _ (merge_thresholds-IsStricter o m4) s4 in
    let s6 = IsStricter-trans _ _ _ (merge_frequency_caps-IsStricter o m5) s5 in
    let s7 : IsStricter m7.policy policy = rw (merge_disclosure-policy o m6) s6 in
    let s8 = IsStricter-trans _ _ _ (merge_demand-IsStricter o m7) s7 in
    let s9 = IsStricter-trans _ _ _ (merge_privacy-IsStricter o m8) s8 in
    IsStricter-trans _ _ _ (merge_regions-IsStricter o m9) s9

Reaches-mono : (score : Score) (a b : ℕ) → a ≤ b → Reaches score b → Reaches score a
Reaches-mono nan a b le h = h
Reaches-mono (num s) a b le h = omega arith

GapServed-mono : (turns : Option ℕ) (a b : ℕ) → a ≤ b → GapServed turns b → GapServed turns a
GapServed-mono none a b le h = tt
GapServed-mono (some t) a b le h = omega arith

module _ (i : EvaluatePolicyInput) (p q : PolicyConfig) (stricter : IsStricter p q) where
  abbrev under : PolicyConfig → EvaluatePolicyInput
  under policy = record i { policy = policy }

  region_served :
      (r : Option String) → RegionServed r p.regions_allow → RegionServed r q.regions_allow
  region_served none h = absurd h
  region_served (some r) h = stricter.regions r h

  caps_served : CapsHaveRoom (under p) → CapsHaveRoom (under q)
  caps_served (session, day, gap) = (
    omega arith,
    λ known. le_trans (day known) stricter.caps.day,
    GapServed-mono i.cap_state.turns_since_last _ _ stricter.caps.gap gap,
  )

  Servable-mono : Servable (under p) → Servable (under q)
  Servable-mono s = record {
    tier = (
      stricter.tiers i.user.tier s.tier.0,
      elim (s.tier.1) [ inl free ↦ inl free | inr paid ↦ inr (stricter.paid paid) ],
    );
    region = region_served i.user.region s.region;
    not_blocked = λ c b. s.not_blocked c (ground (arith, b, stricter.blocked c));
    confidence = Reaches-mono i.classification.confidence _ _ stricter.confidence s.confidence;
    intent = Reaches-mono i.classification.commercial_intent _ _ stricter.intent s.intent;
    caps = caps_served s.caps;
  }

-- A turn that the policy merged with any overrides allows, the stored policy allows as well:
-- overrides can suppress an ad and can never cause one.
pub merge_overrides-serves_less :
    (i : EvaluatePolicyInput) (policy : PolicyConfig) (o : PolicyOverrides)
    → (evaluate_policy (record i { policy = (merge_overrides policy o).policy })).allowed ≡ true
    → (evaluate_policy (record i { policy = policy })).allowed ≡ true
merge_overrides-serves_less i policy o h =
    let merged = (merge_overrides policy o).policy in
    (evaluate_policy-allowed_iff (record i { policy = policy })).1 (
      Servable-mono i merged policy (merge_overrides-IsStricter policy o)
        ((evaluate_policy-allowed_iff (record i { policy = merged })).0 h))

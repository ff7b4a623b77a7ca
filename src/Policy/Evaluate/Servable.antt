-- ===== src/Policy/Evaluate/Servable.antt =====
-- What the policy promises of a turn that it allows, written without the rules' code.
use adgate.Prelude.{
  ◌≡◌, refl, ◌≢◌, ◌↔◌, ◌⊎◌, inl, inr, true, false, ◌&&◌, Bool-cases, some, arith, includes,
  string_eq,
}
use adgate.Schema.{self_harm, category_eq, paid_user}
use adgate.Policy.Evaluate.{
  EvaluatePolicyInput, check, check_regions, check_serve_to_tiers, check_blocked_categories,
  check_min_confidence, check_min_commercial_intent, check_frequency_caps, evaluate_policy,
}
use adgate.Policy.Evaluate.Loop.{is_failed, evaluate_policy_lem}
use adgate.Policy.Evaluate.Rules.{
  TierServed, RegionServed, NotBlocked, Reaches, CapsHaveRoom, check_serve_to_tiers_iff,
  check_region_iff, check_blocked_categories_iff, check_min_confidence_iff,
  check_min_commercial_intent_iff, check_frequency_caps_iff,
}

pub record Servable (i : EvaluatePolicyInput) : Type 0 where
  pub tier : TierServed i
  pub region : RegionServed i.user.region i.policy.regions_allow
  pub not_blocked : NotBlocked i
  pub confidence : Reaches i.classification.confidence i.policy.min_confidence
  pub intent : Reaches i.classification.commercial_intent i.policy.min_commercial_intent
  pub caps : CapsHaveRoom i

check_regions_iff :
    (i : EvaluatePolicyInput)
    → (is_failed (check_regions i) ≡ false) ↔ RegionServed i.user.region i.policy.regions_allow
unfolding check_regions
check_regions_iff i = check_region_iff i.user.region i.policy.regions_allow

-- The rules that can fail, taken apart.
allowed_parts :
    (i : EvaluatePolicyInput)
    → ((evaluate_policy i).allowed ≡ true) ↔ (
        (is_failed (check_serve_to_tiers i) ≡ false)
        × (is_failed (check_regions i) ≡ false)
        × (is_failed (check_blocked_categories i) ≡ false)
        × (is_failed (check_min_confidence i) ≡ false)
        × (is_failed (check_min_commercial_intent i) ≡ false)
        × (is_failed (check_frequency_caps i) ≡ false))
unfolding check
allowed_parts i = rw ((evaluate_policy_lem i).0) (ground arith)

-- A turn is allowed exactly when its tier and its region are served, no blocked category is named,
-- both scores reach their thresholds and every cap has room.
pub evaluate_policy-allowed_iff :
    (i : EvaluatePolicyInput) → ((evaluate_policy i).allowed ≡ true) ↔ Servable i
evaluate_policy-allowed_iff i = (
  λ h.
      let (tier, region, blocked, confidence, intent, caps) = (allowed_parts i).0 h in
      record {
        tier = (check_serve_to_tiers_iff i).0 tier;
        region = (check_regions_iff i).0 region;
        not_blocked = (check_blocked_categories_iff i).0 blocked;
        confidence = (check_min_confidence_iff i).0 confidence;
        intent = (check_min_commercial_intent_iff i).0 intent;
        caps = (check_frequency_caps_iff i).0 caps;
      },
  λ s. (allowed_parts i).1 (
    (check_serve_to_tiers_iff i).1 s.tier,
    (check_regions_iff i).1 s.region,
    (check_blocked_categories_iff i).1 s.not_blocked,
    (check_min_confidence_iff i).1 s.confidence,
    (check_min_commercial_intent_iff i).1 s.intent,
    (check_frequency_caps_iff i).1 s.caps,
  ),
)

-- A turn whose classification names self-harm, as a sensitive or as a content category, is never
-- allowed, even under a policy built by hand that does not block it.
pub evaluate_policy-self_harm :
    (i : EvaluatePolicyInput)
    → (includes i.classification.sensitive self_harm ≡ true)
      ⊎ (includes i.classification.categories "self_harm" ≡ true)
    → (evaluate_policy i).allowed ≡ false
evaluate_policy-self_harm i named = elim (Bool-cases (evaluate_policy i).allowed) [
  | inl allowed ↦
      let clear = ((evaluate_policy-allowed_iff i).0 allowed).not_blocked self_harm (inr refl) in
      ground arith
  | inr suppressed ↦ suppressed
]

-- A tier other than the free one is suppressed with the reason `paid_user` unless the policy both
-- lists it and allows paid tiers.
pub evaluate_policy-paid_user :
    (i : EvaluatePolicyInput)
    → i.user.tier ≢ "free"
    → (includes i.policy.serve_to_tiers i.user.tier && i.policy.allow_paid_tiers) ≡ false
    → ((evaluate_policy i).allowed ≡ false) × ((evaluate_policy i).reason ≡ some paid_user)
unfolding check check_serve_to_tiers
evaluate_policy-paid_user i paid refused = ground (
  arith,
  (evaluate_policy_lem i).0,
  (evaluate_policy_lem i).1,
  string_eq.test_iff i.user.tier "free",
)

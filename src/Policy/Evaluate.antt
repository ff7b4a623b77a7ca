-- ===== src/Policy/Evaluate.antt =====
-- packages/core/src/policy/evaluate.ts: the seven rules and the loop that runs them all. The
-- text of a detail is built by a template; a constructor of `Detail` stands for a template and
-- holds the values put into it.
pub mod Rules
pub mod Servable
pub mod Loop
use adgate.Prelude.{
  ℕ, String, Bool, true, false, ◌&&◌, ◌||◌, not, Option, none, some, List, [], ◌∷◌, ◌++◌,
  if◌then◌else◌, ltb, leb, ◌==◌, string_eq, includes, is_none,
}
use adgate.Schema.{
  SensitiveCategory, self_harm, category_name, category_eq, SuppressReason, paid_user,
  region_blocked, low_confidence, low_commercial_intent, frequency_cap, sensitive_category, Score,
  nan, num, Classification, User, Surface, CapState, PolicyConfig,
}
use adgate.Policy.Regions.{is_region_allowed}

-- The rules, in the order in which they run.
pub data PolicyRule : Type 0 where
  serve_to_tiers regions blocked_categories min_confidence : PolicyRule
  min_commercial_intent frequency_caps competitor_exclusions : PolicyRule

abbrev pub policy_rules : List PolicyRule
policy_rules =
    serve_to_tiers ∷ regions ∷ blocked_categories ∷ min_confidence ∷ min_commercial_intent
    ∷ frequency_caps ∷ competitor_exclusions ∷ []

pub data Detail : Type 0 where
  tier_not_listed tier_requires_paid region_not_allowed in_sensitive in_categories : String → Detail
  region_missing : Detail
  confidence_below commercial_intent_below : Score → ℕ → Detail
  caps_detail : ℕ → ℕ → Option (ℕ × ℕ) → Option ℕ → Detail

pub data PolicyDecisionResult : Type 0 where
  pass fail pending : PolicyDecisionResult

pub record PolicyDecision : Type 0 where
  pub rule : PolicyRule
  pub result : PolicyDecisionResult
  pub detail : Option Detail

pub record EvaluatePolicyInput : Type 0 where
  pub classification : Classification
  pub user : User
  pub policy : PolicyConfig
  pub cap_state : CapState
  pub surface : Surface

pub record PolicyEvaluation : Type 0 where
  pub allowed : Bool
  pub reason : Option SuppressReason
  pub decisions : List PolicyDecision

pub data RuleOutcome : Type 0 where
  passed : Option Detail → RuleOutcome
  unresolved : RuleOutcome
  failed : SuppressReason → Detail → RuleOutcome

unfoldable pub check_serve_to_tiers : EvaluatePolicyInput → RuleOutcome
check_serve_to_tiers input =
    let tier = input.user.tier in
    if not (includes input.policy.serve_to_tiers tier)
    then failed paid_user (tier_not_listed tier)
    else if not (tier == "free") && not input.policy.allow_paid_tiers
    then failed paid_user (tier_requires_paid tier)
    else passed none

unfoldable pub check_region : Option String → List String → RuleOutcome
check_region none allow = failed region_blocked region_missing
check_region (some region) allow =
    if is_region_allowed region allow
    then passed none
    else failed region_blocked (region_not_allowed region)

unfoldable pub check_regions : EvaluatePolicyInput → RuleOutcome
unfolding check_region
check_regions input = check_region input.user.region input.policy.regions_allow

-- The policy's list, with `self_harm` even where a policy built by hand lacks it.
unfoldable pub effective_blocked : List SensitiveCategory → List SensitiveCategory
effective_blocked blocked =
    if includes blocked self_harm then blocked else blocked ++ self_harm ∷ []

-- The loop of `checkBlockedCategories`.
unfoldable pub check_names :
    List SensitiveCategory → List String → List SensitiveCategory → RuleOutcome
check_names sensitive categories [] = passed none
check_names sensitive categories (name ∷ blocked) =
    let rest = check_names sensitive categories blocked in
    if includes sensitive name
    then failed (sensitive_category name) (in_sensitive (category_name name))
    else if includes categories (category_name name)
    then failed (sensitive_category name) (in_categories (category_name name))
    else rest

unfoldable pub check_blocked_categories : EvaluatePolicyInput → RuleOutcome
check_blocked_categories input =
    check_names input.classification.sensitive input.classification.categories
      (effective_blocked input.policy.blocked_categories)

-- `score >= min`, which is false of NaN.
unfoldable pub meets_threshold : Score → ℕ → Bool
meets_threshold nan min = false
meets_threshold (num score) min = leb min score

unfoldable pub check_min_confidence : EvaluatePolicyInput → RuleOutcome
check_min_confidence input =
    let score = input.classification.confidence in
    let min = input.policy.min_confidence in
    if meets_threshold score min
    then passed none
    else failed low_confidence (confidence_below score min)

unfoldable pub check_min_commercial_intent : EvaluatePolicyInput → RuleOutcome
check_min_commercial_intent input =
    let score = input.classification.commercial_intent in
    let min = input.policy.min_commercial_intent in
    if meets_threshold score min
    then passed none
    else failed low_commercial_intent (commercial_intent_below score min)

unfoldable pub has_user_hash : Option String → Bool
has_user_hash none = false
has_user_hash (some hash) = not (hash == "")

unfoldable pub turns_ok : Option ℕ → ℕ → Bool
turns_ok none min = true
turns_ok (some turns) min = leb min turns

unfoldable pub check_frequency_caps : EvaluatePolicyInput → RuleOutcome
check_frequency_caps input =
    let caps = input.policy.frequency_caps in
    let state = input.cap_state in
    let day_applies = has_user_hash input.user.user_hash in
    let detail =
      caps_detail state.session_count caps.per_session
        (if day_applies then some (state.day_count, caps.per_user_per_day) else none)
        state.turns_since_last in
    let session_ok = ltb state.session_count caps.per_session in
    let day_ok = not day_applies || ltb state.day_count caps.per_user_per_day in
    if session_ok && day_ok && turns_ok state.turns_since_last caps.min_turns_between
    then passed (some detail)
    else failed frequency_cap detail

unfoldable pub check : PolicyRule → EvaluatePolicyInput → RuleOutcome
check serve_to_tiers input = check_serve_to_tiers input
check regions input = check_regions input
check blocked_categories input = check_blocked_categories input
check min_confidence input = check_min_confidence input
check min_commercial_intent input = check_min_commercial_intent input
check frequency_caps input = check_frequency_caps input
check competitor_exclusions input = unresolved

unfoldable pub to_decision : PolicyRule → RuleOutcome → PolicyDecision
to_decision rule (passed detail) = record { rule = rule; result = pass; detail = detail }
to_decision rule unresolved = record { rule = rule; result = pending; detail = none }
to_decision rule (failed reason detail) = record {
  rule = rule;
  result = fail;
  detail = some detail;
}

-- The reason after one more outcome: the first failure stays.
unfoldable pub keep_reason : Option SuppressReason → RuleOutcome → Option SuppressReason
keep_reason (some reason) outcome = some reason
keep_reason none (failed reason detail) = some reason
keep_reason none (passed detail) = none
keep_reason none unresolved = none

-- The loop over the rules.
unfoldable pub run_rules :
    EvaluatePolicyInput
    → List PolicyRule
    → List PolicyDecision
    → Option SuppressReason
    → PolicyEvaluation
run_rules input [] decisions reason = record {
  allowed = is_none reason;
  reason = reason;
  decisions = decisions;
}
run_rules input (rule ∷ rules) decisions reason =
    let outcome = check rule input in
    run_rules input rules (decisions ++ to_decision rule outcome ∷ []) (keep_reason reason outcome)

unfoldable pub evaluate_policy : EvaluatePolicyInput → PolicyEvaluation
unfolding run_rules
evaluate_policy input = run_rules input policy_rules [] none

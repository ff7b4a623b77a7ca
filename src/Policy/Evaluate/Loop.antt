-- ===== src/Policy/Evaluate/Loop.antt =====
-- The loop of `evaluatePolicy` against a description with no accumulators.
use adgate.Prelude.{
  ◌≡◌, refl, ◌∙◌, Bool, true, false, not, Option, none, some, List, [], ◌∷◌, ◌++◌, map, any, arith,
  is_none,
}
use mathlib.Core.List.{append_assoc, append-nil}
use adgate.Schema.{SuppressReason}
use adgate.Policy.Evaluate.{
  PolicyRule, policy_rules, EvaluatePolicyInput, PolicyDecision, RuleOutcome, passed, unresolved,
  failed, check, to_decision, keep_reason, run_rules, evaluate_policy,
}

abbrev pub is_failed : RuleOutcome → Bool
is_failed (passed detail) = false
is_failed unresolved = false
is_failed (failed reason detail) = true

abbrev or_first : RuleOutcome → Option SuppressReason → Option SuppressReason
or_first (passed detail) later = later
or_first unresolved later = later
or_first (failed reason detail) later = some reason

-- The reason of the first outcome that is a failure.
abbrev pub first_failure : List RuleOutcome → Option SuppressReason
first_failure [] = none
first_failure (outcome ∷ outcomes) = or_first outcome (first_failure outcomes)

module _ (input : EvaluatePolicyInput) where
  abbrev pub outcomes : List PolicyRule → List RuleOutcome
  outcomes rules = map (λ rule. check rule input) rules

  abbrev pub decisions_of : List PolicyRule → List PolicyDecision
  decisions_of rules = map (λ rule. to_decision rule (check rule input)) rules

  abbrev pub any_failed : List PolicyRule → Bool
  any_failed rules = any (λ rule. is_failed (check rule input)) rules

  abbrev merged : Option SuppressReason → Option SuppressReason → Option SuppressReason
  merged none later = later
  merged (some reason) later = some reason

  run_rules_reason :
      (rules : List PolicyRule) (decisions : List PolicyDecision) (reason : Option SuppressReason)
      → (run_rules input rules decisions reason).reason
        ≡ merged reason (first_failure (outcomes rules))
  unfolding run_rules keep_reason
  run_rules_reason [] decisions none = refl
  run_rules_reason [] decisions (some r) = refl
  run_rules_reason (rule ∷ rules) decisions reason = ground (
    arith,
    run_rules_reason rules (decisions ++ to_decision rule (check rule input) ∷ [])
        (keep_reason reason (check rule input)),
  )

  run_rules_decisions :
      (rules : List PolicyRule) (decisions : List PolicyDecision) (reason : Option SuppressReason)
      → (run_rules input rules decisions reason).decisions ≡ decisions ++ decisions_of rules
  unfolding run_rules
  run_rules_decisions [] decisions reason = rw append-nil
  run_rules_decisions (rule ∷ rules) decisions reason =
      run_rules_decisions rules (decisions ++ to_decision rule (check rule input) ∷ [])
        (keep_reason reason (check rule input))
      ∙ append_assoc decisions (to_decision rule (check rule input) ∷ []) (decisions_of rules)

  run_rules_allowed :
      (rules : List PolicyRule) (decisions : List PolicyDecision) (reason : Option SuppressReason)
      → (run_rules input rules decisions reason).allowed
        ≡ is_none (run_rules input rules decisions reason).reason
  unfolding run_rules
  run_rules_allowed [] decisions reason = refl
  run_rules_allowed (rule ∷ rules) decisions reason =
      run_rules_allowed rules (decisions ++ to_decision rule (check rule input) ∷ [])
        (keep_reason reason (check rule input))

  first_failure-none :
      (rules : List PolicyRule) → is_none (first_failure (outcomes rules)) ≡ not (any_failed rules)
  first_failure-none [] = refl
  first_failure-none (rule ∷ rules) = ground (arith, first_failure-none rules)

  -- Every rule records its decision, in the documented order; the turn is allowed exactly when no
  -- rule fails; and the reason is that of the first rule that fails.
  pub evaluate_policy_lem :
      ((evaluate_policy input).allowed ≡ not (any_failed policy_rules))
      × ((evaluate_policy input).reason ≡ first_failure (outcomes policy_rules))
      × ((evaluate_policy input).decisions ≡ decisions_of policy_rules)
  unfolding evaluate_policy
  evaluate_policy_lem = (
    ground (
      arith,
      run_rules_allowed policy_rules [] none,
      run_rules_reason policy_rules [] none,
      first_failure-none policy_rules,
    ),
    run_rules_reason policy_rules [] none,
    run_rules_decisions policy_rules [] none,
  )

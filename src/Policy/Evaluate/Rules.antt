-- ===== src/Policy/Evaluate/Rules.antt =====
-- When each rule passes, rule by rule.
use adgate.Prelude.{
  ℕ, ◌<◌, ◌≤◌, String, ◌≡◌, refl, ap, subst, beq_self, ◌==◌, ◌↔◌, ◌⊎◌, inl, inr, true, false,
  Option, none, some, List, [], ◌∷◌, arith, string_eq, includes, includes-append, eq_of_beq,
  Bool-cases,
}
use adgate.Schema.{
  SensitiveCategory, self_harm, category_name, category_eq, Score, nan, num, Classification,
}
use adgate.Policy.Regions.{is_region_allowed}
use adgate.Policy.Evaluate.{
  EvaluatePolicyInput, check_serve_to_tiers, check_region, effective_blocked, check_names,
  check_blocked_categories, meets_threshold, check_min_confidence, check_min_commercial_intent,
  has_user_hash, turns_ok, check_frequency_caps,
}
use adgate.Policy.Evaluate.Loop.{is_failed}

-- The tier is listed, and is the free one unless paid tiers are allowed.
abbrev pub TierServed : EvaluatePolicyInput → Type 0
TierServed i =
    (includes i.policy.serve_to_tiers i.user.tier ≡ true)
    × ((i.user.tier ≡ "free") ⊎ (i.policy.allow_paid_tiers ≡ true))

abbrev pub RegionServed : Option String → List String → Type 0
RegionServed none allow = ⊥
RegionServed (some region) allow = is_region_allowed region allow ≡ true

-- The policy blocks the category, by its list or because it is `self_harm`.
abbrev pub Blocks : List SensitiveCategory → SensitiveCategory → Type 0
Blocks blocked c = (includes blocked c ≡ true) ⊎ (c ≡ self_harm)

-- The classification does not name the category, neither as sensitive nor as a content category.
abbrev pub Clear : Classification → SensitiveCategory → Type 0
Clear cls c =
    (includes cls.sensitive c ≡ false) × (includes cls.categories (category_name c) ≡ false)

abbrev pub NotBlocked : EvaluatePolicyInput → Type 0
NotBlocked i =
    (c : SensitiveCategory) → Blocks i.policy.blocked_categories c → Clear i.classification c

abbrev pub Reaches : Score → ℕ → Type 0
Reaches nan min = ⊥
Reaches (num score) min = min ≤ score

abbrev pub GapServed : Option ℕ → ℕ → Type 0
GapServed none min = Unit {0}
GapServed (some turns) min = min ≤ turns

-- The session and the gap have room, and so has the day of a user who is known.
abbrev pub CapsHaveRoom : EvaluatePolicyInput → Type 0
CapsHaveRoom i =
    (i.cap_state.session_count < i.policy.frequency_caps.per_session)
    × (has_user_hash i.user.user_hash ≡ true
        → i.cap_state.day_count < i.policy.frequency_caps.per_user_per_day)
    × GapServed i.cap_state.turns_since_last i.policy.frequency_caps.min_turns_between

pub check_serve_to_tiers_iff :
    (i : EvaluatePolicyInput) → (is_failed (check_serve_to_tiers i) ≡ false) ↔ TierServed i
unfolding check_serve_to_tiers
check_serve_to_tiers_iff i = (
  λ h. ground (arith, string_eq.test_iff i.user.tier "free"),
  λ h. ground (arith, string_eq.test_iff i.user.tier "free"),
)

pub check_region_iff :
    (region : Option String) (allow : List String)
    → (is_failed (check_region region allow) ≡ false) ↔ RegionServed region allow
unfolding check_region
check_region_iff none allow = (λ h. cc, λ h. absurd h)
check_region_iff (some region) allow = ground arith

effective_blocked_iff :
    (blocked : List SensitiveCategory) (c : SensitiveCategory)
    → (includes (effective_blocked blocked) c ≡ true) ↔ Blocks blocked c
unfolding effective_blocked
effective_blocked_iff blocked c = ground (
  arith,
  includes-append blocked (self_harm ∷ []) c,
  category_eq.test_iff self_harm c,
  λ (e : c ≡ self_harm). ap (includes blocked) e,
)

check_names_sound :
    (cls : Classification) (blocked : List SensitiveCategory) (c : SensitiveCategory)
    → is_failed (check_names cls.sensitive cls.categories blocked) ≡ false
    → includes blocked c ≡ true
    → Clear cls c
unfolding check_names
check_names_sound cls [] c h m = cc
check_names_sound cls (name ∷ blocked) c h m = elim (Bool-cases (name == c)) [
  | inl same ↦ subst (Clear cls) (eq_of_beq name c same) (ground arith)
  | inr other ↦ check_names_sound cls blocked c (ground arith) (ground arith)
]

check_names_complete :
    (cls : Classification) (blocked : List SensitiveCategory)
    → ((c : SensitiveCategory) → includes blocked c ≡ true → Clear cls c)
    → is_failed (check_names cls.sensitive cls.categories blocked) ≡ false
unfolding check_names
check_names_complete cls [] h = refl
check_names_complete cls (name ∷ blocked) h =
    let (not_sensitive, not_category) = h name (ground (arith, beq_self name)) in
    ground (
      arith,
      not_sensitive,
      not_category,
      check_names_complete cls blocked (λ c m. h c (ground arith)),
    )

pub check_blocked_categories_iff :
    (i : EvaluatePolicyInput) → (is_failed (check_blocked_categories i) ≡ false) ↔ NotBlocked i
unfolding check_blocked_categories
check_blocked_categories_iff i =
    let blocked = i.policy.blocked_categories in
    (
      λ h c b.
          check_names_sound i.classification (effective_blocked blocked) c h
            ((effective_blocked_iff blocked c).1 b),
      λ clear.
          check_names_complete i.classification (effective_blocked blocked)
            (λ c m. clear c ((effective_blocked_iff blocked c).0 m)),
    )

pub meets_threshold_iff : (s : Score) (min : ℕ) → (meets_threshold s min ≡ true) ↔ Reaches s min
unfolding meets_threshold
meets_threshold_iff nan min = (λ h. cc, λ h. absurd h)
meets_threshold_iff (num s) min = ground arith

pub check_min_confidence_iff :
    (i : EvaluatePolicyInput)
    → (is_failed (check_min_confidence i) ≡ false)
      ↔ Reaches i.classification.confidence i.policy.min_confidence
unfolding check_min_confidence
check_min_confidence_iff i =
    ground (arith, meets_threshold_iff i.classification.confidence i.policy.min_confidence)

pub check_min_commercial_intent_iff :
    (i : EvaluatePolicyInput)
    → (is_failed (check_min_commercial_intent i) ≡ false)
      ↔ Reaches i.classification.commercial_intent i.policy.min_commercial_intent
unfolding check_min_commercial_intent
check_min_commercial_intent_iff i =
    ground
      (arith, meets_threshold_iff i.classification.commercial_intent i.policy.min_commercial_intent)

pub check_frequency_caps_iff :
    (i : EvaluatePolicyInput) → (is_failed (check_frequency_caps i) ≡ false) ↔ CapsHaveRoom i
unfolding check_frequency_caps turns_ok
check_frequency_caps_iff i = ground arith

-- ===== src/Policy/Merge/Stricter.antt =====
-- When one policy is at least as strict as another.
use adgate.Prelude.{◌≤◌, String, ◌≡◌, refl, ◌∙◌, true, List, [], ◌∷◌, arith, includes, string_eq}
use adgate.Schema.{SensitiveCategory, category_eq, strict, DemandEntry, FrequencyCaps, PolicyConfig}
use adgate.Policy.Regions.{is_region_allowed}

-- The same entries in the same order, of which no further one is enabled.
abbrev pub DemandWithin : List DemandEntry → List DemandEntry → Type 0
DemandWithin [] [] = Unit {0}
DemandWithin [] (y ∷ ys) = ⊥
DemandWithin (x ∷ xs) [] = ⊥
DemandWithin (x ∷ xs) (y ∷ ys) =
    (x.source ≡ y.source)
    × (x.network ≡ y.network)
    × (x.enabled ≡ true → y.enabled ≡ true)
    × DemandWithin xs ys

pub record CapsWithin (a b : FrequencyCaps) : Type 0 where
  pub session : a.per_session ≤ b.per_session
  pub day : a.per_user_per_day ≤ b.per_user_per_day
  pub gap : b.min_turns_between ≤ a.min_turns_between

-- `p` is at least as strict as `q`, and agrees with it on the settings of the app.
pub record IsStricter (p q : PolicyConfig) : Type 0 where
  pub tiers : (t : String) → includes p.serve_to_tiers t ≡ true → includes q.serve_to_tiers t ≡ true
  pub paid : p.allow_paid_tiers ≡ true → q.allow_paid_tiers ≡ true
  pub blocked :
      (c : SensitiveCategory)
      → includes q.blocked_categories c ≡ true
      → includes p.blocked_categories c ≡ true
  pub detection : q.sensitive_detection ≡ strict → p.sensitive_detection ≡ strict
  pub intent : q.min_commercial_intent ≤ p.min_commercial_intent
  pub confidence : q.min_confidence ≤ p.min_confidence
  pub exclusions :
      (d : String)
      → includes q.competitor_exclusions d ≡ true
      → includes p.competitor_exclusions d ≡ true
  pub caps : CapsWithin p.frequency_caps q.frequency_caps
  pub demand : DemandWithin p.demand q.demand
  pub raw_text : p.privacy.store_raw_text ≡ true → q.privacy.store_raw_text ≡ true
  pub regions :
      (r : String)
      → is_region_allowed r p.regions_allow ≡ true
      → is_region_allowed r q.regions_allow ≡ true
  pub version : p.version ≡ q.version
  pub app_id : p.app_id ≡ q.app_id
  pub disclosure : p.disclosure ≡ q.disclosure
  pub retain_days : p.privacy.retain_days ≡ q.privacy.retain_days

pub DemandWithin-refl : (xs : List DemandEntry) → DemandWithin xs xs
DemandWithin-refl [] = tt
DemandWithin-refl (x ∷ xs) = (refl, refl, λ h. h, DemandWithin-refl xs)

DemandWithin-trans :
    (xs ys zs : List DemandEntry) → DemandWithin xs ys → DemandWithin ys zs → DemandWithin xs zs
DemandWithin-trans [] [] [] h k = tt
DemandWithin-trans [] [] (z ∷ zs) h k = absurd k
DemandWithin-trans [] (y ∷ ys) zs h k = absurd h
DemandWithin-trans (x ∷ xs) [] zs h k = absurd h
DemandWithin-trans (x ∷ xs) (y ∷ ys) [] h k = absurd k
DemandWithin-trans (x ∷ xs) (y ∷ ys) (z ∷ zs) (s, n, e, h) (s', n', e', k) =
    (s ∙ s', n ∙ n', λ x. e' (e x), DemandWithin-trans xs ys zs h k)

pub IsStricter-refl : (p : PolicyConfig) → IsStricter p p
IsStricter-refl p = record {
  tiers = λ t h. h;
  paid = λ h. h;
  blocked = λ c h. h;
  detection = λ h. h;
  intent = omega arith;
  confidence = omega arith;
  exclusions = λ d h. h;
  caps = omega arith;
  demand = DemandWithin-refl p.demand;
  raw_text = λ h. h;
  regions = λ r h. h;
  version = refl;
  app_id = refl;
  disclosure = refl;
  retain_days = refl;
}

pub IsStricter-trans : (p q r : PolicyConfig) → IsStricter p q → IsStricter q r → IsStricter p r
IsStricter-trans p q r a b = record {
  tiers = λ t h. b.tiers t (a.tiers t h);
  paid = λ h. b.paid (a.paid h);
  blocked = λ c h. a.blocked c (b.blocked c h);
  detection = λ h. a.detection (b.detection h);
  intent = omega arith;
  confidence = omega arith;
  exclusions = λ d h. a.exclusions d (b.exclusions d h);
  caps = omega arith;
  demand = DemandWithin-trans p.demand q.demand r.demand a.demand b.demand;
  raw_text = λ h. b.raw_text (a.raw_text h);
  regions = λ t h. b.regions t (a.regions t h);
  version = a.version ∙ b.version;
  app_id = a.app_id ∙ b.app_id;
  disclosure = a.disclosure ∙ b.disclosure;
  retain_days = a.retain_days ∙ b.retain_days;
}

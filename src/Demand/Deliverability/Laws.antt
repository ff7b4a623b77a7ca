-- ===== src/Demand/Deliverability/Laws.antt =====
-- What the diagnosis says about the turns of the app.
use adgate.Prelude.{
  String, ◌≡◌, refl, sym, ap, ◌∙◌, subst, Bool, true, false, not, Bool-cases, some, List, [], ◌∷◌,
  arith, inl, inr, all, is_empty, includes, any_iff, string_eq, ◌==◌, map, if◌then◌else◌, ltb,
}
use adgate.Schema.{
  CatalogCreative, DemandRequest, PolicyConfig, category_name, affiliate, source_eq,
}
use adgate.Policy.Regions.{expand_regions, is_region_allowed}
use adgate.Demand.Match.{creative_serves_region, match_score}
use adgate.Demand.Match.Laws.{matches, match_score_iff}
use adgate.Demand.Deliverability.{
  DeliverabilityReason, inactive, region_never_allowed, no_target_categories,
  all_categories_blocked, CreativeDeliverability, deliverable, blocked, AffiliateConfig,
  creative_deliverability, affiliate_failure, serves_some_allowed_region, is_blocked_category,
  enabled_demand_sources, or_blocked,
}

serves_some_lem :
    (creative : CatalogCreative) (allow : List String) (region : String)
    → is_region_allowed region allow ≡ true
    → creative_serves_region creative.target_regions (some region) ≡ true
    → serves_some_allowed_region creative allow ≡ true
unfolding serves_some_allowed_region creative_serves_region is_region_allowed
serves_some_lem creative allow region h k = elim (Bool-cases (is_empty creative.target_regions)) [
  | inl open_ended ↦ rw open_ended (some_region (expand_regions allow) h)
  | inr targeted ↦ rw targeted (
      (any_iff (λ r. includes (expand_regions allow) r) (expand_regions creative.target_regions)).1
        (region, rw targeted at k, h))
]
  where
    some_region : (xs : List String) → includes xs region ≡ true → not (is_empty xs) ≡ true
    some_region [] m = m
    some_region (x ∷ xs) m = refl

abbrev pub structural_reason : DeliverabilityReason → Bool
structural_reason inactive = true
structural_reason region_never_allowed = true
structural_reason no_target_categories = true
structural_reason _ = false

abbrev pub is_structural : CreativeDeliverability → Bool
is_structural deliverable = false
is_structural (blocked reason) = structural_reason reason

affiliate_failure-structural :
    (creative : CatalogCreative) (policy : PolicyConfig) (config : AffiliateConfig)
    → is_structural (affiliate_failure creative policy.demand config) ≡ false
unfolding affiliate_failure
affiliate_failure-structural creative policy config = ground arith

or_blocked-structural :
    (a b : CreativeDeliverability)
    → is_structural a ≡ false
    → is_structural b ≡ false
    → is_structural (or_blocked a b) ≡ false
or_blocked-structural deliverable b h k = k
or_blocked-structural (blocked reason) b h k = h

nonempty-Matches :
    (targets categories : List String)
    → matches targets categories ≡ true
    → is_empty targets ≡ false
nonempty-Matches [] categories h = sym h
nonempty-Matches (t ∷ ts) categories h = refl

creative_deliverability-structural :
    (creative : CatalogCreative) (policy : PolicyConfig) (config : AffiliateConfig)
    → creative.active ≡ true
    → serves_some_allowed_region creative policy.regions_allow ≡ true
    → is_empty creative.target_categories ≡ false
    → is_structural (creative_deliverability creative policy config) ≡ false
unfolding creative_deliverability affiliate_failure serves_some_allowed_region
creative_deliverability-structural creative policy config active serves targets =
    rw (active, creative_deliverability)
      (elim (Bool-cases (includes (enabled_demand_sources policy.demand) creative.source)) [
        | inr missing ↦ rw missing refl
        | inl enabled ↦ rw enabled (
            or_blocked-structural
              (if creative.source == affiliate
                then affiliate_failure creative policy.demand config
                else deliverable)
              (if not (serves_some_allowed_region creative policy.regions_allow)
                then blocked region_never_allowed
                else if is_empty creative.target_categories
                then blocked no_target_categories
                else if all (is_blocked_category (map category_name policy.blocked_categories))
                    creative.target_categories
                then blocked all_categories_blocked
                else deliverable)
              (ground (arith, affiliate_failure-structural creative policy config)) (ground arith))
      ])

-- A creative that is reported as inactive, as targeting nothing, or as never meeting the app's
-- regions scores nothing in any request whose region the app's policy allows.
pub creative_deliverability-blocked :
    (normalize : String → String) (creative : CatalogCreative) (policy : PolicyConfig)
    (config : AffiliateConfig) (reason : DeliverabilityReason) (req : DemandRequest)
    (request_keywords : List String) (region : String)
    → creative_deliverability creative policy config ≡ blocked reason
    → structural_reason reason ≡ true
    → req.user.region ≡ some region
    → is_region_allowed region policy.regions_allow ≡ true
    → match_score normalize creative req request_keywords ≡ 0
creative_deliverability-blocked normalize creative policy config reason req words region h s at
      allowed =
    elim (Bool-cases (ltb 0 (match_score normalize creative req words))) [
      | inr zero_score ↦ ground arith
      | inl scores ↦
          let (active, serves, matches) =
            (match_score_iff normalize creative req words).0 (ground arith) in
          let never =
            creative_deliverability-structural creative policy config active
              (serves_some_lem creative policy.regions_allow region allowed
                (subst (λ r. creative_serves_region creative.target_regions r ≡ true) at serves))
              (nonempty-Matches creative.target_categories req.classification.categories matches) in
          absurd (cc (sym never ∙ ap is_structural h ∙ s))
    ]

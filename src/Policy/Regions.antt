-- ===== src/Policy/Regions.antt =====
-- packages/core/src/policy/regions.ts and eu-members.ts. A `Set` is the list of its values.
use adgate.Prelude.{
  String, ◌≡◌, refl, Bool, true, false, ◌&&◌, ◌||◌, not, List, [], ◌∷◌, arith, string_eq,
  if◌then◌else◌, ◌==◌, includes, add, add_all, Bool-cases, beq_self, all, all-includes, inl, inr,
  includes-add, includes-add_all,
}

abbrev pub eu_region_token : String
eu_region_token = "EU"

unfoldable pub eu_member_states : List String
eu_member_states =
    "AT" ∷ "BE" ∷ "BG" ∷ "CY" ∷ "CZ" ∷ "DE" ∷ "DK" ∷ "EE" ∷ "ES" ∷ "FI" ∷ "FR" ∷ "GR" ∷ "HR" ∷ "HU"
    ∷ "IE" ∷ "IT" ∷ "LT" ∷ "LU" ∷ "LV" ∷ "MT" ∷ "NL" ∷ "PL" ∷ "PT" ∷ "RO" ∷ "SE" ∷ "SI" ∷ "SK" ∷ []

unfoldable pub is_eu_member_state : String → Bool
is_eu_member_state region = includes eu_member_states region

-- The loop of `expandRegions`, from the set built so far.
pub expand_from : List String → List String → List String
expand_from expanded [] = expanded
expand_from expanded (entry ∷ allow) =
    expand_from
      (if entry == eu_region_token then add_all expanded eu_member_states else add expanded entry)
      allow

unfoldable pub expand_regions : List String → List String
unfolding expand_from
expand_regions allow = expand_from [] allow

unfoldable pub is_region_allowed : String → List String → Bool
is_region_allowed region allow = includes (expand_regions allow) region

-- What a list of entries admits, read off the list itself.
abbrev pub admits : List String → String → Bool
admits allow r =
    (includes allow r && not (r == eu_region_token))
    || (includes allow eu_region_token && is_eu_member_state r)

includes-expand_from :
    (s allow : List String) (r : String)
    → includes (expand_from s allow) r ≡ (includes s r || admits allow r)
unfolding expand_from is_eu_member_state
includes-expand_from s [] r = ground arith
includes-expand_from s (x ∷ allow) r = ground (
  arith,
  includes-expand_from (add_all s eu_member_states) allow r,
  includes-expand_from (add s x) allow r,
  includes-add_all s eu_member_states r,
  includes-add s x r,
  string_eq.test_iff x r,
  string_eq.test_iff x eu_region_token,
  string_eq.test_iff r eu_region_token,
)

-- A region is allowed exactly when the list names it and it is not the token `EU`, or the list
-- holds the token and the region is one of the member states.
pub is_region_allowed_iff :
    (region : String) (allow : List String) → is_region_allowed region allow ≡ admits allow region
unfolding is_region_allowed expand_regions
is_region_allowed_iff region allow = includes-expand_from [] allow region

token_is_no_member : is_eu_member_state eu_region_token ≡ false
unfolding is_eu_member_state eu_member_states
token_is_no_member = refl

-- A user region of `EU` is never allowed, whatever the list.
pub is_region_allowed-token :
    (allow : List String) → is_region_allowed eu_region_token allow ≡ false
is_region_allowed-token allow =
    ground (arith, is_region_allowed_iff eu_region_token allow, token_is_no_member)

-- A region that a list allows is allowed by one entry of it alone.
pub is_region_allowed_entry :
    (region : String) (allow : List String)
    → is_region_allowed region allow ≡ true
    → (entry : String) × (includes allow entry ≡ true)
      × (is_region_allowed region (entry ∷ []) ≡ true)
is_region_allowed_entry region allow h =
    elim (Bool-cases (includes allow region && not (region == eu_region_token))) [
      | inl named ↦ (
        region,
        ground arith,
        ground (arith, is_region_allowed_iff region (region ∷ []), beq_self region),
      )
      | inr other ↦ (
        eu_region_token,
        ground (arith, is_region_allowed_iff region allow),
        ground (
          arith,
          is_region_allowed_iff region allow,
          is_region_allowed_iff region (eu_region_token ∷ []),
        ),
      )
    ]

-- What every country of `inner` has, every region that `inner` allows has.
pub is_region_allowed_mono :
    (region : String) (inner outer : List String)
    → all (λ country. is_region_allowed country outer) (expand_regions inner) ≡ true
    → is_region_allowed region inner ≡ true
    → is_region_allowed region outer ≡ true
unfolding is_region_allowed
is_region_allowed_mono region inner outer h m =
    all-includes (λ country. includes (expand_regions outer) country) (expand_regions inner) region
      h m

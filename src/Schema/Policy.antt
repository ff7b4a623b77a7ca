-- ===== src/Schema/Policy.antt =====
-- policy.ts, policy-parts.ts and DemandSource of creative.ts in packages/schemas/src. A threshold is a finite number in the
-- unit of `Score`.
use adgate.Prelude.{
  ℕ, zero, suc, String, ◌≡◌, refl, ◌↔◌, Bool, true, Option, List, EqTest, eqb, ordinal_beq_iff,
}
use adgate.Schema.Taxonomy.{SensitiveCategory}

pub data SensitiveDetection : Type 0 where
  strict balanced : SensitiveDetection

pub data AffiliateNetwork : Type 0 where
  partnerstack impact amazon : AffiliateNetwork

abbrev network_ordinal : AffiliateNetwork → ℕ
network_ordinal partnerstack = 0
network_ordinal impact = 1
network_ordinal amazon = 2

abbrev network_at : ℕ → AffiliateNetwork
network_at zero = partnerstack
network_at (suc zero) = impact
network_at (suc (suc n)) = amazon

network_at-ordinal : (n : AffiliateNetwork) → network_at (network_ordinal n) ≡ n
network_at-ordinal partnerstack = refl
network_at-ordinal _ = refl

abbrev network_beq : AffiliateNetwork → AffiliateNetwork → Bool
network_beq a b = eqb (network_ordinal a) (network_ordinal b)

pub network_beq_iff : (a b : AffiliateNetwork) → (network_beq a b ≡ true) ↔ (a ≡ b)
network_beq_iff = ordinal_beq_iff network_ordinal network_at network_at-ordinal

instance abbrev pub network_eq : EqTest AffiliateNetwork
network_eq = record { test = network_beq; test_iff = network_beq_iff }

pub data DemandSource : Type 0 where
  direct affiliate koah gravity : DemandSource

abbrev source_ordinal : DemandSource → ℕ
source_ordinal direct = 0
source_ordinal affiliate = 1
source_ordinal koah = 2
source_ordinal gravity = 3

abbrev source_at : ℕ → DemandSource
source_at zero = direct
source_at (suc zero) = affiliate
source_at (suc (suc zero)) = koah
source_at (suc (suc (suc n))) = gravity

source_at-ordinal : (s : DemandSource) → source_at (source_ordinal s) ≡ s
source_at-ordinal direct = refl
source_at-ordinal _ = refl

abbrev source_beq : DemandSource → DemandSource → Bool
source_beq a b = eqb (source_ordinal a) (source_ordinal b)

pub source_beq_iff : (a b : DemandSource) → (source_beq a b ≡ true) ↔ (a ≡ b)
source_beq_iff = ordinal_beq_iff source_ordinal source_at source_at-ordinal

instance abbrev pub source_eq : EqTest DemandSource
source_eq = record { test = source_beq; test_iff = source_beq_iff }

-- `network` is there in the entries whose source is `affiliate`, and in no other.
pub record DemandEntry : Type 0 where
  pub source : DemandSource
  pub network : Option AffiliateNetwork
  pub enabled : Bool

pub record FrequencyCaps : Type 0 where
  pub per_session : ℕ
  pub per_user_per_day : ℕ
  pub min_turns_between : ℕ

pub record Disclosure : Type 0 where
  pub label : String
  pub position : String
  pub style : String

pub record Privacy : Type 0 where
  pub store_raw_text : Bool
  pub retain_days : ℕ

pub record PolicyConfig : Type 0 where
  pub version : ℕ
  pub app_id : String
  pub serve_to_tiers : List String
  pub allow_paid_tiers : Bool
  pub blocked_categories : List SensitiveCategory
  pub sensitive_detection : SensitiveDetection
  pub min_commercial_intent : ℕ
  pub min_confidence : ℕ
  pub competitor_exclusions : List String
  pub frequency_caps : FrequencyCaps
  pub disclosure : Disclosure
  pub demand : List DemandEntry
  pub privacy : Privacy
  pub regions_allow : List String

-- ===== src/Schema/Taxonomy.antt =====
-- taxonomy.ts and suppress-reason.ts of packages/schemas/src.
use adgate.Prelude.{
  ℕ, zero, suc, String, ◌≡◌, refl, ◌↔◌, Bool, true, List, [], ◌∷◌, EqTest, eqb, ordinal_beq_iff,
}

pub data SensitiveCategory : Type 0 where
  health finance politics legal adult gambling weapons religion self_harm : SensitiveCategory

-- The taxonomy, in the order in which it is declared.
abbrev pub sensitive_taxonomy : List SensitiveCategory
sensitive_taxonomy =
    health ∷ finance ∷ politics ∷ legal ∷ adult ∷ gambling ∷ weapons ∷ religion ∷ self_harm ∷ []

abbrev pub categories_taxonomy : List String
categories_taxonomy =
    "software.devtools.database" ∷ "software.devtools.hosting" ∷ "software.devtools.ci"
    ∷ "software.devtools.observability" ∷ "software.devtools.ai" ∷ "software.security"
    ∷ "software.productivity" ∷ "shopping.electronics" ∷ "shopping.home" ∷ "shopping.sportswear"
    ∷ "shopping.pets" ∷ "travel.flights" ∷ "travel.hotels" ∷ "travel.connectivity"
    ∷ "education.language" ∷ "education.courses" ∷ "entertainment.streaming" ∷ "food.delivery"
    ∷ "general" ∷ []

-- The text that the source uses for the category.
abbrev pub category_name : SensitiveCategory → String
category_name health = "health"
category_name finance = "finance"
category_name politics = "politics"
category_name legal = "legal"
category_name adult = "adult"
category_name gambling = "gambling"
category_name weapons = "weapons"
category_name religion = "religion"
category_name self_harm = "self_harm"

abbrev ordinal : SensitiveCategory → ℕ
ordinal health = 0
ordinal finance = 1
ordinal politics = 2
ordinal legal = 3
ordinal adult = 4
ordinal gambling = 5
ordinal weapons = 6
ordinal religion = 7
ordinal self_harm = 8

abbrev at : ℕ → SensitiveCategory
at zero = health
at (suc zero) = finance
at (suc (suc zero)) = politics
at (suc (suc (suc zero))) = legal
at (suc (suc (suc (suc zero)))) = adult
at (suc (suc (suc (suc (suc zero))))) = gambling
at (suc (suc (suc (suc (suc (suc zero)))))) = weapons
at (suc (suc (suc (suc (suc (suc (suc zero))))))) = religion
at (suc (suc (suc (suc (suc (suc (suc (suc n)))))))) = self_harm

at-ordinal : (c : SensitiveCategory) → at (ordinal c) ≡ c
at-ordinal health = refl
at-ordinal _ = refl

abbrev category_beq : SensitiveCategory → SensitiveCategory → Bool
category_beq a b = eqb (ordinal a) (ordinal b)

pub category_beq_iff : (a b : SensitiveCategory) → (category_beq a b ≡ true) ↔ (a ≡ b)
category_beq_iff = ordinal_beq_iff ordinal at at-ordinal

instance abbrev pub category_eq : EqTest SensitiveCategory
category_eq = record { test = category_beq; test_iff = category_beq_iff }

-- `sensitive_category c` stands for the text `sensitive_category:<name>`.
pub data SuppressReason : Type 0 where
  paid_user region_blocked low_confidence low_commercial_intent frequency_cap : SuppressReason
  no_fill error : SuppressReason
  sensitive_category : SensitiveCategory → SuppressReason

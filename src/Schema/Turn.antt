-- ===== src/Schema/Turn.antt =====
-- classification.ts, and User, Surface and CapState of common.ts and policy-decision.ts, in
-- packages/schemas/src.
use adgate.Prelude.{ℕ, String, Option, List}
use adgate.Schema.Taxonomy.{SensitiveCategory}

-- A number between 0 and 1 in a common unit, or NaN.
pub data Score : Type 0 where
  nan : Score
  num : ℕ → Score

pub data ClassificationMethod : Type 0 where
  llm rules cached : ClassificationMethod

pub record Classification : Type 0 where
  pub commercial_intent : Score
  pub categories : List String
  pub sensitive : List SensitiveCategory
  pub confidence : Score
  pub method : ClassificationMethod
  pub prompt_version : String

pub record User : Type 0 where
  pub user_hash : Option String
  pub tier : String
  pub region : Option String
  pub locale : Option String

pub record Surface : Type 0 where
  pub surface_type : String
  pub placement : String
  pub max_creatives : Option ℕ

pub record CapState : Type 0 where
  pub session_count : ℕ
  pub day_count : ℕ
  pub turns_since_last : Option ℕ

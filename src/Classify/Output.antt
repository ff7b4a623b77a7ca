-- ===== src/Classify/Output.antt =====
-- packages/core/src/classify/llm/output.ts: from the model's content to a classification. `parse`
-- stands for `JSON.parse`. The sentences that say what is wrong are left out. A text is the list of its code points.
pub mod Laws
use adgate.Prelude.{
  ℕ, zero, suc, String, Bool, true, false, ◌&&◌, ◌||◌, not, Option, none, some, List, [], ◌∷◌, ◌++◌,
  map, if◌then◌else◌, eqb, leb, filter, includes, is_empty, codes, codes_eq, string_eq, ◌==◌, all,
  or_else, EqTest, add, find, ends_with, starts_with, length, ◌-◌,
}
use adgate.Schema.{
  SensitiveCategory, category_name, category_eq, sensitive_taxonomy, categories_taxonomy, Score,
  nan, num, llm, Classification, ClassificationMethod,
}
use adgate.Demand.Ranking.{take}
use adgate.Demand.Exclusions.{to_lower, is_lower, trim_start, trim_end}
use adgate.Classify.Rules.Score.{one, min}
use adgate.Classify.Rules.Match.{drop}
use adgate.Classify.Cache.{Number, nan as not_a_number, infinity, pos, negsuc}

-- `\s`, among the characters of ASCII.
abbrev pub is_blank : ℕ → Bool
is_blank c = eqb c 32 || (leb 9 c && leb c 13)

abbrev separates : ℕ → Bool
separates c = is_blank c || eqb c 45

-- `.replace(/[\s-]+/g, '_')`, where the flag says that the character before was replaced.
unfoldable pub join_words : Bool → List ℕ → List ℕ
join_words replaced [] = []
join_words replaced (c ∷ cs) =
    let after = join_words true cs in
    let plain = join_words false cs in
    if separates c then (if replaced then after else 95 ∷ after) else c ∷ plain

unfoldable pub to_taxonomy_token : List ℕ → List ℕ
to_taxonomy_token value = join_words false (map to_lower (trim_end (trim_start value)))

-- The value of a list whose name is the token.
abbrev pub named {ℓ} : {A : Type ℓ} → (A → String) → List A → List ℕ → Option A
named name [] token = none
named name (a ∷ allowed) token =
    if codes (name a) == token then some a else named name allowed token

abbrev pub add_option {ℓ} : {A : Type ℓ} ⦃e : EqTest A⦄ → List A → Option A → List A
add_option out none = out
add_option out (some a) = add out a

abbrev pub normalize_list {ℓ} :
    {A : Type ℓ} ⦃e : EqTest A⦄ → (A → String) → List A → List A → List (List ℕ) → List A
normalize_list name allowed out [] = out
normalize_list name allowed out (raw ∷ values) =
    normalize_list name allowed (add_option out (named name allowed (to_taxonomy_token raw))) values

abbrev itself : String → String
itself text = text

unfoldable pub normalize_categories : List (List ℕ) → List String
normalize_categories values =
    let categories = normalize_list itself categories_taxonomy [] values in
    if is_empty categories then "general" ∷ [] else categories

unfoldable pub normalize_sensitive : List (List ℕ) → List SensitiveCategory
normalize_sensitive values = normalize_list category_name sensitive_taxonomy [] values

-- A value of JSON, as far as the code and the schema tell one from another.
pub data Field : Type 0 where
  number : Number → Field
  texts : List (List ℕ) → Field
  other : Field

-- An object is its fields without `__proto__`, and the fields of the object that `__proto__` holds, if any.
-- A field of a JavaScript object is read from its own fields first and from its prototype's then.
pub data Value : Type 0 where
  object : List (String × Field) → List (String × Field) → Value
  no_object : Value

-- Numbers are in thousandths.
unfoldable pub clamp_number : Number → Number
clamp_number not_a_number = not_a_number
clamp_number infinity = infinity
clamp_number (pos n) = pos (min one n)
clamp_number (negsuc n) = pos 0

abbrev pub clamp_field : Field → Field
clamp_field (number n) = number (clamp_number n)
clamp_field (texts values) = texts values
clamp_field other = other

abbrev pub clamp_fields : List (String × Field) → List (String × Field)
clamp_fields [] = []
clamp_fields ((key, field) ∷ fields) = (key, clamp_field field) ∷ clamp_fields fields

-- The copy is made by assignments: one to `__proto__` gives the copy a prototype, whose fields are not
-- clamped. They follow the own fields, in the order in which a read finds them.
unfoldable pub clamp_numbers : Value → Value
clamp_numbers (object fields under_proto) = object (clamp_fields fields ++ under_proto) []
clamp_numbers no_object = no_object

pub record LlmOutput : Type 0 where
  pub commercial_intent : ℕ
  pub categories : List (List ℕ)
  pub sensitive : List (List ℕ)
  pub confidence : ℕ

-- `UnitInterval`, whose numbers are finite.
abbrev pub unit_interval : Option Field → Option ℕ
unit_interval (some (number (pos n))) = if leb n one then some n else none
unit_interval _ = none

abbrev pub text_list : Option Field → Option (List (List ℕ))
text_list (some (texts values)) = some values
text_list _ = none

abbrev output_of :
    Option ℕ → Option (List (List ℕ)) → Option (List (List ℕ)) → Option ℕ → Option LlmOutput
output_of (some intent) (some categories) (some sensitive) (some confidence) = some (record {
  commercial_intent = intent;
  categories = categories;
  sensitive = sensitive;
  confidence = confidence;
})
output_of _ _ _ _ = none

-- `LlmOutput.safeParse`
unfoldable pub safe_parse : Value → Option LlmOutput
safe_parse no_object = none
safe_parse (object fields under_proto) =
    output_of (unit_interval (find "commercial_intent" fields))
      (text_list (find "categories" fields)) (text_list (find "sensitive" fields))
      (unit_interval (find "confidence" fields))

abbrev ticks : List ℕ
ticks = 96 ∷ 96 ∷ 96 ∷ []

abbrev drop_letters : List ℕ → List ℕ
drop_letters [] = []
drop_letters (c ∷ cs) = let rest = drop_letters cs in if is_lower (to_lower c) then rest else c ∷ cs

-- What follows the opening fence, with the closing fence taken off.
abbrev fenced : List ℕ → Option (List ℕ)
fenced body = if ends_with body ticks then some (trim_end (take (length body - 3) body)) else none

unfoldable pub strip_fence : List ℕ → List ℕ
strip_fence content =
    let text = trim_end (trim_start content) in
    if starts_with text ticks
    then or_else (fenced (trim_start (drop_letters (drop 3 text)))) content
    else content

pub data ParseReason : Type 0 where
  bad_json bad_output : ParseReason

pub data LlmContentParse : Type 0 where
  parsed : Classification → LlmContentParse
  failed : ParseReason → LlmContentParse

abbrev in_unit : Score → Bool
in_unit nan = false
in_unit (num n) = leb n one

-- `Classification.safeParse`. A sensitive category and a method are ones of the schema by their type.
unfoldable pub fits_schema : Classification → Bool
fits_schema c =
    in_unit c.commercial_intent
    && all (includes categories_taxonomy) c.categories
    && in_unit c.confidence
    && not (c.prompt_version == "")

module _ (prompt_version : String) (parse : List ℕ → Option Value) where
  unfoldable pub to_llm_classification : LlmOutput → Classification
  to_llm_classification output = record {
    commercial_intent = num output.commercial_intent;
    categories = normalize_categories output.categories;
    sensitive = normalize_sensitive output.sensitive;
    confidence = num output.confidence;
    method = llm;
    prompt_version = prompt_version;
  }

  abbrev pub checked : Classification → LlmContentParse
  checked classification =
      if fits_schema classification then parsed classification else failed bad_output

  abbrev pub parse_output : Option LlmOutput → LlmContentParse
  parse_output none = failed bad_output
  parse_output (some output) = checked (to_llm_classification output)

  abbrev pub parse_value : Option Value → LlmContentParse
  parse_value none = failed bad_json
  parse_value (some value) = parse_output (safe_parse (clamp_numbers value))

  unfoldable pub parse_llm_content : List ℕ → LlmContentParse
  parse_llm_content content = parse_value (parse (strip_fence content))

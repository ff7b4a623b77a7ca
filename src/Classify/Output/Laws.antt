-- ===== src/Classify/Output/Laws.antt =====
-- What a content that is accepted has come to.
use adgate.Prelude.{
  ℕ, ◌≤◌, String, ◌≡◌, refl, ◌↔◌, ap, sym, ◌∙◌, subst, true, false, Option, none, some, List, [],
  ◌∷◌, ◌++◌, arith, if◌then◌else◌, includes, add, all, is_empty, inl, inr, EqTest, ◌==◌, string_eq,
  codes_eq, find, beq_self, some_inj, Option-cases,
}
use adgate.Schema.{category_eq, categories_taxonomy, Score, nan as nan_score, num, Classification}
use adgate.Classify.Rules.Score.{one}
use adgate.Classify.Cache.{nan, infinity, pos, negsuc}
use adgate.Classify.Output.{
  itself, output_of, text_list, named, add_option, normalize_list, normalize_categories,
  to_taxonomy_token, LlmOutput, Field, Value, object, no_object, number, texts, other, safe_parse,
  unit_interval, clamp_numbers, strip_fence, LlmContentParse, parsed, failed, in_unit, fits_schema,
  to_llm_classification, checked, parse_output, parse_value, parse_llm_content,
}

module _ {A : Type 0} ⦃e : EqTest A⦄ (name : A → String) (allowed : List A) where
  named-includes :
      (token : List ℕ) (a : A) → named name allowed token ≡ some a → includes allowed a ≡ true
  named-includes = go allowed
    where
      go :
          (xs : List A) (token : List ℕ) (a : A)
          → named name xs token ≡ some a
          → includes xs a ≡ true
      go [] token a h = cc
      go (x ∷ xs) token a h = ground (arith, go xs token a, beq_self a)

  all_option :
      (out : List A) (o : Option A)
      → all (includes allowed) out ≡ true
      → ((a : A) → o ≡ some a → includes allowed a ≡ true)
      → all (includes allowed) (add_option out o) ≡ true
  all_option out none h k = h
  all_option out (some a) h k = all_add out a h (k a refl)
    where
      all_append :
          (xs : List A) (x : A)
          → all (includes allowed) xs ≡ true
          → includes allowed x ≡ true
          → all (includes allowed) (xs ++ x ∷ []) ≡ true
      all_append [] x h k = rw k refl
      all_append (y ∷ xs) x h k = ground (arith, all_append xs x)

      all_add :
          (xs : List A) (x : A)
          → all (includes allowed) xs ≡ true
          → includes allowed x ≡ true
          → all (includes allowed) (add xs x) ≡ true
      all_add xs x h k = ground (arith, all_append xs x h k)

  normalize_list-all :
      (out : List A) (values : List (List ℕ))
      → all (includes allowed) out ≡ true
      → all (includes allowed) (normalize_list name allowed out values) ≡ true
  normalize_list-all out [] h = h
  normalize_list-all out (raw ∷ values) h =
      let o = named name allowed (to_taxonomy_token raw) in
      normalize_list-all (add_option out o) values
        (all_option out o h (λ a k. named-includes (to_taxonomy_token raw) a k))

or_general_lem :
    (categories : List String)
    → all (includes categories_taxonomy) categories ≡ true
    → (all
          (includes categories_taxonomy)
          (if is_empty categories then "general" ∷ [] else categories)
        ≡ true)
      × (is_empty (if is_empty categories then "general" ∷ [] else categories) ≡ false)
or_general_lem [] h = (refl, refl)
or_general_lem (c ∷ categories) h = (h, refl)

normalize_categories-all :
    (values : List (List ℕ))
    → (all (includes categories_taxonomy) (normalize_categories values) ≡ true)
      × (is_empty (normalize_categories values) ≡ false)
unfolding normalize_categories
normalize_categories-all values =
    or_general_lem (normalize_list itself categories_taxonomy [] values)
      (normalize_list-all itself categories_taxonomy [] values refl)

unit_interval-le : (o : Option Field) (n : ℕ) → unit_interval o ≡ some n → n ≤ one
unit_interval-le none n h = cc
unit_interval-le (some (number nan)) n h = cc
unit_interval-le (some (number infinity)) n h = cc
unit_interval-le (some (number (pos m))) n h = ground arith
unit_interval-le (some (number (negsuc m))) n h = cc
unit_interval-le (some (texts values)) n h = cc
unit_interval-le (some other) n h = cc

output_of-parts :
    (i n : Option ℕ) (c s : Option (List (List ℕ))) (output : LlmOutput)
    → output_of i c s n ≡ some output
    → (i ≡ some output.commercial_intent) × (n ≡ some output.confidence)
output_of-parts none n c s output h = cc
output_of-parts (some i) n none s output h = cc
output_of-parts (some i) n (some c) none output h = cc
output_of-parts (some i) none (some c) (some s) output h = cc
output_of-parts (some i) (some n) (some c) (some s) output h = ground arith

safe_parse-le :
    (value : Value) (output : LlmOutput)
    → safe_parse value ≡ some output
    → (output.commercial_intent ≤ one) × (output.confidence ≤ one)
unfolding safe_parse
safe_parse-le no_object output h = cc
safe_parse-le (object fields under_proto) output h =
    let (i, n) =
      output_of-parts (unit_interval (find "commercial_intent" fields))
        (unit_interval (find "confidence" fields)) (text_list (find "categories" fields))
        (text_list (find "sensitive" fields)) output h in
    (
      unit_interval-le (find "commercial_intent" fields) output.commercial_intent i,
      unit_interval-le (find "confidence" fields) output.confidence n,
    )

abbrev pub InUnit : Score → Type 0
InUnit nan_score = ⊥
InUnit (num n) = n ≤ one

-- A value of the Classification schema.
pub record MeetsSchema (c : Classification) : Type 0 where
  pub intent : InUnit c.commercial_intent
  pub confidence : InUnit c.confidence
  pub taxonomy : all (includes categories_taxonomy) c.categories ≡ true
  pub version : (c.prompt_version == "") ≡ false

-- What is accepted meets the schema, with one category at least.
abbrev pub AcceptedMeets : LlmContentParse → Type 0
AcceptedMeets (parsed c) = MeetsSchema c × (is_empty c.categories ≡ false)
AcceptedMeets (failed why) = Unit

in_unit_lem : (s : Score) → InUnit s → in_unit s ≡ true
in_unit_lem nan_score h = absurd h
in_unit_lem (num n) h = ground arith

fits_schema_lem : (c : Classification) → MeetsSchema c → fits_schema c ≡ true
unfolding fits_schema
fits_schema_lem c m =
    rw
      (
        in_unit_lem c.commercial_intent m.intent,
        in_unit_lem c.confidence m.confidence,
        m.taxonomy,
        m.version,
      )
      refl

module _ (prompt_version : String) (parse : List ℕ → Option Value) where
  to_llm_classification-fits :
      (value : Value) (output : LlmOutput)
      → (prompt_version == "") ≡ false
      → safe_parse value ≡ some output
      → MeetsSchema (to_llm_classification prompt_version parse output)
  unfolding to_llm_classification
  to_llm_classification-fits value output v h =
      let (i, n) = safe_parse-le value output h in
      let (all_in, some_in) = normalize_categories-all output.categories in
      record { intent = i; confidence = n; taxonomy = all_in; version = v }

  parse_value_lem :
      (o : Option Value) (value : Value) (output : LlmOutput)
      → (prompt_version == "") ≡ false
      → o ≡ some value
      → safe_parse (clamp_numbers value) ≡ some output
      → parse_value prompt_version parse o
        ≡ parsed (to_llm_classification prompt_version parse output)
  parse_value_lem none value output v e h = cc
  parse_value_lem (some x) value output v e h =
      let fits = to_llm_classification-fits (clamp_numbers value) output v h in
      ap (λ y. parse_value prompt_version parse (some y)) (some_inj e)
      ∙ ap (parse_output prompt_version parse) h
      ∙ rw (fits_schema_lem (to_llm_classification prompt_version parse output) fits) refl

  checked-parsed : (a c : Classification) → checked prompt_version parse a ≡ parsed c → c ≡ a
  checked-parsed a c h = ground arith

  parse_value-parsed :
      (o : Option Value) (c : Classification)
      → parse_value prompt_version parse o ≡ parsed c
      → (value : Value) × (output : LlmOutput) × (o ≡ some value)
        × (safe_parse (clamp_numbers value) ≡ some output)
        × (c ≡ to_llm_classification prompt_version parse output)
  parse_value-parsed none c h = cc
  parse_value-parsed (some value) c h = elim (Option-cases (safe_parse (clamp_numbers value))) [
    | inl e ↦ absurd (cc (sym (ap (parse_output prompt_version parse) e) ∙ h))
    | inr (output, e) ↦ (
      value,
      output,
      refl,
      e,
      checked-parsed (to_llm_classification prompt_version parse output) c
          (sym (ap (parse_output prompt_version parse) e) ∙ h),
    )
  ]

  -- A content is accepted exactly if it is JSON that meets the schema of the model's output after
  -- its numbers are clamped, and then with the normalized lists: the check of the result itself
  -- never refuses. What is accepted meets the schema of classifications, by categories of the
  -- taxonomy, of which there is one at least.
  pub parse_llm_content-parsed_iff :
      (content : List ℕ) (c : Classification)
      → (prompt_version == "") ≡ false
      → ((parse_llm_content prompt_version parse content ≡ parsed c) ↔ (
          (value : Value) × (output : LlmOutput) × (parse (strip_fence content) ≡ some value)
          × (safe_parse (clamp_numbers value) ≡ some output)
          × (c ≡ to_llm_classification prompt_version parse output)))
        × AcceptedMeets (parse_llm_content prompt_version parse content)
  unfolding parse_llm_content to_llm_classification
  parse_llm_content-parsed_iff content c v = (
    (
      parse_value-parsed (parse (strip_fence content)) c,
      λ (value, output, e, h, same).
          parse_value_lem (parse (strip_fence content)) value output v e h ∙ ap parsed (sym same),
    ),
    accepted (parse_llm_content prompt_version parse content) refl,
  )
    where
      accepted :
          (result : LlmContentParse)
          → parse_value prompt_version parse (parse (strip_fence content)) ≡ result
          → AcceptedMeets result
      accepted (failed why) e = tt
      accepted (parsed found) h =
          let (value, output, e, k, same) =
            parse_value-parsed (parse (strip_fence content)) found h in
          subst (λ x. MeetsSchema x × (is_empty x.categories ≡ false)) (sym same)
            (
              to_llm_classification-fits (clamp_numbers value) output v k,
              (normalize_categories-all output.categories).1,
            )

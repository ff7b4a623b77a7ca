-- ===== src/Demand/Affiliate/Template.antt =====
-- packages/core/src/demand/affiliate: template.ts, partnerstack.ts and impact.ts. Templates and
-- links are lists of code points.
use adgate.Prelude.{
  ℕ, zero, suc, ◌&&◌, ◌||◌, Option, none, some, List, [], ◌∷◌, ◌++◌, if◌then◌else◌, eqb, is_empty,
  length, codes, codes_eq, ◌==◌,
}
use adgate.Demand.Exclusions.{trim_start, trim_end}
use adgate.Demand.Affiliate.Amazon.{Urls}

pub record TemplateValues : Type 0 where
  pub program_id : Option (List ℕ)
  pub campaign_id : Option (List ℕ)
  pub tag : Option (List ℕ)
  pub destination : Option (List ℕ)

-- Why no link was built.
pub data BuildError : Type 0 where
  unknown_placeholder missing_placeholder : List ℕ → BuildError
  encode_failed invalid_url not_amazon_host marketplace_mismatch : BuildError
  affiliate_not_configured : BuildError

pub data AffiliateBuildResult : Type 0 where
  built : List ℕ → AffiliateBuildResult
  not_built : BuildError → AffiliateBuildResult

-- What a placeholder's name stands for: nothing where the name is unknown.
abbrev value_of : TemplateValues → List ℕ → Option (Option (List ℕ))
value_of values name =
    if name == codes "program_id"
    then some values.program_id
    else if name == codes "campaign_id"
    then some values.campaign_id
    else if name == codes "tag"
    then some values.tag
    else if name == codes "u" || name == codes "destination"
    then some values.destination
    else none

-- The run of characters other than braces, and what follows it.
abbrev without_braces : List ℕ → List ℕ × List ℕ
without_braces [] = ([], [])
without_braces (c ∷ cs) =
    let (run, rest) = without_braces cs in
    if eqb c b'{' || eqb c b'}' then ([], c ∷ cs) else (c ∷ run, rest)

abbrev closed : List ℕ × List ℕ → Option (List ℕ × List ℕ)
closed (name, c ∷ d ∷ rest) = if eqb c b'}' && eqb d b'}' then some (name, rest) else none
closed (name, c ∷ []) = none
closed (name, []) = none

-- A placeholder at the start of the text: what stands between the braces, and the rest.
unfoldable pub placeholder : List ℕ → Option (List ℕ × List ℕ)
placeholder (c ∷ d ∷ cs) = if eqb c b'{' && eqb d b'{' then closed (without_braces cs) else none
placeholder (c ∷ []) = none
placeholder [] = none

-- The text that is filled in, and the failures in order; `none` where encoding threw.
pub record Filled : Type 0 where
  pub url : List ℕ
  pub failures : List BuildError

abbrev with_text : List ℕ → Option Filled → Option Filled
with_text text none = none
with_text text (some filled) = some (record filled { url = text ++ filled.url })

abbrev with_failure : BuildError → Option Filled → Option Filled
with_failure failure none = none
with_failure failure (some filled) = some (record filled { failures = failure ∷ filled.failures })

module _ (urls : Urls) (values : TemplateValues) where
  abbrev encoded_text : Option (List ℕ) → Option Filled → Option Filled
  encoded_text none rest = none
  encoded_text (some text) rest = with_text text rest

  abbrev substitute : List ℕ → Option (Option (List ℕ)) → Option Filled → Option Filled
  substitute name none rest = with_failure (unknown_placeholder name) rest
  substitute name (some none) rest = with_failure (missing_placeholder name) rest
  substitute name (some (some value)) rest =
      if is_empty value
      then with_failure (missing_placeholder name) rest
      else encoded_text (urls.encode value) rest

  -- `template.replace(PLACEHOLDER, …)`. Each round takes a character or a placeholder, so the length
  -- of the template is fuel enough.
  unfoldable pub fill_from : ℕ → List ℕ → Option Filled
  fill_from zero text = some (record { url = text; failures = [] })
  fill_from (suc n) [] = some (record { url = []; failures = [] })
  fill_from (suc n) (c ∷ cs) = elim (placeholder (c ∷ cs)) [
    | none ↦ with_text (c ∷ []) (fill_from n cs)
    | some (raw, rest) ↦
        let name = trim_end (trim_start raw) in
        substitute name (value_of values name) (fill_from n rest)
  ]

  abbrev pub result_of : Option Filled → AffiliateBuildResult
  result_of none = not_built encode_failed
  result_of (some filled) = elim (filled.failures) [
    | failure ∷ later ↦ not_built failure
    | [] ↦ if urls.is_http_url filled.url then built filled.url else not_built invalid_url
  ]

  unfoldable pub fill_template : List ℕ → AffiliateBuildResult
  fill_template template = result_of (fill_from (length template) template)

pub record PartnerStackConfig : Type 0 where
  pub program_id : List ℕ

pub record ImpactConfig : Type 0 where
  pub program_id : List ℕ
  pub campaign_id : Option (List ℕ)

-- What a builder is given.
pub record AffiliateBuildInput (Config : Type 0) : Type 0 where
  pub template : List ℕ
  pub config : Config
  pub destination : Option (List ℕ)

unfoldable pub build_partner_stack_url :
    Urls → AffiliateBuildInput PartnerStackConfig → AffiliateBuildResult
build_partner_stack_url urls input =
    fill_template urls
      (record {
        program_id = some input.config.program_id;
        campaign_id = none;
        tag = none;
        destination = input.destination;
      })
      input.template

unfoldable pub build_impact_url : Urls → AffiliateBuildInput ImpactConfig → AffiliateBuildResult
build_impact_url urls input =
    fill_template urls
      (record {
        program_id = some input.config.program_id;
        campaign_id = input.config.campaign_id;
        tag = none;
        destination = input.destination;
      })
      input.template

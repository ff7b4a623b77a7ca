-- ===== src/Demand/Affiliate/Laws.antt =====
-- What a reader of an Amazon link finds: packages/core/src/demand/affiliate/amazon.ts.
use adgate.Prelude.{
  ℕ, length, Bool-cases, sym, ◌⊎◌, ◌≡◌, refl, ap, ◌∙◌, subst, Bool, true, false, ◌&&◌, not, Option,
  none, some, List, [], ◌∷◌, arith, if◌then◌else◌, filter, is_none, inl, inr,
}
use adgate.Schema.{amazon}
use adgate.Demand.Affiliate.Text.{split_on, lacks}
use adgate.Demand.Affiliate.Amazon.{
  Urls, AmazonConfig, is_amazon_host, is_kept, query_of, path_of, fragment_of, set_tag_param,
}
use adgate.Demand.Affiliate.Tag.{
  IsPlatform, is_plain, tags_read, set_tag_param-parts, set_tag_param-tag, set_tag_param-read,
  set_tag_param-plain,
}
use adgate.Demand.Affiliate.Template.{
  BuildError, Filled, fill_from, result_of, built, not_built, not_amazon_host, marketplace_mismatch,
  TemplateValues, fill_template,
}
use adgate.Demand.Affiliate.{
  result, amazon_marketplaces, tagged_link, check_host, build_amazon_url, BuildAffiliateUrlInput,
  from_amazon, build_by_network, build_affiliate_url,
}

-- What a reader of the link finds, beside the filled template.
pub record Credits (urls : Urls) (read : List ℕ → List ℕ) (config : AmazonConfig)
    (filled link : List ℕ) : Type 0 where
  pub plain : is_plain link ≡ true
  pub http : urls.is_http_url link ≡ true
  pub host : is_amazon_host amazon_marketplaces (urls.hostname link) none ≡ true
  pub storefront :
      (is_none config.marketplace ≡ true)
      ⊎ (is_amazon_host amazon_marketplaces (urls.hostname link) config.marketplace ≡ true)
  pub tags : tags_read read (split_on b'&' (query_of link)) ≡ config.tag ∷ []
  pub others :
      filter (is_kept urls) (split_on b'&' (query_of link))
      ≡ filter (is_kept urls) (split_on b'&' (query_of filled))
  pub path : path_of link ≡ path_of filled
  pub fragment : fragment_of link ≡ fragment_of filled

-- What the placeholders of an Amazon template stand for.
abbrev pub amazon_values : AmazonConfig → Option (List ℕ) → TemplateValues
amazon_values config destination = record {
  program_id = none;
  campaign_id = none;
  tag = some config.tag;
  destination = destination;
}

fill_template-http :
    (urls : Urls) (values : TemplateValues) (template url : List ℕ)
    → fill_template urls values template ≡ built url
    → urls.is_http_url url ≡ true
unfolding fill_template
fill_template-http urls values template url h =
    by_fill (fill_from urls values (length template) template) h
  where
    by_failures :
        (found : List ℕ) (failures : List BuildError)
        → result_of urls values (some (record { url = found; failures = failures })) ≡ built url
        → urls.is_http_url url ≡ true
    by_failures found (failure ∷ later) k = cc
    by_failures found [] k = elim (Bool-cases (urls.is_http_url found)) [
      | inl http ↦ let e = rw http at k in cc
      | inr other ↦ let e = rw other at k in cc
    ]

    by_fill :
        (o : Option Filled) → result_of urls values o ≡ built url → urls.is_http_url url ≡ true
    by_fill none k = cc
    by_fill (some filled) k = by_failures filled.url filled.failures k

module _ (urls : Urls) (read : List ℕ → List ℕ) (platform : IsPlatform urls read) where
  host_ok :
      (marketplace : Option (List ℕ)) (host : List ℕ)
      → (not (is_none marketplace) && not (is_amazon_host amazon_marketplaces host marketplace))
        ≡ false
      → (is_none marketplace ≡ true) ⊎ (is_amazon_host amazon_marketplaces host marketplace ≡ true)
  host_ok none host h = inl refl
  host_ok (some m) host h = inr (ground arith)

  tagged_link-built :
      (filled link tag : List ℕ) (o : Option (List ℕ))
      → urls.encode tag ≡ o
      → tagged_link urls filled o ≡ result (built link)
      → (encoded : List ℕ) × (urls.encode tag ≡ some encoded)
        × (link ≡ set_tag_param urls filled encoded)
  tagged_link-built filled link tag none e h = cc
  tagged_link-built filled link tag (some encoded) e h = (encoded, e, cc)

  tagged-Credits :
      (config : AmazonConfig) (filled encoded : List ℕ)
      → is_plain filled ≡ true
      → urls.is_http_url filled ≡ true
      → urls.encode config.tag ≡ some encoded
      → lacks b'#' encoded ≡ true
      → lacks b'&' encoded ≡ true
      → is_plain encoded ≡ true
      → is_amazon_host amazon_marketplaces (urls.hostname filled) none ≡ true
      → (is_none config.marketplace ≡ true)
        ⊎ (is_amazon_host amazon_marketplaces (urls.hostname filled) config.marketplace ≡ true)
      → Credits urls read config filled (set_tag_param urls filled encoded)
  tagged-Credits config filled encoded plain http found hash and clean at_amazon own =
      let link = set_tag_param urls filled encoded in
      let (path, pairs, fragment) =
        set_tag_param-parts urls read platform filled encoded hash and in
      let link_plain = set_tag_param-plain urls read platform filled encoded plain clean in
      let (same_http, same_host) = platform.host_front link filled link_plain plain path in
      let at =
        λ (m : Option (List ℕ)). ap (λ h. is_amazon_host amazon_marketplaces h m) same_host in
      record {
        plain = link_plain;
        http = same_http ∙ http;
        host = at none ∙ at_amazon;
        storefront = elim own [
          | inl any_one ↦ inl any_one
          | inr its_own ↦ inr (at config.marketplace ∙ its_own)
        ];
        tags = set_tag_param-read urls read platform filled config.tag encoded found;
        others = (set_tag_param-tag urls read platform filled encoded hash and).1;
        path = path;
        fragment = fragment;
      }

  -- A link that passes the checks of the host.
  check_host-Credits :
      (config : AmazonConfig) (filled link : List ℕ)
      → is_plain filled ≡ true
      → urls.is_http_url filled ≡ true
      → check_host urls config (built filled) ≡ result (built link)
      → Credits urls read config filled link
  check_host-Credits config filled link plain http h =
      by_tests (is_amazon_host amazon_marketplaces host none)
        (not (is_none config.marketplace)
          && not (is_amazon_host amazon_marketplaces host config.marketplace))
        refl refl h
    where
      host : List ℕ
      host = urls.hostname filled

      by_tests :
          (amazon_host mismatch : Bool)
          → is_amazon_host amazon_marketplaces host none ≡ amazon_host
          → (not (is_none config.marketplace)
              && not (is_amazon_host amazon_marketplaces host config.marketplace))
            ≡ mismatch
          → (if not amazon_host
              then result (not_built not_amazon_host)
              else if mismatch
              then result (not_built marketplace_mismatch)
              else tagged_link urls filled (urls.encode config.tag))
            ≡ result (built link)
          → Credits urls read config filled link
      by_tests false m e f k = cc
      by_tests true true e f k = cc
      by_tests true false e f k =
          let (encoded, found, same) =
            tagged_link-built filled link config.tag (urls.encode config.tag) refl k in
          let (hash, and, clean) = platform.encoded_plain config.tag encoded found in
          subst (Credits urls read config filled) (sym same) (
            tagged-Credits config filled encoded plain http found hash and clean e
              (host_ok config.marketplace host f))

-- A link that is built for an Amazon creative, where the filled template has no character that a parser
-- of URLs takes out, is an http(s) URL on a storefront of Amazon, the owner's own if the owner names
-- one. A reader of its query finds one tag, in any case: the owner's, whatever tags the template or
-- the program id of the creative name. The other pairs, the path and the fragment are the template's.
pub build_affiliate_url-Credits :
    (urls : Urls) (read : List ℕ → List ℕ) (input : BuildAffiliateUrlInput) (config : AmazonConfig)
    (filled link : List ℕ)
    → IsPlatform urls read
    → input.network ≡ amazon
    → input.config.amazon_entry ≡ some config
    → fill_template urls (amazon_values config input.destination) input.template ≡ built filled
    → is_plain filled ≡ true
    → build_affiliate_url urls input ≡ result (built link)
    → Credits urls read config filled link
unfolding build_affiliate_url build_amazon_url
build_affiliate_url-Credits urls read input config filled link platform network entry fill plain h =
    let by = build_by_network urls input.template input.destination input.program_id input.config in
    let from = from_amazon urls input.template input.destination input.program_id in
    check_host-Credits urls read platform config filled link plain
      (fill_template-http urls (amazon_values config input.destination) input.template filled fill)
      (ap (check_host urls config) (sym fill) ∙ ap from (sym entry) ∙ ap by (sym network) ∙ h)

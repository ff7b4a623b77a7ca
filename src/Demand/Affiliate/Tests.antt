-- ===== src/Demand/Affiliate/Tests.antt =====
-- The theorem on Amazon links at a template that names a tag of its own.
use adgate.Prelude.{ℕ, ◌≡◌, refl, true, ◌&&◌, Option, none, some, List, codes, if◌then◌else◌, arith}
use adgate.Schema.{amazon}
use adgate.Demand.Affiliate.Text.{lacks}
use adgate.Demand.Affiliate.Amazon.{
  Urls, AmazonConfig, is_amazon_host, is_storefront, set_tag_param, is_tag_param,
}
use adgate.Demand.Affiliate.Tag.{IsPlatform, is_plain}
use adgate.Demand.Affiliate.Template.{built, fill_template, fill_from, placeholder}
use adgate.Demand.Affiliate.{result, BuildAffiliateUrlInput, build_affiliate_url, build_amazon_url}
use adgate.Demand.Affiliate.Laws.{Credits, amazon_values, build_affiliate_url-Credits}

abbrev encode : List ℕ → Option (List ℕ)
encode text = if lacks b'#' text && (lacks b'&' text && is_plain text) then some text else none

abbrev decode : List ℕ → Option (List ℕ)
decode text = some text

abbrev urls : Urls
urls = record {
  encode = encode;
  decode = decode;
  is_http_url = λ url. true;
  hostname = λ url. codes "www.amazon.de";
}

abbrev read : List ℕ → List ℕ
read text = text

encode-plain :
    (text encoded : List ℕ)
    → encode text ≡ some encoded
    → (lacks b'#' encoded ≡ true) × (lacks b'&' encoded ≡ true) × (is_plain encoded ≡ true)
encode-plain text encoded h = ground arith

encode-read : (text encoded : List ℕ) → encode text ≡ some encoded → encoded ≡ text
encode-read text encoded h = ground arith

urls-IsPlatform : IsPlatform urls read
urls-IsPlatform = record {
  encoded_plain = encode-plain;
  decodes_tag = refl;
  reads_tag = refl;
  reads_encoded = encode-read;
  reads_name = λ name e. refl;
  host_front = λ a b plain_a plain_b e. (refl, refl);
}

abbrev config : AmazonConfig
config = record { tag = codes "mysite-21"; marketplace = some (codes "de") }

abbrev link_input : BuildAffiliateUrlInput
link_input = record {
  network = amazon;
  template = codes "https://www.amazon.de/dp/1?TAG=other-21&th=1#x";
  config = record { partnerstack_entry = none; impact_entry = none; amazon_entry = some config };
  destination = none;
  program_id = some (codes "other-21");
}

abbrev owned_link : List ℕ
owned_link = codes "https://www.amazon.de/dp/1?th=1&tag=mysite-21#x"

builds_link : build_affiliate_url urls link_input ≡ result (built owned_link)
unfolding build_affiliate_url build_amazon_url fill_template fill_from placeholder is_amazon_host
    is_storefront set_tag_param is_tag_param
builds_link = refl

-- The template has no placeholder.
fills_template :
    fill_template urls (amazon_values config none) link_input.template ≡ built link_input.template
unfolding fill_template fill_from placeholder
fills_template = refl

link_example : Credits urls read config link_input.template owned_link
link_example =
    build_affiliate_url-Credits urls read link_input config link_input.template owned_link
      urls-IsPlatform refl refl fills_template refl builds_link

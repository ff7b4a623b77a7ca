-- ===== src/Gateway/Click/Laws.antt =====
-- What a click leads to, and when it is written.
use adgate.Prelude.{
  ℕ, ◌⊎◌, inl, inr, ◌≡◌, refl, String, Bool, true, false, not, Option, none, some, List, ◌∷◌,
  if◌then◌else◌, ◌==◌,
}
use adgate.Schema.{affiliate, source_eq, AffiliateNetwork}
use adgate.Demand.Affiliate.Amazon.{Urls}
use adgate.Demand.Affiliate.Template.{built, not_built}
use adgate.Demand.Affiliate.{Built, result, build_threw, AffiliateConfig}
use adgate.Demand.Affiliate.Adapter.{default_destination}
use adgate.Gateway.Click.{
  ClickCreative, Destination, found, invalid_url, DestinationVia, template, landing_page,
  affiliate_link, DestinationInput, affiliate_network_of, http_only, from_built, build_link,
  affiliate_destination, resolve_destination, ClickTarget, ClickInsert, ClickResponse, not_found,
  redirect, internal_error, ClickDeps, go_to, with_creative, with_target, click_route,
}

-- The link that the owner's present configuration builds for the creative.
pub record Link (urls : Urls) (creative : ClickCreative) (input : DestinationInput) (url : List ℕ)
    : Type 0 where
  pub network : AffiliateNetwork
  pub config : AffiliateConfig
  pub configured : input.affiliate_config ≡ some config
  pub served : affiliate_network_of creative input.demand ≡ some network
  pub link :
      build_link urls creative (default_destination creative.advertiser_domain) network config
      ≡ result (built url)

-- Where a creative may lead: its template if it is no affiliate's; the link that is built or else
-- the landing page of the advertiser if it is.
abbrev pub LeadsTo : Urls → DestinationInput → List ℕ → Type 0
LeadsTo urls input url =
    ((input.creative.source == affiliate ≡ false) × (url ≡ input.creative.url_template))
    ⊎ ((input.creative.source == affiliate ≡ true)
        × ((url ≡ default_destination input.creative.advertiser_domain)
            ⊎ Link urls input.creative input url))

-- An outcome of `resolve_destination` is no URL, or an http(s) URL that the creative may lead to.
abbrev Resolved : Urls → DestinationInput → Option Destination → Type 0
Resolved urls input none = Unit
Resolved urls input (some invalid_url) = Unit
Resolved urls input (some (found url via)) = (urls.is_http_url url ≡ true) × LeadsTo urls input url

module _ (urls : Urls) where
  http_only-Resolved :
      (input : DestinationInput) (url : List ℕ) (via : DestinationVia)
      → LeadsTo urls input url
      → Resolved urls input (some (http_only urls url via))
  http_only-Resolved input url via leads = by_test (urls.is_http_url url) refl
    where
      by_test :
          (b : Bool)
          → urls.is_http_url url ≡ b
          → Resolved urls input (some (if b then found url via else invalid_url))
      by_test true e = (e, leads)
      by_test false e = tt

  resolve_destination-Resolved :
      (input : DestinationInput) → Resolved urls input (resolve_destination urls input)
  unfolding resolve_destination
  resolve_destination-Resolved input = by_source (input.creative.source == affiliate) refl
    where
      landing : List ℕ
      landing = default_destination input.creative.advertiser_domain

      by_config :
          (network : Option AffiliateNetwork) (config : Option AffiliateConfig)
          → (input.creative.source == affiliate) ≡ true
          → affiliate_network_of input.creative input.demand ≡ network
          → input.affiliate_config ≡ config
          → Resolved urls input (affiliate_destination urls input.creative landing network config)
      by_config none config s e f =
          http_only-Resolved input landing landing_page (inr (s, inl refl))
      by_config (some network) none s e f =
          http_only-Resolved input landing landing_page (inr (s, inl refl))
      by_config (some network) (some config) s e f =
          by_built (build_link urls input.creative landing network config) refl
        where
          by_built :
              (b : Built)
              → build_link urls input.creative landing network config ≡ b
              → Resolved urls input (from_built urls landing b)
          by_built build_threw g = tt
          by_built (result (not_built error)) g =
              http_only-Resolved input landing landing_page (inr (s, inl refl))
          by_built (result (built url)) g = http_only-Resolved input url affiliate_link (
              inr (
                s,
                inr (record {
                  network = network;
                  config = config;
                  configured = f;
                  served = e;
                  link = g;
                }),
              ))

      by_source :
          (b : Bool)
          → (input.creative.source == affiliate) ≡ b
          → Resolved urls input (
              if not b
              then some (http_only urls input.creative.url_template template)
              else affiliate_destination urls input.creative landing
                  (affiliate_network_of input.creative input.demand)
                  input.affiliate_config)
      by_source false e =
          http_only-Resolved input input.creative.url_template template (inl (e, refl))
      by_source true e =
          by_config (affiliate_network_of input.creative input.demand) input.affiliate_config e refl
            refl

abbrev pub input_of : ClickTarget → ClickCreative → DestinationInput
input_of target creative = record {
  creative = creative;
  affiliate_config = target.affiliate_config;
  demand = target.demand;
}

-- What a redirect rests on.
pub record Redirected (urls : Urls) (deps : ClickDeps) (audit_id : String)
    (events after : List ClickInsert) (url : List ℕ) : Type 0 where
  pub target : ClickTarget
  pub creative : ClickCreative
  pub valid_id : deps.is_audit_id audit_id ≡ true
  pub target_found : deps.find_target audit_id ≡ some (some target)
  pub served : target.creative ≡ some creative
  pub http : urls.is_http_url url ≡ true
  pub leads : LeadsTo urls (input_of target creative) url
  pub written :
      after ≡ record { audit_id = audit_id; app_id = target.app_id; ts = deps.now } ∷ events

abbrev pub Followed :
    Urls → ClickDeps → String → List ClickInsert → List ClickInsert × ClickResponse → Type 0
Followed urls deps audit_id events (after, not_found) = after ≡ events
Followed urls deps audit_id events (after, internal_error) = after ≡ events
Followed urls deps audit_id events (after, redirect url) =
    Redirected urls deps audit_id events after url

-- A click redirects only to an http(s) URL that its creative leads to: the template of a creative
-- that is no affiliate's, and else the link that the owner's present configuration builds, or the
-- landing page of the advertiser. Each redirect has written its event for the app of the record, and
-- every other response has written nothing.
pub click_route-Followed :
    (urls : Urls) (deps : ClickDeps) (audit_id : String) (events : List ClickInsert)
    → Followed urls deps audit_id events (click_route urls deps audit_id events)
unfolding click_route
click_route-Followed urls deps audit_id events = by_id (deps.is_audit_id audit_id) refl
  where
    by_destination :
        (target : ClickTarget) (creative : ClickCreative) (d : Option Destination)
        → deps.is_audit_id audit_id ≡ true
        → deps.find_target audit_id ≡ some (some target)
        → target.creative ≡ some creative
        → Resolved urls (input_of target creative) d
        → Followed urls deps audit_id events (go_to urls deps audit_id events target d)
    by_destination target creative none i f s r = refl
    by_destination target creative (some invalid_url) i f s r = refl
    by_destination target creative (some (found url via)) i f s (http, leads) =
        by_write deps.records_click
      where
        by_write :
            (b : Bool)
            → Followed urls deps audit_id events (
                if b
                then (
                  record { audit_id = audit_id; app_id = target.app_id; ts = deps.now } ∷ events,
                  redirect url,
                )
                else (events, internal_error))
        by_write true = record {
          target = target;
          creative = creative;
          valid_id = i;
          target_found = f;
          served = s;
          http = http;
          leads = leads;
          written = refl;
        }
        by_write false = refl

    by_creative :
        (target : ClickTarget) (o : Option ClickCreative)
        → deps.is_audit_id audit_id ≡ true
        → deps.find_target audit_id ≡ some (some target)
        → target.creative ≡ o
        → Followed urls deps audit_id events (with_creative urls deps audit_id events target o)
    by_creative target none i f s = refl
    by_creative target (some creative) i f s =
        by_destination target creative (resolve_destination urls (input_of target creative)) i f s
          (resolve_destination-Resolved urls (input_of target creative))

    by_target :
        (o : Option (Option ClickTarget))
        → deps.is_audit_id audit_id ≡ true
        → deps.find_target audit_id ≡ o
        → Followed urls deps audit_id events (with_target urls deps audit_id events o)
    by_target none i f = refl
    by_target (some none) i f = refl
    by_target (some (some target)) i f = by_creative target target.creative i f refl

    by_id :
        (b : Bool)
        → deps.is_audit_id audit_id ≡ b
        → Followed urls deps audit_id events (
            if not b
            then (events, not_found)
            else with_target urls deps audit_id events (deps.find_target audit_id))
    by_id false i = refl
    by_id true i = by_target (deps.find_target audit_id) i refl

-- ===== src/Gateway/Click/Tests.antt =====
-- The theorem on clicks at a creative of the app's own catalog.
use adgate.Prelude.{◌≡◌, refl, true, none, some, [], ◌∷◌, codes}
use adgate.Schema.{direct}
use adgate.Demand.Affiliate.Amazon.{Urls}
use adgate.Gateway.Click.{
  ClickCreative, ClickTarget, ClickInsert, ClickDeps, redirect, resolve_destination, click_route,
}
use adgate.Gateway.Click.Laws.{Followed, click_route-Followed}

abbrev urls : Urls
urls = record {
  encode = λ text. some text;
  decode = λ text. some text;
  is_http_url = λ url. true;
  hostname = λ url. [];
}

abbrev creative : ClickCreative
creative = record {
  source = direct;
  url_template = codes "https://acme.dev";
  network = none;
  program_id = none;
  advertiser_domain = "acme.dev";
}

abbrev target : ClickTarget
target = record {
  app_id = "app_1";
  affiliate_config = none;
  demand = none;
  creative = some creative;
}

abbrev deps : ClickDeps
deps = record {
  is_audit_id = λ id. true;
  find_target = λ id. some (some target);
  records_click = true;
  now = 5;
}

abbrev click : ClickInsert
click = record { audit_id = "aud_1"; app_id = "app_1"; ts = 5 }

goes_to_template :
    click_route urls deps "aud_1" [] ≡ (click ∷ [], redirect (codes "https://acme.dev"))
unfolding click_route resolve_destination
goes_to_template = refl

click_example : Followed urls deps "aud_1" [] (click_route urls deps "aud_1" [])
click_example = click_route-Followed urls deps "aud_1" []

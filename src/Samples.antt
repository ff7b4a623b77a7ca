-- ===== src/Samples.antt =====
-- Values for the tests: a policy, a turn and a catalog.
use Prim.Native.String
use adgate.Prelude.{not, ◌==◌, string_eq, String, true, false, none, some, [], ◌∷◌}
use adgate.Schema.{
  frequency_cap, num, llm, Classification, User, Surface, CapState, self_harm, gambling, strict,
  direct, FrequencyCaps, Disclosure, PolicyConfig, PolicyOverrides, CatalogCreative, DemandRequest,
  Candidate,
}
use adgate.Policy.Evaluate.{EvaluatePolicyInput}
use adgate.Audit.Chain.{Platform, AuditSigningKey, genesis}
use adgate.Audit.Build.{BuildAuditRecordInput}

abbrev pub classification : Classification
classification = record {
  commercial_intent = num 80;
  categories = "software.devtools.database" ∷ [];
  sensitive = [];
  confidence = num 90;
  method = llm;
  prompt_version = "v1";
}

abbrev pub user : User
user = record { user_hash = some "u1"; tier = "free"; region = some "FR"; locale = none }

abbrev pub surface : Surface
surface = record { surface_type = "chat"; placement = "below"; max_creatives = none }

abbrev pub caps : FrequencyCaps
caps = record { per_session = 1; per_user_per_day = 5; min_turns_between = 2 }

abbrev pub disclosure : Disclosure
disclosure = record { label = "Sponsored"; position = "after_answer"; style = "separate_block" }

abbrev pub policy : PolicyConfig
policy = record {
  version = 1;
  app_id = "app_1";
  serve_to_tiers = "free" ∷ [];
  allow_paid_tiers = false;
  blocked_categories = self_harm ∷ gambling ∷ [];
  sensitive_detection = strict;
  min_commercial_intent = 50;
  min_confidence = 70;
  competitor_exclusions = "rival.com" ∷ [];
  frequency_caps = caps;
  disclosure = disclosure;
  demand = record { source = direct; network = none; enabled = true } ∷ [];
  privacy = record { store_raw_text = false; retain_days = 30 };
  regions_allow = "EU" ∷ "US" ∷ [];
}

abbrev pub fresh_caps : CapState
fresh_caps = record { session_count = 0; day_count = 0; turns_since_last = none }

abbrev pub input : EvaluatePolicyInput
input = record {
  classification = classification;
  user = user;
  policy = policy;
  cap_state = fresh_caps;
  surface = surface;
}

abbrev pub no_overrides : PolicyOverrides
no_overrides = record {
  version = none;
  app_id = none;
  serve_to_tiers = none;
  allow_paid_tiers = none;
  blocked_categories = none;
  sensitive_detection = none;
  min_commercial_intent = none;
  min_confidence = none;
  competitor_exclusions = none;
  frequency_caps = none;
  disclosure = none;
  demand = none;
  privacy = none;
  regions_allow = none;
}

abbrev pub overrides : PolicyOverrides
overrides = record no_overrides {
  min_confidence = some 80;
  min_commercial_intent = some 10;
  regions_allow = some ("FR" ∷ "BR" ∷ []);
}

abbrev pub creative : CatalogCreative
creative = record {
  id = "cr_1";
  advertiser = "Acme";
  advertiser_domain = "acme.dev";
  headline = "Fast databases";
  body = "Try Acme";
  cta = "Start";
  url_template = "https://acme.dev";
  target_categories = "software.devtools.*" ∷ [];
  target_regions = "EU" ∷ [];
  keywords = "postgres" ∷ [];
  ecpm = 40;
  source = direct;
  active = true;
  network = none;
  program_id = none;
}

abbrev pub candidate : Candidate
candidate = record {
  creative = creative;
  ecpm_estimate = 40;
  targeting_match = 600;
  resolved_url = none;
}

abbrev pub request : DemandRequest
request = record {
  app_id = "app_1";
  classification = classification;
  surface = surface;
  user = record { region = some "FR"; locale = none };
  exclusions = [];
  keywords = none;
}

abbrev pub same_text : String → String
same_text text = text

-- A platform whose hash writes a prefix and whose signature is the text itself.
abbrev pub platform : Platform
platform = record {
  canonical = λ u extras. u.body.content.id;
  canonical_body = λ body. body.id;
  canonical_content = λ content. content.headline;
  sha256_prefixed = λ text. String.◌++◌ "sha256:" text;
  sign = λ text pem. some text;
  verify_with_public_key = λ text sig pem. text == sig;
  digest_hex = λ text. none;
  is_key_id = λ key_id. not (key_id == "");
  formats_ok = λ r. true;
  is_hash = λ text. true;
  is_timestamp = λ text. true;
  date_parse = λ text. some 0;
  is_blank = λ text. text == "";
}

abbrev pub signing : AuditSigningKey
signing = record { key_id = "k1"; private_pem = "pem" }

abbrev pub base : BuildAuditRecordInput
base = record {
  id = "aud_1";
  app = record { app_id = "app_1"; salt = "salt" };
  conversation_id = "conv";
  user_hash = some "u1";
  turn_id = "t1";
  ts = "2026-01-01T00:00:00Z";
  surface = surface;
  classification = classification;
  policy = record { policy_version = 1; policy_hash = "sha256:p"; disclosure = disclosure };
  policy_result = record { allowed = false; reason = some frequency_cap; decisions = [] };
  override_rejected = none;
  mediation = none;
  prev_hash = genesis;
  signing = signing;
}

-- ===== src/Gateway/Auth/Tests.antt =====
-- The theorem on requests at a key that was verified, and is presented again.
use adgate.Prelude.{ℕ, ◌≡◌, refl, true, Option, none, some, List, [], ◌∷◌, codes, any}
use adgate.Classify.Run.Types.{done}
use adgate.Gateway.Auth.Keys.{ParsedApiKey, parse_bearer_header, parse_api_key, verify_api_secret}
use adgate.Gateway.Auth.VerifiedCache.{app, VerifiedKeyCache, get_verified, set_verified}
use adgate.Gateway.Auth.{
  ApiKeyRow, AppRow, ApiKeyStore, Hashing, context_of, same_role, passed, bearer_auth, authenticate,
}
use adgate.Gateway.Auth.Laws.{AuthStep, presented, after_steps}
use adgate.Gateway.Auth.Sound.{Shown, bearer_auth-Shown}

abbrev row : ApiKeyRow
row = record {
  id = "key_1";
  app_id = "app_1";
  key_prefix = codes "abcdefgh";
  hashed_key = codes "hash";
  role = app;
  advertiser_id = none;
  revoked_at = none;
  last_used_at = none;
}

abbrev app_row : AppRow
app_row = record { id = "app_1"; salt = "salt" }

abbrev store : ApiKeyStore
store = record { find_by_prefix = λ p. done (some row); find_app = λ id. done (some app_row) }

abbrev hashing : Hashing
hashing = record {
  digest = λ secret. secret;
  is_argon2id_hash = λ h. true;
  verify = λ h secret. done true;
}

abbrev parsed : ParsedApiKey
parsed = record { key_prefix = codes "abcdefgh"; secret = codes "0123456789abcdef0123456789abcdef" }

abbrev empty_cache : VerifiedKeyCache
empty_cache = record { ttl_ms = 60000; max_entries = 10; entries = [] }

abbrev header : Option (List ℕ)
header = some (codes "Bearer ak_abcdefgh_0123456789abcdef0123456789abcdef")

abbrev steps : List AuthStep
steps = presented store parsed 1000 ∷ []

lets_through :
    (bearer_auth hashing (app ∷ []) store (after_steps hashing empty_cache steps) header 2000).1
    ≡ passed (context_of row) app_row
unfolding bearer_auth after_steps authenticate context_of parse_bearer_header parse_api_key
    verify_api_secret get_verified set_verified
lets_through = refl

auth_example :
    (p : ParsedApiKey) × (r : ApiKeyRow) × (parse_bearer_header header ≡ some p)
    × (context_of row ≡ context_of r)
    × (any (same_role r.role) (app ∷ []) ≡ true)
    × Shown hashing empty_cache.ttl_ms steps store p 2000 r app_row
auth_example =
    bearer_auth-Shown hashing (app ∷ []) empty_cache steps store header 2000 (context_of row)
      app_row refl lets_through

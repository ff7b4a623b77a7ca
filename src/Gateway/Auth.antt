-- ===== src/Gateway/Auth.antt =====
-- packages/gateway/src/auth: middleware.ts and repository.ts. What the database answers is a record
-- of functions, which may throw; hashes are parameters. Log lines are left out.
pub mod Keys
pub mod VerifiedCache
pub mod Laws
pub mod Sound
mod Tests
use adgate.Prelude.{
  ℕ, ◌+◌, ◌-◌, String, Bool, true, false, ◌&&◌, ◌||◌, not, Option, none, some, List, [], ◌∷◌, ◌++◌,
  if◌then◌else◌, ◌==◌, string_eq, ltb, leb, any, is_none, is_empty, map,
}
use adgate.Classify.Run.Types.{Attempt, done, threw}
use adgate.Gateway.Auth.Keys.{ParsedApiKey, parse_bearer_header, verify_api_secret}
use adgate.Gateway.Auth.VerifiedCache.{
  ApiKeyRole, app, advertiser_read, AuthContext, VerifiedKeyCache, get_verified, set_verified,
  invalidate,
}

pub record ApiKeyRow : Type 0 where
  pub id : String
  pub app_id : String
  pub key_prefix : List ℕ
  pub hashed_key : List ℕ
  pub role : ApiKeyRole
  pub advertiser_id : Option String
  pub revoked_at : Option ℕ
  pub last_used_at : Option ℕ

pub record AppRow : Type 0 where
  pub id : String
  pub salt : String

-- What the tables answer while a request is handled.
pub record ApiKeyStore : Type 0 where
  pub find_by_prefix : List ℕ → Attempt (Option ApiKeyRow)
  pub find_app : String → Attempt (Option AppRow)

-- SHA-256 and argon2.
pub record Hashing : Type 0 where
  pub digest : List ℕ → List ℕ
  pub is_argon2id_hash : List ℕ → Bool
  pub verify : List ℕ → List ℕ → Attempt Bool

pub data AuthFailure : Type 0 where
  unknown_key bad_secret revoked no_app store_error : AuthFailure

pub data AuthResult : Type 0 where
  authenticated : ApiKeyRow → AppRow → AuthResult
  refused : AuthFailure → AuthResult

unfoldable pub context_of : ApiKeyRow → AuthContext
context_of row = record {
  key_id = row.id;
  app_id = row.app_id;
  role = row.role;
  advertiser_id = row.advertiser_id;
}

-- `cache.get(...)?.key_id === row.id`
abbrev pub is_cached : Option AuthContext → String → Bool
is_cached none id = false
is_cached (some auth) id = auth.key_id == id

module _ (hashing : Hashing) where
  abbrev pub secret_ok : ApiKeyRow → ParsedApiKey → Bool
  secret_ok row parsed =
      verify_api_secret hashing.is_argon2id_hash hashing.verify row.hashed_key parsed.secret

  -- The app of a key that is verified and not revoked.
  abbrev pub with_app :
      VerifiedKeyCache
      → ParsedApiKey
      → ℕ
      → ApiKeyRow
      → Bool
      → Attempt (Option AppRow)
      → VerifiedKeyCache × AuthResult
  with_app cache parsed now row was_cached (threw name) = (cache, refused store_error)
  with_app cache parsed now row was_cached (done none) = (cache, refused no_app)
  with_app cache parsed now row was_cached (done (some found)) =
      if was_cached then (cache, authenticated row found) else (
        set_verified hashing.digest cache parsed.key_prefix parsed.secret (context_of row) now,
        authenticated row found,
      )

  abbrev pub with_secret :
      ApiKeyStore
      → VerifiedKeyCache
      → ParsedApiKey
      → ℕ
      → ApiKeyRow
      → Bool
      → VerifiedKeyCache × AuthResult
  with_secret store cache parsed now row was_cached =
      if not was_cached && not (secret_ok row parsed)
      then (cache, refused bad_secret)
      else if not (is_none row.revoked_at)
      then (invalidate cache row.id, refused revoked)
      else with_app cache parsed now row was_cached (store.find_app row.app_id)

  abbrev pub with_row :
      ApiKeyStore
      → VerifiedKeyCache
      → ParsedApiKey
      → ℕ
      → Attempt (Option ApiKeyRow)
      → VerifiedKeyCache × AuthResult
  with_row store cache parsed now (threw name) = (cache, refused store_error)
  with_row store cache parsed now (done none) = (cache, refused unknown_key)
  with_row store cache parsed now (done (some row)) =
      let (looked, hit) = get_verified hashing.digest cache parsed.key_prefix parsed.secret now in
      with_secret store looked parsed now row (is_cached hit row.id)

  unfoldable pub authenticate :
      ApiKeyStore → VerifiedKeyCache → ParsedApiKey → ℕ → VerifiedKeyCache × AuthResult
  authenticate store cache parsed now =
      with_row store cache parsed now (store.find_by_prefix parsed.key_prefix)

-- What the middleware does with a request: an error of the given status, or the handler with the
-- context and the app.
pub data Passage : Type 0 where
  unauthorized unavailable forbidden : Passage
  passed : AuthContext → AppRow → Passage

abbrev pub same_role : ApiKeyRole → ApiKeyRole → Bool
same_role app app = true
same_role app advertiser_read = false
same_role advertiser_read app = false
same_role advertiser_read advertiser_read = true

abbrev pub rejection : AuthFailure → Passage
rejection unknown_key = unauthorized
rejection bad_secret = unauthorized
rejection revoked = unauthorized
rejection no_app = unauthorized
rejection store_error = unavailable

abbrev pub admit : List ApiKeyRole → AuthResult → Passage
admit roles (refused failure) = rejection failure
admit roles (authenticated row found) =
    if any (same_role row.role) roles then passed (context_of row) found else forbidden

abbrev pub last_used_throttle_ms : ℕ
last_used_throttle_ms = 60000

-- Whether `touchLastUsed` writes.
unfoldable pub touches_last_used : ApiKeyRow → ℕ → Bool
touches_last_used row now = elim (row.last_used_at) [
  | none ↦ true
  | some last ↦ not (ltb (now - last) last_used_throttle_ms)
]

abbrev pub bearer_from :
    Hashing
    → List ApiKeyRole
    → ApiKeyStore
    → VerifiedKeyCache
    → ℕ
    → Option ParsedApiKey
    → VerifiedKeyCache × Passage
bearer_from hashing roles store cache now none = (cache, unauthorized)
bearer_from hashing roles store cache now (some parsed) =
    let (after, result) = authenticate hashing store cache parsed now in (after, admit roles result)

-- The middleware of `bearerAuth`, for a route with at least one role.
unfoldable pub bearer_auth :
    Hashing
    → List ApiKeyRole
    → ApiKeyStore
    → VerifiedKeyCache
    → Option (List ℕ)
    → ℕ
    → VerifiedKeyCache × Passage
bearer_auth hashing roles store cache header now =
    bearer_from hashing roles store cache now (parse_bearer_header header)

pub record IssueApiKeyInput : Type 0 where
  pub app_id : String
  pub role : ApiKeyRole
  pub advertiser_id : Option String

-- `issueApiKey`: whether the input is refused, and the row that is inserted.
unfoldable pub issue_api_key :
    (List ℕ → List ℕ) → IssueApiKeyInput → String → List ℕ → List ℕ → Option ApiKeyRow
issue_api_key hash_api_secret input id key_prefix secret =
    let row : ApiKeyRow = record {
      id = id;
      app_id = input.app_id;
      key_prefix = key_prefix;
      hashed_key = hash_api_secret secret;
      role = input.role;
      advertiser_id = input.advertiser_id;
      revoked_at = none;
      last_used_at = none;
    } in
    elim (input.role) [
      | app ↦ if is_none input.advertiser_id then some row else none
      | advertiser_read ↦ if is_none input.advertiser_id then none else some row
    ]

abbrev pub revoke_row : ApiKeyRow → String → ℕ → ApiKeyRow
revoke_row row key_id now =
    if row.id == key_id && is_none row.revoked_at then record row { revoked_at = some now } else row

-- `revokeApiKey`: the rows and the cache that it leaves, and whether a row was changed.
unfoldable pub revoke_api_key :
    List ApiKeyRow → VerifiedKeyCache → String → ℕ → List ApiKeyRow × VerifiedKeyCache × Bool
revoke_api_key rows cache key_id now = (
  map (λ row. revoke_row row key_id now) rows,
  invalidate cache key_id,
  any (λ row. row.id == key_id && is_none row.revoked_at) rows,
)

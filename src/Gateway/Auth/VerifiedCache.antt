-- ===== src/Gateway/Auth/VerifiedCache.antt =====
-- packages/gateway/src/auth/verified-cache.ts: the cache of recently verified keys. `digest` stands
-- for the SHA-256 of a secret, as a text. Times are in milliseconds.
use adgate.Prelude.{
  ℕ, ◌+◌, String, not, Option, none, some, List, [], ◌∷◌, ◌++◌, if◌then◌else◌, ◌==◌, string_eq,
  codes_eq, leb, length, find, remove, put_last, evict, keep_entries,
}

pub data ApiKeyRole : Type 0 where
  app advertiser_read : ApiKeyRole

pub record AuthContext : Type 0 where
  pub key_id : String
  pub app_id : String
  pub role : ApiKeyRole
  pub advertiser_id : Option String

pub record VerifiedEntry : Type 0 where
  pub auth : AuthContext
  pub expires_at : ℕ

pub record VerifiedKeyCache : Type 0 where
  pub ttl_ms : ℕ
  pub max_entries : ℕ
  pub entries : List (List ℕ × VerifiedEntry)

-- `RangeError` is `none`.
unfoldable pub create_verified_key_cache : ℕ → ℕ → Option VerifiedKeyCache
create_verified_key_cache ttl_ms max_entries =
    if leb 1 ttl_ms
    then (if leb 1 max_entries
        then some (record { ttl_ms = ttl_ms; max_entries = max_entries; entries = [] })
        else none)
    else none

module _ (digest : List ℕ → List ℕ) where
  abbrev pub entry_key : List ℕ → List ℕ → List ℕ
  entry_key key_prefix secret = key_prefix ++ 10 ∷ digest secret

  abbrev pub got_entry :
      VerifiedKeyCache → List ℕ → ℕ → Option VerifiedEntry → VerifiedKeyCache × Option AuthContext
  got_entry cache key now none = (cache, none)
  got_entry cache key now (some entry) =
      if leb entry.expires_at now
      then (record cache { entries = remove key cache.entries }, none)
      else (cache, some entry.auth)

  unfoldable pub get_verified :
      VerifiedKeyCache → List ℕ → List ℕ → ℕ → VerifiedKeyCache × Option AuthContext
  get_verified cache key_prefix secret now =
      let key = entry_key key_prefix secret in got_entry cache key now (find key cache.entries)

  unfoldable pub set_verified :
      VerifiedKeyCache → List ℕ → List ℕ → AuthContext → ℕ → VerifiedKeyCache
  set_verified cache key_prefix secret auth now =
      let entry : VerifiedEntry = record { auth = auth; expires_at = now + cache.ttl_ms } in
      record cache {
        entries =
            evict cache.max_entries (put_last (entry_key key_prefix secret) entry cache.entries);
      }

unfoldable pub invalidate : VerifiedKeyCache → String → VerifiedKeyCache
invalidate cache key_id = record cache {
  entries = keep_entries (λ entry. not (entry.auth.key_id == key_id)) cache.entries;
}

unfoldable pub clear_verified : VerifiedKeyCache → VerifiedKeyCache
clear_verified cache = record cache { entries = [] }

unfoldable pub verified_size : VerifiedKeyCache → ℕ
verified_size cache = length cache.entries

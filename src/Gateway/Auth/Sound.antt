-- ===== src/Gateway/Auth/Sound.antt =====
-- What a request that is let through has shown.
use adgate.Prelude.{
  ℕ, ◌<◌, String, ◌≡◌, refl, subst, ◌⊎◌, inl, inr, Bool, true, false, ◌&&◌, not, Option, none, some,
  List, [], if◌then◌else◌, arith, leb, string_eq, codes_eq, find, is_none, any, Bool-cases,
}
use adgate.Classify.Run.Types.{Attempt, done, threw}
use adgate.Gateway.Auth.Keys.{ParsedApiKey, parse_bearer_header}
use adgate.Gateway.Auth.VerifiedCache.{
  ApiKeyRole, AuthContext, VerifiedEntry, VerifiedKeyCache, entry_key, got_entry, get_verified,
  invalidate,
}
use adgate.Gateway.Auth.{
  ApiKeyRow, AppRow, ApiKeyStore, Hashing, unknown_key, bad_secret, revoked, no_app, store_error,
  AuthResult, authenticated, refused, context_of, is_cached, secret_ok, with_app, with_secret,
  with_row, authenticate, same_role, passed, admit, bearer_from, bearer_auth,
}
use adgate.Gateway.Auth.Laws.{AuthStep, after_steps, Verified, Backed, after_steps-Backed}

module _ (hashing : Hashing) where
  with_app-authenticated :
      (cache : VerifiedKeyCache) (parsed : ParsedApiKey) (now : ℕ) (row r : ApiKeyRow) (a : AppRow)
      (was_cached : Bool) (o : Attempt (Option AppRow))
      → (with_app hashing cache parsed now row was_cached o).1 ≡ authenticated r a
      → (row ≡ r) × (o ≡ done (some a))
  with_app-authenticated cache parsed now row r a was_cached (threw name) h = cc
  with_app-authenticated cache parsed now row r a was_cached (done none) h = cc
  with_app-authenticated cache parsed now row r a true (done (some found)) h = (cc, cc)
  with_app-authenticated cache parsed now row r a false (done (some found)) h = (cc, cc)

  -- What holds of a request with this row and this answer of the cache.
  abbrev Admitted : ApiKeyStore → ParsedApiKey → Bool → ApiKeyRow → AppRow → Type 0
  Admitted store parsed was_cached row a =
      (row.revoked_at ≡ none)
      × (store.find_app row.app_id ≡ done (some a))
      × ((was_cached ≡ true) ⊎ (secret_ok hashing row parsed ≡ true))

  with_secret-authenticated :
      (store : ApiKeyStore) (cache : VerifiedKeyCache) (parsed : ParsedApiKey) (now : ℕ)
      (row r : ApiKeyRow) (a : AppRow) (was_cached : Bool)
      → (with_secret hashing store cache parsed now row was_cached).1 ≡ authenticated r a
      → (row ≡ r) × Admitted store parsed was_cached row a
  with_secret-authenticated store cache parsed now row r a was_cached h =
      by_tests (not was_cached && not (secret_ok hashing row parsed)) row.revoked_at refl refl h
    where
      by_tests :
          (bad : Bool) (revoked_at : Option ℕ)
          → (not was_cached && not (secret_ok hashing row parsed)) ≡ bad
          → row.revoked_at ≡ revoked_at
          → (if bad
              then (cache, refused bad_secret)
              else if not (is_none revoked_at)
              then (invalidate cache row.id, refused revoked)
              else with_app hashing cache parsed now row was_cached (store.find_app row.app_id)).1
            ≡ authenticated r a
          → (row ≡ r) × Admitted store parsed was_cached row a
      by_tests true o e f k = cc
      by_tests false (some t) e f k = cc
      by_tests false none e f k =
          let (same, app_found) =
            with_app-authenticated cache parsed now row r a was_cached (store.find_app row.app_id)
              k in
          (same, (f, app_found, tests was_cached (secret_ok hashing row parsed) e))
        where
          tests : (x y : Bool) → (not x && not y) ≡ false → (x ≡ true) ⊎ (y ≡ true)
          tests true y z = inl refl
          tests false true z = inr refl
          tests false false z = cc

  hit_sound :
      (cache : VerifiedKeyCache) (key : List ℕ) (now : ℕ) (o : Option VerifiedEntry) (id : String)
      → is_cached ((got_entry hashing.digest cache key now o).1) id ≡ true
      → (entry : VerifiedEntry) × (o ≡ some entry)
        × (now < entry.expires_at)
        × (entry.auth.key_id ≡ id)
  hit_sound cache key now none id h = cc
  hit_sound cache key now (some entry) id h = elim (Bool-cases (leb entry.expires_at now)) [
    | inl old ↦ absurd (cc (rw old at h))
    | inr new ↦
        (entry, refl, ground arith, (string_eq.test_iff entry.auth.key_id id).0 (rw new at h))
  ]

  -- What an authenticated request shows, beside the steps before it.
  pub record Shown (ttl : ℕ) (steps : List AuthStep) (store : ApiKeyStore) (parsed : ParsedApiKey)
      (now : ℕ) (row : ApiKeyRow) (a : AppRow) : Type 0 where
    pub found : store.find_by_prefix parsed.key_prefix ≡ done (some row)
    pub valid : row.revoked_at ≡ none
    pub app_found : store.find_app row.app_id ≡ done (some a)
    pub secret :
        (secret_ok hashing row parsed ≡ true)
        ⊎ Verified hashing ttl steps
            (entry_key hashing.digest parsed.key_prefix parsed.secret)
            row.id
            now

  with_row-Shown :
      (ttl : ℕ) (steps : List AuthStep) (store : ApiKeyStore) (cache : VerifiedKeyCache)
      (parsed : ParsedApiKey) (now : ℕ) (row : ApiKeyRow) (a : AppRow)
      (o : Attempt (Option ApiKeyRow))
      → Backed hashing ttl steps cache
      → store.find_by_prefix parsed.key_prefix ≡ o
      → (with_row hashing store cache parsed now o).1 ≡ authenticated row a
      → Shown ttl steps store parsed now row a
  unfolding get_verified
  with_row-Shown ttl steps store cache parsed now row a (threw name) b e h = cc
  with_row-Shown ttl steps store cache parsed now row a (done none) b e h = cc
  with_row-Shown ttl steps store cache parsed now row a (done (some r)) b e h =
      let key = entry_key hashing.digest parsed.key_prefix parsed.secret in
      let looked = got_entry hashing.digest cache key now (find key cache.entries) in
      let (same, (valid, app_found, shown)) =
        with_secret-authenticated store (looked.0) parsed now r row a (is_cached (looked.1) r.id)
          h in
      subst (λ x. Shown ttl steps store parsed now x a) same
        (record {
          found = e;
          valid = valid;
          app_found = app_found;
          secret = elim shown [
            | inr fresh ↦ inl fresh
            | inl hit ↦
                let (entry, there, live, id) =
                  hit_sound cache key now (find key cache.entries) r.id hit in
                inr (
                  subst (λ i. Verified hashing ttl steps key i now) id
                    (b.backed key entry now there live))
          ];
        })

  admit-passed :
      (roles : List ApiKeyRole) (result : AuthResult) (c : AuthContext) (a : AppRow)
      → admit roles result ≡ passed c a
      → (row : ApiKeyRow) × (result ≡ authenticated row a)
        × (c ≡ context_of row)
        × (any (same_role row.role) roles ≡ true)
  admit-passed roles (refused unknown_key) c a h = cc
  admit-passed roles (refused bad_secret) c a h = cc
  admit-passed roles (refused revoked) c a h = cc
  admit-passed roles (refused no_app) c a h = cc
  admit-passed roles (refused store_error) c a h = cc
  admit-passed roles (authenticated row found) c a h =
      elim (Bool-cases (any (same_role row.role) roles)) [
        | inl listed ↦
            let k : passed (context_of row) found ≡ passed c a = rw listed at h in
            (row, cc, cc, listed)
        | inr other ↦ absurd (cc (rw other at h))
      ]

-- After any requests and revocations from an empty cache, a request that is let through to a route
-- names a row of the table that is not revoked, whose app exists and whose role the route takes.
-- Its secret is verified against the hash of the row now, or the same prefix and digest were
-- verified for the same key id less than the lifetime of the cache ago, with no revocation of that
-- id since.
pub bearer_auth-Shown :
    (hashing : Hashing) (roles : List ApiKeyRole) (cache : VerifiedKeyCache) (steps : List AuthStep)
    (store : ApiKeyStore) (header : Option (List ℕ)) (now : ℕ) (c : AuthContext) (a : AppRow)
    → cache.entries ≡ []
    → (bearer_auth hashing roles store (after_steps hashing cache steps) header now).1 ≡ passed c a
    → (parsed : ParsedApiKey) × (row : ApiKeyRow) × (parse_bearer_header header ≡ some parsed)
      × (c ≡ context_of row)
      × (any (same_role row.role) roles ≡ true)
      × Shown hashing cache.ttl_ms steps store parsed now row a
unfolding bearer_auth authenticate
bearer_auth-Shown hashing roles cache steps store header now c a e h =
    by_header (parse_bearer_header header) refl h
  where
    after : VerifiedKeyCache
    after = after_steps hashing cache steps

    by_header :
        (o : Option ParsedApiKey)
        → parse_bearer_header header ≡ o
        → (bearer_from hashing roles store after now o).1 ≡ passed c a
        → (parsed : ParsedApiKey) × (row : ApiKeyRow) × (parse_bearer_header header ≡ some parsed)
          × (c ≡ context_of row)
          × (any (same_role row.role) roles ≡ true)
          × Shown hashing cache.ttl_ms steps store parsed now row a
    by_header none f k = cc
    by_header (some parsed) f k =
        let (row, same, context, listed) =
          admit-passed hashing roles (authenticate hashing store after parsed now).1 c a k in
        (
          parsed,
          row,
          f,
          context,
          listed,
          with_row-Shown hashing cache.ttl_ms steps store after parsed now row a
              (store.find_by_prefix parsed.key_prefix) (after_steps-Backed hashing cache steps e)
              refl same,
        )

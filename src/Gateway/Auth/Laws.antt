-- ===== src/Gateway/Auth/Laws.antt =====
-- Requests and revocations in a row, and what an authenticated request rests on.
use adgate.Prelude.{
  ℕ, ◌+◌, ◌<◌, String, ◌≡◌, ◌≢◌, refl, sym, ap, ◌∙◌, subst, ◌⊎◌, inl, inr, Bool, true, false, ◌&&◌,
  not, Option, none, some, List, [], ◌∷◌, if◌then◌else◌, arith, Bool-cases, ◌==◌, leb, string_eq,
  codes_eq, find, put_last, distinct_keys, distinct-remove, distinct-put_last, distinct-evict,
  distinct-keep_entries, find-remove, find-put_last, find-evict_sound, find-keep_entries_sound,
  is_none,
}
use adgate.Classify.Run.Types.{Attempt, done, threw}
use adgate.Gateway.Auth.Keys.{ParsedApiKey}
use adgate.Gateway.Auth.VerifiedCache.{
  VerifiedEntry, VerifiedKeyCache, entry_key, got_entry, get_verified, set_verified, invalidate,
}
use adgate.Gateway.Auth.{
  ApiKeyRow, AppRow, ApiKeyStore, Hashing, AuthFailure, refused, context_of, is_cached, secret_ok,
  with_app, with_secret, with_row, authenticate,
}

-- A request with what the tables answer it, or a revocation in this process.
pub data AuthStep : Type 0 where
  presented : ApiKeyStore → ParsedApiKey → ℕ → AuthStep
  revocation : String → AuthStep

module _ (hashing : Hashing) where
  unfoldable pub after_steps : VerifiedKeyCache → List AuthStep → VerifiedKeyCache
  after_steps cache [] = cache
  after_steps cache (presented store parsed now ∷ earlier) =
      (authenticate hashing store (after_steps cache earlier) parsed now).0
  after_steps cache (revocation key_id ∷ earlier) = invalidate (after_steps cache earlier) key_id

  -- The secret was verified against the hash of a row with this id, which was not revoked.
  pub record Verifies (store : ApiKeyStore) (parsed : ParsedApiKey) (key : List ℕ) (id : String)
      : Type 0 where
    pub row : ApiKeyRow
    pub found : store.find_by_prefix parsed.key_prefix ≡ done (some row)
    pub same_id : row.id ≡ id
    pub same_key : entry_key hashing.digest parsed.key_prefix parsed.secret ≡ key
    pub valid : row.revoked_at ≡ none
    pub secret : secret_ok hashing row parsed ≡ true

  -- One of the steps, the latest first, verified the key less than `ttl` ago, and no revocation of
  -- the id has come after it.
  abbrev pub Verified : ℕ → List AuthStep → List ℕ → String → ℕ → Type 0
  Verified ttl [] key id now = ⊥
  Verified ttl (presented store parsed t ∷ earlier) key id now =
      (Verifies store parsed key id × (now < t + ttl)) ⊎ Verified ttl earlier key id now
  Verified ttl (revocation key_id ∷ earlier) key id now =
      (key_id ≢ id) × Verified ttl earlier key id now

  -- Each entry that has not expired is backed by a step.
  pub record Backed (ttl : ℕ) (steps : List AuthStep) (cache : VerifiedKeyCache) : Type 0 where
    pub same_ttl : cache.ttl_ms ≡ ttl
    pub distinct : distinct_keys cache.entries ≡ true
    pub backed :
        (key : List ℕ) (entry : VerifiedEntry) (now : ℕ)
        → find key cache.entries ≡ some entry
        → now < entry.expires_at
        → Verified ttl steps key entry.auth.key_id now

  later :
      (ttl : ℕ) (steps : List AuthStep) (cache : VerifiedKeyCache) (store : ApiKeyStore)
      (parsed : ParsedApiKey) (t : ℕ)
      → Backed ttl steps cache
      → Backed ttl (presented store parsed t ∷ steps) cache
  later ttl steps cache store parsed t b = record {
    same_ttl = b.same_ttl;
    distinct = b.distinct;
    backed = λ key entry now h live. inr (b.backed key entry now h live);
  }

  got_entry-Backed :
      (ttl : ℕ) (steps : List AuthStep) (cache : VerifiedKeyCache) (key : List ℕ) (now : ℕ)
      (o : Option VerifiedEntry)
      → Backed ttl steps cache
      → Backed ttl steps (got_entry hashing.digest cache key now o).0
  got_entry-Backed ttl steps cache key now none b = b
  got_entry-Backed ttl steps cache key now (some entry) b =
      elim (Bool-cases (leb entry.expires_at now)) [
        | inl old ↦ rw old (record {
          same_ttl = b.same_ttl;
          distinct = distinct-remove key cache.entries b.distinct;
          backed =
              λ k x t h live. b.backed k x t (ground (arith, find-remove k key cache.entries)) live;
        })
        | inr new ↦ rw new b
      ]

  invalidate-Backed :
      (ttl : ℕ) (steps : List AuthStep) (cache : VerifiedKeyCache) (key_id : String)
      → Backed ttl steps cache
      → Backed ttl (revocation key_id ∷ steps) (invalidate cache key_id)
  unfolding invalidate
  invalidate-Backed ttl steps cache key_id b = record {
    same_ttl = b.same_ttl;
    distinct = distinct-keep_entries (λ x. not (x.auth.key_id == key_id)) cache.entries b.distinct;
    backed = λ k x t h live.
        let (there, other) =
          find-keep_entries_sound (λ y. not (y.auth.key_id == key_id)) k cache.entries x b.distinct
            h in
        (
          (λ same.
              absurd
                (cc (sym other ∙ ap not ((string_eq.test_iff x.auth.key_id key_id).1 (sym same))))),
          b.backed k x t there live,
        );
  }

  invalidate_keeps :
      (ttl : ℕ) (steps : List AuthStep) (cache : VerifiedKeyCache) (key_id : String)
      → Backed ttl steps cache
      → Backed ttl steps (invalidate cache key_id)
  unfolding invalidate
  invalidate_keeps ttl steps cache key_id b =
      let rest = invalidate-Backed ttl steps cache key_id b in
      record {
        same_ttl = b.same_ttl;
        distinct = rest.distinct;
        backed = λ k x t h live. (rest.backed k x t h live).1;
      }

  set_verified-Backed :
      (ttl : ℕ) (steps : List AuthStep) (cache : VerifiedKeyCache) (store : ApiKeyStore)
      (parsed : ParsedApiKey) (now : ℕ) (row : ApiKeyRow)
      → Backed ttl steps cache
      → Verifies store parsed (entry_key hashing.digest parsed.key_prefix parsed.secret) row.id
      → Backed ttl
          (presented store parsed now ∷ steps)
          (set_verified hashing.digest cache parsed.key_prefix parsed.secret (context_of row) now)
  unfolding set_verified context_of
  set_verified-Backed ttl steps cache store parsed now row b v =
      let key = entry_key hashing.digest parsed.key_prefix parsed.secret in
      let entry : VerifiedEntry = record {
        auth = context_of row;
        expires_at = now + cache.ttl_ms;
      } in
      let table = put_last key entry cache.entries in
      let d = distinct-put_last key entry cache.entries b.distinct in
      record {
        same_ttl = b.same_ttl;
        distinct = distinct-evict cache.max_entries table d;
        backed = λ k x t h live.
            let before = find-evict_sound k cache.max_entries table x d h in
            let put = sym (find-put_last k key entry cache.entries) ∙ before in
            elim (Bool-cases (key == k)) [
              | inl same ↦
                  let e = (codes_eq.test_iff key k).0 same in
                  let new : entry ≡ x = ground arith in
                  subst (λ y. Verified ttl (presented store parsed now ∷ steps) k y.auth.key_id t)
                    new
                    (inl (
                      subst (λ j. Verifies store parsed j row.id) e v,
                      omega (arith, live, b.same_ttl, ap (λ y. y.expires_at) new),
                    ))
              | inr other ↦ inr (b.backed k x t (ground arith) live)
            ];
      }

  with_app-Backed :
      (ttl : ℕ) (steps : List AuthStep) (cache : VerifiedKeyCache) (store : ApiKeyStore)
      (parsed : ParsedApiKey) (now : ℕ) (row : ApiKeyRow) (was_cached : Bool)
      (o : Attempt (Option AppRow))
      → Backed ttl steps cache
      → (was_cached ≡ false
          → Verifies store parsed (entry_key hashing.digest parsed.key_prefix parsed.secret) row.id)
      → Backed ttl
          (presented store parsed now ∷ steps)
          (with_app hashing cache parsed now row was_cached o).0
  with_app-Backed ttl steps cache store parsed now row was_cached (threw name) b v =
      later ttl steps cache store parsed now b
  with_app-Backed ttl steps cache store parsed now row was_cached (done none) b v =
      later ttl steps cache store parsed now b
  with_app-Backed ttl steps cache store parsed now row true (done (some found)) b v =
      later ttl steps cache store parsed now b
  with_app-Backed ttl steps cache store parsed now row false (done (some found)) b v =
      set_verified-Backed ttl steps cache store parsed now row b (v refl)

  with_secret-Backed :
      (ttl : ℕ) (steps : List AuthStep) (cache : VerifiedKeyCache) (store : ApiKeyStore)
      (parsed : ParsedApiKey) (now : ℕ) (row : ApiKeyRow) (was_cached : Bool)
      → store.find_by_prefix parsed.key_prefix ≡ done (some row)
      → Backed ttl steps cache
      → Backed ttl
          (presented store parsed now ∷ steps)
          (with_secret hashing store cache parsed now row was_cached).0
  with_secret-Backed ttl steps cache store parsed now row was_cached found b =
      by_tests (not was_cached && not (secret_ok hashing row parsed)) row.revoked_at refl refl
    where
      by_tests :
          (bad : Bool) (revoked_at : Option ℕ)
          → (not was_cached && not (secret_ok hashing row parsed)) ≡ bad
          → row.revoked_at ≡ revoked_at
          → Backed ttl
              (presented store parsed now ∷ steps)
              (if bad
                then (cache, refused AuthFailure.bad_secret)
                else if not (is_none revoked_at)
                then (invalidate cache row.id, refused AuthFailure.revoked)
                else with_app hashing cache parsed now row was_cached (store.find_app row.app_id)).0
      by_tests true r e f = later ttl steps cache store parsed now b
      by_tests false (some t) e f =
          later ttl steps (invalidate cache row.id) store parsed now
            (invalidate_keeps ttl steps cache row.id b)
      by_tests false none e f =
          with_app-Backed ttl steps cache store parsed now row was_cached
            (store.find_app row.app_id) b
            (λ fresh. record {
              row = row;
              found = found;
              same_id = refl;
              same_key = refl;
              valid = f;
              secret = ground arith;
            })

  with_row-Backed :
      (ttl : ℕ) (steps : List AuthStep) (cache : VerifiedKeyCache) (store : ApiKeyStore)
      (parsed : ParsedApiKey) (now : ℕ) (o : Attempt (Option ApiKeyRow))
      → store.find_by_prefix parsed.key_prefix ≡ o
      → Backed ttl steps cache
      → Backed ttl
          (presented store parsed now ∷ steps)
          (with_row hashing store cache parsed now o).0
  unfolding get_verified
  with_row-Backed ttl steps cache store parsed now (threw name) e b =
      later ttl steps cache store parsed now b
  with_row-Backed ttl steps cache store parsed now (done none) e b =
      later ttl steps cache store parsed now b
  with_row-Backed ttl steps cache store parsed now (done (some row)) e b =
      let key = entry_key hashing.digest parsed.key_prefix parsed.secret in
      let looked = got_entry hashing.digest cache key now (find key cache.entries) in
      with_secret-Backed ttl steps (looked.0) store parsed now row (is_cached (looked.1) row.id) e
        (got_entry-Backed ttl steps cache key now (find key cache.entries) b)

  pub after_steps-Backed :
      (cache : VerifiedKeyCache) (steps : List AuthStep)
      → cache.entries ≡ []
      → Backed cache.ttl_ms steps (after_steps cache steps)
  unfolding after_steps authenticate
  after_steps-Backed cache [] e = record {
    same_ttl = refl;
    distinct = ap distinct_keys e;
    backed = λ key entry now h live. cc (sym h ∙ ap (find key) e);
  }
  after_steps-Backed cache (presented store parsed now ∷ earlier) e =
      with_row-Backed cache.ttl_ms earlier (after_steps cache earlier) store parsed now
        (store.find_by_prefix parsed.key_prefix) refl (after_steps-Backed cache earlier e)
  after_steps-Backed cache (revocation key_id ∷ earlier) e =
      invalidate-Backed cache.ttl_ms earlier (after_steps cache earlier) key_id
        (after_steps-Backed cache earlier e)

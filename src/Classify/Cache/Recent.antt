-- ===== src/Classify/Cache/Recent.antt =====
-- The entries that were used last are the ones that the cache keeps.
use adgate.Prelude.{
  ℕ, suc, ◌+◌, ◌≤◌, ◌<◌, String, ◌≡◌, ◌≢◌, refl, sym, ap, ◌∙◌, false, Option, none, some, List, [],
  ◌∷◌, arith, subst, length, behind, find, remove, put_last, or_else, Bool-cases, inl, inr,
  find-remove, some_inj, find-remove_self, beq_self, ◌++◌, find-remove_other, find-put_last,
  find-evict, behind-remove_other, behind-append, ◌==◌, string_eq,
}
use adgate.Schema.{Classification}
use adgate.Classify.Cache.{
  Number, pos, Expiry, Entry, LruCache, is_expired, deadline, got, get, stored, set, delete,
}
use adgate.Classify.Cache.History.{
  Operation, get_call, set_call, delete_call, clear_call, step, run, step-options,
}

-- The calls read any keys and store under other keys than `key`; the entry of `key` is read before
-- it expires.
abbrev pub Spares : String → Expiry → List Operation → Type 0
Spares key e [] = Unit
Spares key e (get_call other now ∷ calls) =
    (other ≡ key → is_expired e now ≡ false) × Spares key e calls
Spares key e (set_call other value ttl now ∷ calls) = (other ≢ key) × Spares key e calls
Spares key e (delete_call other ∷ calls) = (other ≢ key) × Spares key e calls
Spares key e (clear_call ∷ calls) = ⊥

-- The entry is there, with at most `n` after it.
abbrev Kept : String → Entry → ℕ → LruCache → Type 0
Kept key entry n cache = (find key cache.entries ≡ some entry) × (behind key cache.entries ≤ n)

behind-append_new :
    {V : Type 0} (key : String) (v : V) (t : List (String × V))
    → find key t ≡ none
    → behind key (t ++ (key, v) ∷ []) ≡ 0
behind-append_new key v [] h = ground (arith, beq_self key)
behind-append_new key v ((k, w) ∷ t) h = ground (arith, behind-append_new key v t)

behind-put_self :
    {V : Type 0} (key : String) (v : V) (t : List (String × V)) → behind key (put_last key v t) ≡ 0
behind-put_self key v t = behind-append_new key v (remove key t) (find-remove_self key t)

behind-put_last :
    {V : Type 0} (key other : String) (v w : V) (t : List (String × V))
    → find key t ≡ some w
    → behind key (put_last other v t) ≤ suc (behind key t)
behind-put_last key other v w t h = elim (Bool-cases (other == key)) [
  | inl same ↦
      let e = (string_eq.test_iff other key).0 same in
      let last = ap (λ k. behind key (put_last k v t)) e ∙ behind-put_self key v t in
      omega (arith, last)
  | inr differ ↦ ground (
    arith,
    behind-append key (remove other t) other v w,
    find-remove key other t,
    behind-remove_other key other t,
    string_eq.test_iff other key,
  )
]

got-Kept :
    (key other : String) (entry : Entry) (n now : ℕ) (cache : LruCache) (o : Option Entry)
    → find other cache.entries ≡ o
    → (other ≡ key → is_expired entry.expires_at now ≡ false)
    → Kept key entry n cache
    → Kept key entry (suc n) (got cache other now o).0
got-Kept key other entry n now cache none e live (found, close) = (found, omega (arith, close))
got-Kept key other entry n now cache (some x) e live (found, close) =
    elim (Bool-cases (is_expired x.expires_at now)) [
      | inl expired ↦
          let differ : other ≢ key = λ same. cc (
            sym (live same)
            ∙ ap (λ y. is_expired y.expires_at now)
                (some_inj (sym found ∙ ap (λ k. find k cache.entries) (sym same) ∙ e))
            ∙ expired) in
          rw expired (
            find-remove_other key other cache.entries differ ∙ found,
            omega (arith, close, behind-remove_other key other cache.entries differ),
          )
      | inr kept ↦ rw kept (
        ground (
          arith,
          find-put_last key other x cache.entries,
          string_eq.test_iff other key,
          ap (λ k. find k cache.entries),
        ),
        omega (arith, close, behind-put_last key other x entry cache.entries found),
      )
    ]

stored-Kept :
    (key other : String) (value : Classification) (entry : Entry) (n : ℕ) (cache : LruCache)
    (o : Option Expiry)
    → other ≢ key
    → suc n < cache.max_entries
    → Kept key entry n cache
    → Kept key entry (suc n) (stored cache other value o)
stored-Kept key other value entry n cache none differ room (found, close) = (
  find-remove_other key other cache.entries differ ∙ found,
  omega (arith, close, behind-remove_other key other cache.entries differ),
)
stored-Kept key other value entry n cache (some e) differ room (found, close) =
    let x : Entry = record { value = value; expires_at = e } in
    let near = behind-put_last key other x entry cache.entries found in
    let there : find key (put_last other x cache.entries) ≡ some entry =
      ground (arith, find-put_last key other x cache.entries, string_eq.test_iff other key) in
    let (still, same) =
      find-evict key cache.max_entries (put_last other x cache.entries) entry there (omega arith) in
    (still, omega arith)

-- What `Spares` says of one call.
abbrev SparedBy : String → Expiry → Operation → Type 0
SparedBy key e call = Spares key e (call ∷ [])

both_spared :
    (key : String) (e : Expiry) (call : Operation) (calls : List Operation)
    → Spares key e (call ∷ calls)
    → SparedBy key e call × Spares key e calls
both_spared key e (get_call other now) calls (h, s) = ((h, tt), s)
both_spared key e (set_call other value ttl now) calls (h, s) = ((h, tt), s)
both_spared key e (delete_call other) calls (h, s) = ((h, tt), s)
both_spared key e clear_call calls s = absurd s

step-Kept :
    (key : String) (entry : Entry) (n : ℕ) (cache : LruCache) (call : Operation)
    → SparedBy key entry.expires_at call
    → suc n < cache.max_entries
    → Kept key entry n cache
    → Kept key entry (suc n) (step cache call)
unfolding step get set delete
step-Kept key entry n cache (get_call other now) (live, s) room k =
    got-Kept key other entry n now cache (find other cache.entries) refl live k
step-Kept key entry n cache (set_call other value ttl now) (differ, s) room k =
    stored-Kept key other value entry n cache (deadline now (or_else ttl (pos cache.ttl_ms))) differ
      room k
step-Kept key entry n cache (delete_call other) (differ, s) room (found, close) = (
  find-remove_other key other cache.entries differ ∙ found,
  omega (arith, close, behind-remove_other key other cache.entries differ),
)
step-Kept key entry n cache clear_call s room k = absurd s

run-Kept :
    (key : String) (entry : Entry) (n : ℕ) (cache : LruCache) (calls : List Operation)
    → Spares key entry.expires_at calls
    → n + length calls < cache.max_entries
    → Kept key entry n cache
    → find key (run cache calls).entries ≡ some entry
unfolding run
run-Kept key entry n cache [] s room k = k.0
run-Kept key entry n cache (call ∷ calls) s room k =
    let (one, rest) = both_spared key entry.expires_at call calls s in
    let max = (step-options cache call).1 in
    run-Kept key entry (suc n) (step cache call) calls rest (omega (arith, room, max))
      (step-Kept key entry n cache call one (omega (arith, room)) k)

stored_new-Kept :
    (key : String) (entry : Entry) (cache : LruCache)
    → 1 ≤ cache.max_entries
    → Kept key entry 0 (stored cache key entry.value (some entry.expires_at))
stored_new-Kept key entry cache room =
    let last = behind-put_self key entry cache.entries in
    let there : find key (put_last key entry cache.entries) ≡ some entry =
      ground (arith, find-put_last key key entry cache.entries, beq_self key) in
    let (still, same) =
      find-evict key cache.max_entries (put_last key entry cache.entries) entry there
        (omega (arith, last)) in
    (still, omega (arith, same, last))

got_live :
    (cache : LruCache) (key : String) (now : ℕ) (entry : Entry) (o : Option Entry)
    → o ≡ some entry
    → is_expired entry.expires_at now ≡ false
    → (got cache key now o).1 ≡ some entry.value
got_live cache key now entry none e live = cc
got_live cache key now entry (some x) e live =
    let same = some_inj e in
    subst (λ y. (got cache key now (some y)).1 ≡ some entry.value) (sym same) (rw live refl)

-- A value that is stored with a positive lifetime is answered until it expires, whatever other
-- calls come between, fewer than the cache has places: reads of any keys and stores and deletions
-- under other keys.
pub set-get :
    (cache : LruCache) (key : String) (value : Classification) (ttl : Option Number) (start now : ℕ)
    (e : Expiry) (calls : List Operation)
    → deadline start (or_else ttl (pos cache.ttl_ms)) ≡ some e
    → Spares key e calls
    → length calls < cache.max_entries
    → is_expired e now ≡ false
    → (get (run (set cache key value ttl start) calls) key now).1 ≡ some value
unfolding set get
set-get cache key value ttl start now e calls due s room live =
    let entry : Entry = record { value = value; expires_at = e } in
    let first = stored cache key value (some e) in
    let kept = stored_new-Kept key entry cache (omega (arith, room)) in
    subst (λ o. (get (run (stored cache key value o) calls) key now).1 ≡ some value) (sym due)
      (got_live (run first calls) key now entry (find key (run first calls).entries)
        (run-Kept key entry 0 first calls s (omega (arith, room)) kept) live)

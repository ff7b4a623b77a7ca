-- ===== src/Classify/Cache/History.antt =====
-- Runs of calls on a cache, beside a memory that forgets nothing.
use adgate.Prelude.{
  ℕ, ◌≤◌, String, ◌≡◌, refl, sym, ap, ◌∙◌, false, Option, none, some, List, [], ◌∷◌, if◌then◌else◌,
  arith, subst, find, put_last, or_else, Bool-cases, inl, inr, find-remove, find-put_last,
  find-evict_sound, distinct-put_last, ◌==◌, string_eq,
}
use adgate.Schema.{Classification}
use adgate.Classify.Cache.{
  created, create_lru_cache, size, Number, pos, Expiry, Entry, LruCache, is_expired, deadline, got,
  get, stored, set, delete, clear,
}
use adgate.Classify.Cache.Laws.{
  IsValid, create-IsValid, get-IsValid, set-IsValid, delete-IsValid, clear-IsValid,
}

-- A call, with the time that the clock shows.
pub data Operation : Type 0 where
  get_call : String → ℕ → Operation
  set_call : String → Classification → Option Number → ℕ → Operation
  delete_call : String → Operation
  clear_call : Operation

unfoldable pub step : LruCache → Operation → LruCache
step cache (get_call key now) = (get cache key now).0
step cache (set_call key value ttl now) = set cache key value ttl now
step cache (delete_call key) = (delete cache key).0
step cache clear_call = clear cache

unfoldable pub run : LruCache → List Operation → LruCache
unfolding step
run cache [] = cache
run cache (call ∷ calls) = run (step cache call) calls

abbrev put : String → Option Entry → (String → Option Entry) → String → Option Entry
put key value memory other = if key == other then value else memory other

abbrev entry_from : Classification → Option Expiry → Option Entry
entry_from value none = none
entry_from value (some e) = some (record { value = value; expires_at = e })

-- What was stored last under each key and not taken back since, whether or not it has expired.
abbrev pub remember : ℕ → (String → Option Entry) → Operation → String → Option Entry
remember ttl memory (get_call key now) other = memory other
remember ttl memory (set_call key value lifetime now) other =
    put key (entry_from value (deadline now (or_else lifetime (pos ttl)))) memory other
remember ttl memory (delete_call key) other = put key none memory other
remember ttl memory clear_call other = none

abbrev pub remembered : ℕ → (String → Option Entry) → List Operation → String → Option Entry
remembered ttl memory [] = memory
remembered ttl memory (call ∷ calls) = remembered ttl (remember ttl memory call) calls

abbrev pub Holds : LruCache → (String → Option Entry) → Type 0
Holds cache memory =
    (key : String) (entry : Entry) → find key cache.entries ≡ some entry → memory key ≡ some entry

got-Holds :
    (cache : LruCache) (memory : String → Option Entry) (key : String) (now : ℕ) (o : Option Entry)
    → find key cache.entries ≡ o
    → Holds cache memory
    → Holds (got cache key now o).0 memory
got-Holds cache memory key now none e h = h
got-Holds cache memory key now (some entry) e h =
    elim (Bool-cases (is_expired entry.expires_at now)) [
      | inl expired ↦
          rw expired (λ k x found. h k x (ground (arith, find-remove k key cache.entries)))
      | inr live ↦ rw live (λ k x found.
          h k x (ground (arith, find-put_last k key entry cache.entries, string_eq.test_iff key k)))
    ]

stored-Holds :
    (cache : LruCache) (memory : String → Option Entry) (key : String) (value : Classification)
    (o : Option Expiry)
    → IsValid cache
    → Holds cache memory
    → Holds (stored cache key value o) (put key (entry_from value o) memory)
stored-Holds cache memory key value none v h k x found =
    ground (arith, find-remove k key cache.entries, h k x)
stored-Holds cache memory key value (some e) v h k x found =
    let entry : Entry = record { value = value; expires_at = e } in
    let table = put_last key entry cache.entries in
    let before : find k table ≡ some x =
      find-evict_sound k cache.max_entries table x
        (distinct-put_last key entry cache.entries v.distinct) found in
    ground (arith, find-put_last k key entry cache.entries, h k x)

step-Holds :
    (cache : LruCache) (memory : String → Option Entry) (call : Operation)
    → IsValid cache
    → Holds cache memory
    → Holds (step cache call) (remember cache.ttl_ms memory call)
unfolding step get set delete clear
step-Holds cache memory (get_call key now) v h =
    got-Holds cache memory key now (find key cache.entries) refl h
step-Holds cache memory (set_call key value ttl now) v h =
    stored-Holds cache memory key value (deadline now (or_else ttl (pos cache.ttl_ms))) v h
step-Holds cache memory (delete_call key) v h =
    λ k x found. ground (arith, find-remove k key cache.entries, h k x)
step-Holds cache memory clear_call v h = λ k x found. cc

step-IsValid : (cache : LruCache) (call : Operation) → IsValid cache → IsValid (step cache call)
unfolding step
step-IsValid cache (get_call key now) v = get-IsValid cache key now v
step-IsValid cache (set_call key value ttl now) v = set-IsValid cache key value ttl now v
step-IsValid cache (delete_call key) v = delete-IsValid cache key v
step-IsValid cache clear_call v = clear-IsValid cache v

pub step-options :
    (cache : LruCache) (call : Operation)
    → ((step cache call).ttl_ms ≡ cache.ttl_ms)
      × ((step cache call).max_entries ≡ cache.max_entries)
unfolding step get set delete clear
step-options cache (get_call key now) =
    elim (find key cache.entries)
      as (λ o.
        ((got cache key now o).0.ttl_ms ≡ cache.ttl_ms)
        × ((got cache key now o).0.max_entries ≡ cache.max_entries)) [
          | none ↦ (refl, refl)
          | some entry ↦ ground arith
        ]
step-options cache (set_call key value ttl now) =
    elim (deadline now (or_else ttl (pos cache.ttl_ms)))
      as (λ o.
        ((stored cache key value o).ttl_ms ≡ cache.ttl_ms)
        × ((stored cache key value o).max_entries ≡ cache.max_entries)) [
          | none ↦ (refl, refl)
          | some e ↦ (refl, refl)
        ]
step-options cache (delete_call key) = (refl, refl)
step-options cache clear_call = (refl, refl)

pub run-IsValid :
    (cache : LruCache) (calls : List Operation) → IsValid cache → IsValid (run cache calls)
unfolding run
run-IsValid cache [] v = v
run-IsValid cache (call ∷ calls) v = run-IsValid (step cache call) calls (step-IsValid cache call v)

run-max_entries :
    (cache : LruCache) (calls : List Operation) → (run cache calls).max_entries ≡ cache.max_entries
unfolding run
run-max_entries cache [] = refl
run-max_entries cache (call ∷ calls) =
    run-max_entries (step cache call) calls ∙ (step-options cache call).1

run-Holds :
    (cache : LruCache) (memory : String → Option Entry) (calls : List Operation)
    → IsValid cache
    → Holds cache memory
    → Holds (run cache calls) (remembered cache.ttl_ms memory calls)
unfolding run
run-Holds cache memory [] v h = h
run-Holds cache memory (call ∷ calls) v h =
    let next = step cache call in
    subst (λ ttl. Holds (run next calls) (remembered ttl (remember cache.ttl_ms memory call) calls))
      ((step-options cache call).0)
      (run-Holds next (remember cache.ttl_ms memory call) calls (step-IsValid cache call v)
        (step-Holds cache memory call v h))

got_sound :
    (cache : LruCache) (key : String) (now : ℕ) (o : Option Entry) (value : Classification)
    → (got cache key now o).1 ≡ some value
    → (entry : Entry) × (o ≡ some entry)
      × (is_expired entry.expires_at now ≡ false)
      × (entry.value ≡ value)
got_sound cache key now none value h = cc
got_sound cache key now (some entry) value h = (entry, refl, ground arith, ground arith)

created-empty :
    (max ttl : Option Number) (cache : LruCache)
    → create_lru_cache max ttl ≡ created cache
    → cache.entries ≡ []
unfolding create_lru_cache
created-empty max ttl cache h = ground arith

-- After any calls on a new cache, the cache holds at most as many entries as its options say, and
-- what it answers for a key is the value that was stored last under that key, not deleted or cleared
-- since and not expired.
pub run-get :
    (max ttl : Option Number) (cache : LruCache) (calls : List Operation) (key : String) (now : ℕ)
    (value : Classification)
    → create_lru_cache max ttl ≡ created cache
    → (get (run cache calls) key now).1 ≡ some value
    → (size (run cache calls) ≤ cache.max_entries)
      × ((entry : Entry) × (remembered cache.ttl_ms (λ _. none) calls key ≡ some entry)
          × (is_expired entry.expires_at now ≡ false)
          × (entry.value ≡ value))
unfolding get size
run-get max ttl cache calls key now value e h =
    let v = create-IsValid max ttl cache e in
    let empty : Holds cache (λ _. none) =
      λ k x found. cc (sym found ∙ ap (find k) (created-empty max ttl cache e)) in
    let after = run cache calls in
    let (entry, found, live, same) = got_sound after key now (find key after.entries) value h in
    (
      omega (arith, (run-IsValid cache calls v).fits, run-max_entries cache calls),
      (entry, run-Holds cache (λ _. none) calls v empty key entry found, live, same),
    )

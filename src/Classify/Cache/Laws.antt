-- ===== src/Classify/Cache/Laws.antt =====
-- What single calls leave and answer.
use adgate.Prelude.{
  string_eq, ℕ, zero, suc, subst, ◌≤◌, String, ◌≡◌, refl, true, Option, none, some, List, [], ◌∷◌,
  length, length-append, length-remove, length-evict, distinct_keys, distinct-remove,
  distinct-put_last, distinct-evict, find, remove, put_last, arith, Bool-cases, inl, inr, or_else,
}
use adgate.Schema.{Classification}
use adgate.Classify.Cache.{
  Number, nan, infinity, pos, negsuc, Expiry, Entry, LruCache, created, create_lru_cache,
  create_with, default_cache_max_entries, default_cache_ttl_ms, positive, is_expired, deadline, got,
  get, stored, set, delete, clear,
}

-- The entries fit, and no key has two.
pub record IsValid (cache : LruCache) : Type 0 where
  pub positive_max : 1 ≤ cache.max_entries
  pub fits : length cache.entries ≤ cache.max_entries
  pub distinct : distinct_keys cache.entries ≡ true

-- An entry that is looked up is there.
find-length :
    {V : Type 0} (key : String) (t : List (String × V)) (v : V)
    → find key t ≡ some v
    → suc (length (remove key t)) ≤ length t
find-length key [] v h = cc
find-length key ((k, w) ∷ t) v h = ground (arith, find-length key t v, length-remove key t)

got-IsValid :
    (cache : LruCache) (key : String) (now : ℕ) (o : Option Entry)
    → find key cache.entries ≡ o
    → IsValid cache
    → IsValid (got cache key now o).0
got-IsValid cache key now none e v = v
got-IsValid cache key now (some entry) e v = elim (Bool-cases (is_expired entry.expires_at now)) [
  | inl expired ↦ rw expired (record {
    positive_max = v.positive_max;
    fits = omega (arith, v.fits, length-remove key cache.entries);
    distinct = distinct-remove key cache.entries v.distinct;
  })
  | inr live ↦ rw live (record {
    positive_max = v.positive_max;
    fits = omega (
      arith,
      v.fits,
      find-length key cache.entries entry e,
      length-append (remove key cache.entries) ((key, entry) ∷ []),
    );
    distinct = distinct-put_last key entry cache.entries v.distinct;
  })
]

pub get-IsValid :
    (cache : LruCache) (key : String) (now : ℕ) → IsValid cache → IsValid (get cache key now).0
unfolding get
get-IsValid cache key now v = got-IsValid cache key now (find key cache.entries) refl v

stored-IsValid :
    (cache : LruCache) (key : String) (value : Classification) (o : Option Expiry)
    → IsValid cache
    → IsValid (stored cache key value o)
stored-IsValid cache key value none v = record {
  positive_max = v.positive_max;
  fits = omega (arith, v.fits, length-remove key cache.entries);
  distinct = distinct-remove key cache.entries v.distinct;
}
stored-IsValid cache key value (some e) v =
    let entry : Entry = record { value = value; expires_at = e } in
    let added = put_last key entry cache.entries in
    record {
      positive_max = v.positive_max;
      fits = length-evict cache.max_entries added;
      distinct =
          distinct-evict cache.max_entries added
            (distinct-put_last key entry cache.entries v.distinct);
    }

pub set-IsValid :
    (cache : LruCache) (key : String) (value : Classification) (ttl : Option Number) (now : ℕ)
    → IsValid cache
    → IsValid (set cache key value ttl now)
unfolding set
set-IsValid cache key value ttl now v =
    stored-IsValid cache key value (deadline now (or_else ttl (pos cache.ttl_ms))) v

pub delete-IsValid :
    (cache : LruCache) (key : String) → IsValid cache → IsValid (delete cache key).0
unfolding delete
delete-IsValid cache key v = record {
  positive_max = v.positive_max;
  fits = omega (arith, v.fits, length-remove key cache.entries);
  distinct = distinct-remove key cache.entries v.distinct;
}

pub clear-IsValid : (cache : LruCache) → IsValid cache → IsValid (clear cache)
unfolding clear
clear-IsValid cache v = record {
  positive_max = v.positive_max;
  fits = omega arith;
  distinct = refl;
}

positive-le : (n : Number) (m : ℕ) → positive n ≡ some m → 1 ≤ m
positive-le nan m h = cc
positive-le infinity m h = cc
positive-le (pos zero) m h = cc
positive-le (pos (suc n)) m h = ground arith
positive-le (negsuc n) m h = cc

created_inj : (a b : LruCache) → created a ≡ created b → a ≡ b
created_inj a b h = cc

create_with-IsValid :
    (max ttl : Number) (m t : Option ℕ) (cache : LruCache)
    → positive max ≡ m
    → create_with max m ttl t ≡ created cache
    → IsValid cache
create_with-IsValid max ttl none t cache e h = cc
create_with-IsValid max ttl (some m) none cache e h = cc
create_with-IsValid max ttl (some m) (some t) cache e h =
    subst IsValid (created_inj _ _ h)
      (record { positive_max = positive-le max m e; fits = omega arith; distinct = refl })

pub create-IsValid :
    (max ttl : Option Number) (cache : LruCache)
    → create_lru_cache max ttl ≡ created cache
    → IsValid cache
unfolding create_lru_cache
create-IsValid max ttl cache h =
    let m = or_else max (pos default_cache_max_entries) in
    let t = or_else ttl (pos default_cache_ttl_ms) in
    create_with-IsValid m t (positive m) (positive t) cache refl h

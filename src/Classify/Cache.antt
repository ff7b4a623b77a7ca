-- ===== src/Classify/Cache.antt =====
-- packages/core/src/classify/cache.ts: the cache of classifications. Times are in milliseconds.
pub mod Laws
pub mod History
pub mod Recent
use adgate.Prelude.{
  string_eq, ℕ, zero, suc, ◌+◌, String, Bool, true, false, Option, none, some, List, [],
  if◌then◌else◌, leb, find, remove, put_last, evict, or_else, is_none, length, not,
}
use adgate.Schema.{Classification}

-- A number as far as the code tells one from another. A number of entries that is not whole stands
-- with `nan`, since both are refused alike.
pub data Number : Type 0 where
  nan infinity : Number
  pos negsuc : ℕ → Number

-- When an entry expires.
pub data Expiry : Type 0 where
  at : ℕ → Expiry
  never : Expiry

pub record Entry : Type 0 where
  pub value : Classification
  pub expires_at : Expiry

pub record LruCache : Type 0 where
  pub max_entries : ℕ
  pub ttl_ms : ℕ
  pub entries : List (String × Entry)

-- The two errors that `createLruCache` throws.
pub data CacheError : Type 0 where
  bad_max_entries bad_ttl : Number → CacheError

pub data Created : Type 0 where
  created : LruCache → Created
  refused : CacheError → Created

abbrev pub default_cache_max_entries : ℕ
default_cache_max_entries = 50000

abbrev pub default_cache_ttl_ms : ℕ
default_cache_ttl_ms = 600000

-- A positive finite number.
abbrev pub positive : Number → Option ℕ
positive nan = none
positive infinity = none
positive (pos zero) = none
positive (pos (suc n)) = some (suc n)
positive (negsuc n) = none

abbrev pub create_with : Number → Option ℕ → Number → Option ℕ → Created
create_with max none ttl t = refused (bad_max_entries max)
create_with max (some m) ttl none = refused (bad_ttl ttl)
create_with max (some m) ttl (some t) =
    created (record { max_entries = m; ttl_ms = t; entries = [] })

unfoldable pub create_lru_cache : Option Number → Option Number → Created
create_lru_cache max_entries ttl_ms =
    let max = or_else max_entries (pos default_cache_max_entries) in
    let ttl = or_else ttl_ms (pos default_cache_ttl_ms) in
    create_with max (positive max) ttl (positive ttl)

abbrev pub is_expired : Expiry → ℕ → Bool
is_expired (at t) now = leb t now
is_expired never now = false

-- `now() + lifetime` where the lifetime is positive.
abbrev pub deadline : ℕ → Number → Option Expiry
deadline now nan = none
deadline now infinity = some never
deadline now (pos zero) = none
deadline now (pos (suc n)) = some (at (now + suc n))
deadline now (negsuc n) = none

abbrev pub entry_of : Option Entry → Option Classification
entry_of none = none
entry_of (some entry) = some entry.value

-- What `get` leaves and answers once it has looked the key up.
abbrev pub got : LruCache → String → ℕ → Option Entry → LruCache × Option Classification
got cache key now none = (cache, none)
got cache key now (some entry) =
    if is_expired entry.expires_at now
    then (record cache { entries = remove key cache.entries }, none)
    else (record cache { entries = put_last key entry cache.entries }, some entry.value)

unfoldable pub get : LruCache → String → ℕ → LruCache × Option Classification
get cache key now = got cache key now (find key cache.entries)

abbrev pub stored : LruCache → String → Classification → Option Expiry → LruCache
stored cache key value none = record cache { entries = remove key cache.entries }
stored cache key value (some expires_at) = record cache {
  entries =
      evict cache.max_entries
        (put_last key (record { value = value; expires_at = expires_at }) cache.entries);
}

unfoldable pub set : LruCache → String → Classification → Option Number → ℕ → LruCache
set cache key value entry_ttl_ms now =
    stored cache key value (deadline now (or_else entry_ttl_ms (pos cache.ttl_ms)))

unfoldable pub delete : LruCache → String → LruCache × Bool
delete cache key =
    (record cache { entries = remove key cache.entries }, not (is_none (find key cache.entries)))

unfoldable pub clear : LruCache → LruCache
clear cache = record cache { entries = [] }

unfoldable pub size : LruCache → ℕ
size cache = length cache.entries

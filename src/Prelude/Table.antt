-- ===== src/Prelude/Table.antt =====
-- `Map`, whose entries are kept in the order of their insertion.
use Prim.Native.Nat.{ℕ, suc, ◌≤◌, ◌<◌}
use mathlib.Core.Path.{◌≡◌, refl, ap}
use mathlib.Core.Logic.{◌≢◌, inl, inr}
use mathlib.Core.Bool.{Bool, true, ◌&&◌}
use mathlib.Core.Option.{Option, none, some}
use mathlib.Core.List.{List, [], ◌∷◌, ◌++◌}
use native.Mathlib.Omega.{arith}
use adgate.Prelude.Tests.{if◌then◌else◌, ltb, is_none, Bool-cases, Option-cases}
use adgate.Prelude.Lists.{length, length-append}
use adgate.Prelude.Equality.{EqTest, ◌==◌}

module _ {κ ℓ} {K : Type κ} ⦃e : EqTest K⦄ {V : Type ℓ} where
  -- `Map.get`
  abbrev pub find : K → List (K × V) → Option V
  find key [] = none
  find key ((k, v) ∷ rest) = if k == key then some v else find key rest

  -- `Map.delete`
  abbrev pub remove : K → List (K × V) → List (K × V)
  remove key [] = []
  remove key ((k, v) ∷ rest) = if k == key then remove key rest else (k, v) ∷ remove key rest

  -- `Map.delete` and then `Map.set`
  abbrev pub put_last : K → V → List (K × V) → List (K × V)
  put_last key v entries = remove key entries ++ (key, v) ∷ []

  -- The oldest entries go while there are more than `max`.
  abbrev pub evict : ℕ → List (K × V) → List (K × V)
  evict max [] = []
  evict max (entry ∷ rest) =
      let tail = evict max rest in if ltb max (suc (length rest)) then tail else entry ∷ rest

  -- The entries that pass a test stay.
  abbrev pub keep_entries : (V → Bool) → List (K × V) → List (K × V)
  keep_entries p [] = []
  keep_entries p ((k, v) ∷ rest) = if p v then (k, v) ∷ keep_entries p rest else keep_entries p rest

  -- No key has two entries.
  abbrev pub distinct_keys : List (K × V) → Bool
  distinct_keys [] = true
  distinct_keys ((k, v) ∷ rest) = is_none (find k rest) && distinct_keys rest

  -- How many entries were inserted after the first one of the key.
  abbrev pub behind : K → List (K × V) → ℕ
  behind key [] = 0
  behind key ((k, v) ∷ rest) = if k == key then length rest else behind key rest

  pub length-remove : (key : K) (t : List (K × V)) → length (remove key t) ≤ length t
  length-remove key [] = omega arith
  length-remove key ((k, v) ∷ t) = ground (arith, length-remove key t)

  evict-fits : (max : ℕ) (t : List (K × V)) → length t ≤ max → evict max t ≡ t
  evict-fits max [] h = refl
  evict-fits max (entry ∷ t) h = ground (arith, evict-fits max t)

  module _ (key : K) where
    pub find-remove_self : (t : List (K × V)) → find key (remove key t) ≡ none
    find-remove_self [] = refl
    find-remove_self ((k, v) ∷ t) = ground (arith, find-remove_self t)

    pub find-remove_other :
        (other : K) (t : List (K × V)) → other ≢ key → find key (remove other t) ≡ find key t
    find-remove_other other [] h = refl
    find-remove_other other ((k, v) ∷ t) h =
        ground (arith, find-remove_other other t h, e.test_iff k other, e.test_iff k key)

    pub behind-remove_other :
        (other : K) (t : List (K × V)) → other ≢ key → behind key (remove other t) ≤ behind key t
    behind-remove_other other [] h = omega arith
    behind-remove_other other ((k, v) ∷ t) h = ground (
      arith,
      behind-remove_other other t h,
      length-remove other t,
      e.test_iff k other,
      e.test_iff k key,
    )

    pub find-append :
        (t : List (K × V)) (other : K) (v : V)
        → find key (t ++ (other, v) ∷ [])
          ≡ (elim (find key t) [ some w ↦ some w | none ↦ if other == key then some v else none ])
    find-append [] other v = refl
    find-append ((k, w) ∷ t) other v = ground (arith, find-append t other v)

    pub behind-append :
        (t : List (K × V)) (other : K) (v w : V)
        → find key t ≡ some w
        → behind key (t ++ (other, v) ∷ []) ≡ suc (behind key t)
    behind-append [] other v w h = cc
    behind-append ((k, x) ∷ t) other v w h =
        ground (arith, behind-append t other v w, length-append t ((other, v) ∷ []))

    -- An entry with fewer than `max` entries after it is not evicted.
    pub find-evict :
        (max : ℕ) (t : List (K × V)) (w : V)
        → find key t ≡ some w
        → behind key t < max
        → (find key (evict max t) ≡ some w) × (behind key (evict max t) ≡ behind key t)
    find-evict max [] w h k = cc
    find-evict max ((x, v) ∷ t) w h k = ground (arith, find-evict max t w)

    -- What an evicted table holds, it held.
    pub find-evict_sound :
        (max : ℕ) (t : List (K × V)) (w : V)
        → distinct_keys t ≡ true
        → find key (evict max t) ≡ some w
        → find key t ≡ some w
    find-evict_sound max [] w d h = h
    find-evict_sound max ((x, v) ∷ t) w d h =
        ground (arith, find-evict_sound max t w, e.test_iff x key)

  pub distinct-remove :
      (key : K) (t : List (K × V)) → distinct_keys t ≡ true → distinct_keys (remove key t) ≡ true
  distinct-remove key [] d = refl
  distinct-remove key ((k, v) ∷ t) d =
      ground (arith, distinct-remove key t, find-remove_other k key t, e.test_iff k key)

  pub distinct-append :
      (key : K) (v : V) (t : List (K × V))
      → find key t ≡ none
      → distinct_keys t ≡ true
      → distinct_keys (t ++ (key, v) ∷ []) ≡ true
  distinct-append key v [] n d = refl
  distinct-append key v ((k, w) ∷ t) n d =
      ground
        (arith, distinct-append key v t, find-append k t key v, e.test_iff k key, e.test_iff key k)

  pub distinct-put_last :
      (key : K) (v : V) (t : List (K × V))
      → distinct_keys t ≡ true
      → distinct_keys (put_last key v t) ≡ true
  distinct-put_last key v t d =
      distinct-append key v (remove key t) (find-remove_self key t) (distinct-remove key t d)

  pub distinct-evict :
      (max : ℕ) (t : List (K × V)) → distinct_keys t ≡ true → distinct_keys (evict max t) ≡ true
  distinct-evict max [] d = refl
  distinct-evict max ((k, v) ∷ t) d = ground (arith, distinct-evict max t, evict-fits max t)

  pub length-evict : (max : ℕ) (t : List (K × V)) → length (evict max t) ≤ max
  length-evict max [] = omega arith
  length-evict max ((k, v) ∷ t) = ground (arith, length-evict max t, evict-fits max t)

  pub find-remove :
      (key other : K) (t : List (K × V))
      → find key (remove other t) ≡ (if other == key then none else find key t)
  find-remove key other t = elim (Bool-cases (other == key)) [
    | inl same ↦
        let e : other ≡ key = (e.test_iff other key).0 same in
        ground (arith, find-remove_self key t, ap (λ k. find key (remove k t)) e)
    | inr differ ↦ ground (arith, find-remove_other key other t, e.test_iff other key)
  ]

  pub find-put_last :
      (key other : K) (v : V) (t : List (K × V))
      → find key (put_last other v t) ≡ (if other == key then some v else find key t)
  find-put_last key other v t = ground (
    arith,
    find-append key (remove other t) other v,
    find-remove key other t,
    Option-cases (find key t),
  )

  find-keep_entries :
      (p : V → Bool) (key : K) (t : List (K × V))
      → find key t ≡ none
      → find key (keep_entries p t) ≡ none
  find-keep_entries p key [] h = refl
  find-keep_entries p key ((k, v) ∷ t) h = ground (arith, find-keep_entries p key t)

  pub find-keep_entries_sound :
      (p : V → Bool) (key : K) (t : List (K × V)) (w : V)
      → distinct_keys t ≡ true
      → find key (keep_entries p t) ≡ some w
      → (find key t ≡ some w) × (p w ≡ true)
  find-keep_entries_sound p key [] w d h = cc
  find-keep_entries_sound p key ((k, v) ∷ t) w d h =
      ground (arith, find-keep_entries_sound p key t w, find-keep_entries p key t, e.test_iff k key)

  pub distinct-keep_entries :
      (p : V → Bool) (t : List (K × V))
      → distinct_keys t ≡ true
      → distinct_keys (keep_entries p t) ≡ true
  distinct-keep_entries p [] d = refl
  distinct-keep_entries p ((k, v) ∷ t) d =
      ground (arith, distinct-keep_entries p t, find-keep_entries p k t)

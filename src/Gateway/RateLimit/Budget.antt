-- ===== src/Gateway/RateLimit/Budget.antt =====
-- What runs of requests take from a bucket.
use native.Mathlib.Nat.{add-mul}
use adgate.Prelude.{
  ℕ, ◌+◌, ◌-◌, ◌*◌, ◌≤◌, ◌≡◌, refl, sym, ap, ◌∙◌, Bool-cases, inl, inr, Option, none, some, List,
  [], ◌∷◌, if◌then◌else◌, leb, ltb, arith,
}
use adgate.Gateway.RateLimit.{unit, TokenBucketOptions, BucketState, later_of, take_token}
use adgate.Gateway.RateLimit.Laws.{IsValid, held, take_token-IsValid, held_after}

-- How many of the requests at the given times are let through.
abbrev pub allowed_count : TokenBucketOptions → Option BucketState → List ℕ → ℕ
allowed_count options state [] = 0
allowed_count options state (now ∷ times) =
    (if (take_token state now options).decision.allowed then 1 else 0)
    + allowed_count options (some (take_token state now options).state) times

-- The latest of the times, from the one given.
abbrev pub latest : ℕ → List ℕ → ℕ
latest last [] = last
latest last (now ∷ times) = latest (if ltb now last then last else now) times

step_budget :
    (options : TokenBucketOptions) (state : BucketState) (now : ℕ)
    → IsValid options (some state)
    → held options (some (take_token (some state) now options).state)
        + (if (take_token (some state) now options).decision.allowed then unit else 0)
        + state.updated_at * options.rps
      ≤ held options (some state)
        + (take_token (some state) now options).state.updated_at * options.rps
step_budget options state now h =
    let after = held_after options (some state) now h in
    let time : (take_token (some state) now options).state.updated_at ≡ later_of (some state) now =
      unfold take_token in refl in
    rw time (elim (Bool-cases (leb state.updated_at now)) [
      | inl forward ↦
          let split : state.updated_at * options.rps + (now - state.updated_at) * options.rps
              ≡ now * options.rps =
            sym (add-mul state.updated_at (now - state.updated_at) options.rps)
            ∙ ap (λ n. n * options.rps) (ground arith) in
          ground arith
      | inr back ↦ ground arith
    ])

run_budget :
    (options : TokenBucketOptions) (state : BucketState) (times : List ℕ)
    → IsValid options (some state)
    → unit * allowed_count options (some state) times + state.updated_at * options.rps
      ≤ held options (some state) + latest state.updated_at times * options.rps
run_budget options state [] h = omega arith
run_budget options state (now ∷ times) h =
    let next = (take_token (some state) now options).state in
    let rest = run_budget options next times (take_token-IsValid options (some state) now h) in
    let step = step_budget options state now h in
    let time : next.updated_at ≡ later_of (some state) now = unfold take_token in refl in
    let end = ap (λ t. latest t times * options.rps) time in
    elim (Bool-cases (take_token (some state) now options).decision.allowed) [
      | inl let_through ↦ ground arith
      | inr refused ↦ ground arith
    ]

-- From a fresh bucket of a burst of at least one, the requests let through are at most `burst`, and `rps` for each second from
-- the first request to the latest time seen, whatever the times of the requests.
pub take_token-budget :
    (options : TokenBucketOptions) (first : ℕ) (times : List ℕ)
    → 1 ≤ options.burst
    → unit * allowed_count options none (first ∷ times) + first * options.rps
      ≤ unit * options.burst + latest first times * options.rps
take_token-budget options first times h =
    let next = (take_token none first options).state in
    let rest = run_budget options next times (take_token-IsValid options none first h) in
    let step = held_after options none first h in
    let time : next.updated_at ≡ first = unfold take_token in refl in
    let end = ap (λ t. latest t times * options.rps) time in
    let start = ap (λ t. t * options.rps) time in
    elim (Bool-cases (take_token none first options).decision.allowed) [
      | inl let_through ↦ ground arith
      | inr refused ↦ ground arith
    ]

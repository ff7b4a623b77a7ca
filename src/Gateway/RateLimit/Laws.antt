-- ===== src/Gateway/RateLimit/Laws.antt =====
-- The valid states of a bucket, and what one request changes.
use adgate.Prelude.{
  ℕ, ◌+◌, ◌-◌, ◌*◌, ◌≤◌, ◌<◌, ◌≡◌, refl, ap, ◌∙◌, Bool-cases, inl, inr, Option, none, some,
  if◌then◌else◌, leb, arith,
}
use adgate.Gateway.RateLimit.{
  ℤ, pos, negsuc, sub_nat, plus_nat, minus_nat, min_nat, unit, TokenBucketOptions, BucketState,
  decision_from_tokens, held_of, held_tokens, elapsed, take_token,
}

-- The tokens of a valid state: at least minus one, and at most the capacity less the one taken.
abbrev pub Balance : TokenBucketOptions → ℤ → Type 0
Balance options (pos n) = n + unit ≤ unit * options.burst
Balance options (negsuc n) = (n < unit) × (1 ≤ options.burst)

abbrev pub IsValid : TokenBucketOptions → Option BucketState → Type 0
IsValid options none = 1 ≤ options.burst
IsValid options (some state) = Balance options state.tokens

-- What a valid state holds is a natural number.
abbrev pub held_balance : ℤ → ℕ
held_balance (pos n) = n
held_balance (negsuc n) = unit - (n + 1)

abbrev pub held : TokenBucketOptions → Option BucketState → ℕ
held options none = unit * options.burst
held options (some state) = held_balance state.tokens

held_tokens-held :
    (options : TokenBucketOptions) (state : Option BucketState)
    → IsValid options state
    → held_tokens state options ≡ pos (held options state)
unfolding held_tokens held_of plus_nat sub_nat
held_tokens-held options none h = refl
held_tokens-held options (some state) h = go state.tokens h
  where
    go : (t : ℤ) → Balance options t → held_of t ≡ pos (held_balance t)
    go (pos n) h = refl
    go (negsuc n) h = ground arith

-- What the bucket holds once it is refilled.
abbrev pub filled : TokenBucketOptions → Option BucketState → ℕ → ℕ
filled options state now =
    let content = held options state + elapsed state now * options.rps in
    if leb (unit * options.burst) content then unit * options.burst else content

pub take_token-tokens :
    (options : TokenBucketOptions) (state : Option BucketState) (now : ℕ)
    → IsValid options state
    → (take_token state now options).state.tokens ≡ sub_nat (filled options state now) unit
unfolding take_token min_nat plus_nat minus_nat
take_token-tokens options state now h =
    rw (held_tokens-held options state h)
      (by_case (held options state + elapsed state now * options.rps))
  where
    by_case :
        (n : ℕ)
        → minus_nat (min_nat (unit * options.burst) (pos n)) unit
          ≡ sub_nat (if leb (unit * options.burst) n then unit * options.burst else n) unit
    by_case n = ground arith

pub take_token-decision :
    (options : TokenBucketOptions) (state : Option BucketState) (now : ℕ)
    → (take_token state now options).decision
      ≡ decision_from_tokens (take_token state now options).state.tokens options.rps
unfolding take_token
take_token-decision options state now = refl

pub valid_burst :
    (options : TokenBucketOptions) (state : Option BucketState)
    → IsValid options state
    → 1 ≤ options.burst
valid_burst options none h = h
valid_burst options (some state) h = go state.tokens h
  where
    go : (t : ℤ) → Balance options t → 1 ≤ options.burst
    go (pos n) h = omega arith
    go (negsuc n) h = h.1

balance_lem :
    (options : TokenBucketOptions) (n : ℕ)
    → n ≤ unit * options.burst
    → 1 ≤ options.burst
    → Balance options (sub_nat n unit)
unfolding sub_nat
balance_lem options n h k = elim (Bool-cases (leb unit n)) [
  | inl enough ↦ rw enough (ground arith)
  | inr short ↦ rw short (ground arith, k)
]

-- From no state or a valid one, at a burst of at least one, each request leaves a valid state.
pub take_token-IsValid :
    (options : TokenBucketOptions) (state : Option BucketState) (now : ℕ)
    → IsValid options state
    → IsValid options (some (take_token state now options).state)
take_token-IsValid options state now h =
    rw (take_token-tokens options state now h)
      (balance_lem options (filled options state now) (ground arith) (valid_burst options state h))

-- What a request leaves, with the token of an allowed one, is what the bucket held when refilled.
pub held_after :
    (options : TokenBucketOptions) (state : Option BucketState) (now : ℕ)
    → IsValid options state
    → held options (some (take_token state now options).state)
        + (if (take_token state now options).decision.allowed then unit else 0)
      ≡ filled options state now
held_after options state now h =
    ap
      (λ d.
        held options (some (take_token state now options).state) + (if d.allowed then unit else 0))
      (take_token-decision options state now)
    ∙ ap (λ t. held_balance t + (if (decision_from_tokens t options.rps).allowed then unit else 0))
        (take_token-tokens options state now h)
    ∙ parts (filled options state now)
  where
    parts :
        (n : ℕ)
        → held_balance (sub_nat n unit)
            + (if (decision_from_tokens (sub_nat n unit) options.rps).allowed then unit else 0)
          ≡ n
    parts n = elim (Bool-cases (leb unit n)) [
      | inl enough ↦ unfold sub_nat decision_from_tokens in rw enough (ground arith)
      | inr short ↦ unfold sub_nat decision_from_tokens in rw short (ground arith)
    ]

-- ===== src/Gateway/RateLimit.antt =====
-- packages/gateway/src/rate-limit/limiter.ts. Tokens are in millionths, `rps` is in
-- thousandths and times are in milliseconds, so that `elapsedS * rps` is exact. The source computes it in
-- doubles: a balance here may differ from the source's by its rounding, also in its sign at 0.
pub mod Laws
pub mod Budget
mod Tests
use adgate.Prelude.{
  ℕ, suc, ◌+◌, ◌-◌, ◌*◌, ◌/◌, Bool, true, false, Option, none, some, if◌then◌else◌, leb, ltb,
}

pub data ℤ : Type 0 where
  pos : ℕ → ℤ
  negsuc : ℕ → ℤ

-- The difference of two natural numbers.
unfoldable pub sub_nat : ℕ → ℕ → ℤ
sub_nat a b = if leb b a then pos (a - b) else negsuc (b - a - 1)

unfoldable pub plus_nat : ℤ → ℕ → ℤ
plus_nat (pos n) k = pos (n + k)
plus_nat (negsuc n) k = sub_nat k (n + 1)

unfoldable pub minus_nat : ℤ → ℕ → ℤ
minus_nat (pos n) k = sub_nat n k
minus_nat (negsuc n) k = negsuc (n + k)

unfoldable pub min_nat : ℕ → ℤ → ℤ
min_nat b (pos n) = if leb b n then pos b else pos n
min_nat b (negsuc n) = negsuc n

abbrev pub max : ℕ → ℕ → ℕ
max a b = if leb a b then b else a

-- One token.
abbrev pub unit : ℕ
unit = 1000000

pub record RateLimitDecision : Type 0 where
  pub allowed : Bool
  pub retry_after_s : ℕ
  pub remaining : ℕ

pub record TokenBucketOptions : Type 0 where
  pub rps : ℕ
  pub burst : ℕ

pub record BucketState : Type 0 where
  pub tokens : ℤ
  pub updated_at : ℕ

pub record TakeResult : Type 0 where
  pub state : BucketState
  pub decision : RateLimitDecision

-- `Math.ceil(a / b)` for a positive `b`.
abbrev pub ceil_div : ℕ → ℕ → ℕ
ceil_div a b = (a + (b - 1)) / b

unfoldable pub decision_from_tokens : ℤ → ℕ → RateLimitDecision
decision_from_tokens (pos n) rps = record {
  allowed = true;
  retry_after_s = 0;
  remaining = n / unit;
}
decision_from_tokens (negsuc n) rps = record {
  allowed = false;
  retry_after_s = max 1 (ceil_div (n + 1) (1000 * rps));
  remaining = 0;
}

-- `state.tokens >= 0 ? state.tokens : state.tokens + 1`
unfoldable pub held_of : ℤ → ℤ
held_of (pos n) = pos n
held_of (negsuc n) = plus_nat (negsuc n) unit

unfoldable pub held_tokens : Option BucketState → TokenBucketOptions → ℤ
held_tokens none options = pos (unit * options.burst)
held_tokens (some state) options = held_of state.tokens

-- The milliseconds since the last request; none before the first, or if the clock went backwards.
abbrev pub elapsed : Option BucketState → ℕ → ℕ
elapsed none now = 0
elapsed (some state) now = if leb state.updated_at now then now - state.updated_at else 0

abbrev pub later_of : Option BucketState → ℕ → ℕ
later_of none now = now
later_of (some state) now = if ltb now state.updated_at then state.updated_at else now

unfoldable pub take_token : Option BucketState → ℕ → TokenBucketOptions → TakeResult
take_token state now options =
    let refilled =
      min_nat (unit * options.burst)
        (plus_nat (held_tokens state options) (elapsed state now * options.rps)) in
    let tokens = minus_nat refilled unit in
    record {
      state = record { tokens = tokens; updated_at = later_of state now };
      decision = decision_from_tokens tokens options.rps;
    }

-- ===== src/Gateway/RateLimit/Tests.antt =====
-- The bucket's theorems at a rate of half a request a second and a burst of two.
use adgate.Prelude.{◌≤◌, ◌+◌, ◌*◌, none, some, [], ◌∷◌, arith}
use adgate.Gateway.RateLimit.{TokenBucketOptions, BucketState, pos, unit}
use adgate.Gateway.RateLimit.Laws.{IsValid}
use adgate.Gateway.RateLimit.Budget.{take_token-budget, allowed_count, latest}

abbrev options : TokenBucketOptions
options = record { rps = 500; burst = 2 }

-- A bucket that has half a token left.
abbrev nearly_empty : BucketState
nearly_empty = record { tokens = pos 500000; updated_at = 1000 }

nearly_empty-IsValid : IsValid options (some nearly_empty)
nearly_empty-IsValid = omega arith

budget_example :
    unit * allowed_count options none (0 ∷ 0 ∷ 0 ∷ 2000 ∷ []) + 0 * options.rps
    ≤ unit * options.burst + latest 0 (0 ∷ 0 ∷ 2000 ∷ []) * options.rps
budget_example = take_token-budget options 0 (0 ∷ 0 ∷ 2000 ∷ []) (omega arith)

-- ===== src/Policy/Caps.antt =====
-- packages/core/src/policy/caps.ts: the counters of a conversation. `turn_count` minus
-- `last_turn_index` is exact on the rows that the module produces (Policy/Caps/Invariant.antt).
pub mod Invariant
use adgate.Prelude.{ℕ, ◌+◌, ◌-◌, String, Bool, Option, none, some, or_else, if◌then◌else◌}
use adgate.Schema.{CapState}

pub record CapRow : Type 0 where
  pub session_count : ℕ
  pub turn_count : ℕ
  pub last_turn_index : Option ℕ
  pub user_hash : Option String

abbrev pub empty_cap_row : CapRow
empty_cap_row = record {
  session_count = 0;
  turn_count = 0;
  last_turn_index = none;
  user_hash = none;
}

abbrev pub turns_since : ℕ → Option ℕ → Option ℕ
turns_since turn_count none = none
turns_since turn_count (some last) = some (turn_count - last)

unfoldable pub cap_state_from : Option CapRow → ℕ → CapState
cap_state_from row day_count =
    let current = or_else row empty_cap_row in
    record {
      session_count = current.session_count;
      day_count = day_count;
      turns_since_last = turns_since current.turn_count current.last_turn_index;
    }

pub record CapTurn : Type 0 where
  pub served : Bool
  pub user_hash : Option String

-- `a ?? b` for a value that may be null itself.
abbrev pub keep_first : Option String → Option String → Option String
keep_first none later = later
keep_first (some h) later = some h

unfoldable pub next_cap_row : Option CapRow → CapTurn → CapRow
next_cap_row row turn =
    let current = or_else row empty_cap_row in
    let turn_count = current.turn_count + 1 in
    record {
      session_count = current.session_count + (if turn.served then 1 else 0);
      turn_count = turn_count;
      last_turn_index = if turn.served then some turn_count else current.last_turn_index;
      user_hash = keep_first current.user_hash turn.user_hash;
    }

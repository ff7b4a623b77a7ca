-- ===== src/Policy/Caps/Invariant.antt =====
-- What holds of every row that `nextCapRow` produces.
use adgate.Prelude.{ℕ, ◌≤◌, ◌≡◌, refl, Option, none, some, arith, or_else}
use adgate.Policy.Caps.{CapRow, CapTurn, empty_cap_row, next_cap_row}

-- No ad was served, or the last one was served on a turn that has been counted.
abbrev pub LastFits : ℕ → ℕ → Option ℕ → Type 0
LastFits sessions turns none = sessions ≡ 0
LastFits sessions turns (some last) = (1 ≤ sessions) × (sessions ≤ last) × (last ≤ turns)

pub record IsValid (row : CapRow) : Type 0 where
  pub counted : row.session_count ≤ row.turn_count
  pub last_fits : LastFits row.session_count row.turn_count row.last_turn_index

pub empty-IsValid : IsValid empty_cap_row
empty-IsValid = record { counted = omega arith; last_fits = refl }

-- From a missing row or a valid one, every turn leads to a valid row.
pub next_cap_row-IsValid :
    (row : Option CapRow) (turn : CapTurn)
    → IsValid (or_else row empty_cap_row)
    → IsValid (next_cap_row row turn)
unfolding next_cap_row
next_cap_row-IsValid row turn v = ground arith

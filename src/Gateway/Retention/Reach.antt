-- ===== src/Gateway/Retention/Reach.antt =====
-- How far the prefix of an app that may be deleted reaches.
use adgate.Prelude.{
  ℕ, ◌≤◌, ◌<◌, inl, inr, ◌≡◌, refl, ap, ◌∙◌, String, Bool, true, false, some, List, [], ◌∷◌, ltb,
  leb, arith, Bool-cases, Option-cases, and-eq_true, Among, ◌==◌, string_eq, some_inj, leb_iff,
}
use adgate.Gateway.Retention.{
  AuditRow, sooner, first_seq, last_seq, must_keep, below, prunable_through_seq,
}

first_seq-le :
    (p : AuditRow → Bool) (row : AuditRow) (rows : List AuditRow)
    → p row ≡ true
    → Among row rows
    → (k : ℕ) × (first_seq p rows ≡ some k) × (k ≤ row.seq)
first_seq-le p row [] h m = absurd m
first_seq-le p row (x ∷ rows) h (inl e) =
    let here : p x ≡ true = ap p e ∙ h in
    let seq : x.seq ≡ row.seq = ap (λ r. r.seq) e in
    (
      sooner (first_seq p rows) x.seq,
      rw here refl,
      elim (Option-cases (first_seq p rows)) [
        | inl none_yet ↦ rw none_yet (omega arith)
        | inr (k, found) ↦ rw found (ground arith)
      ],
    )
first_seq-le p row (x ∷ rows) h (inr m) =
    let (k, found, le) = first_seq-le p row rows h m in
    elim (Bool-cases (p x)) [
      | inl here ↦ (sooner (some k) x.seq, rw (here, found) refl, ground arith)
      | inr elsewhere ↦ (k, rw (elsewhere, found) refl, le)
    ]

-- A row that the cutoff does not reach lies above the prefix, if there is one.
pub prunable_through_seq-spares :
    (rows : List AuditRow) (app_id : String) (cutoff : ℕ) (row : AuditRow)
    → must_keep app_id cutoff row ≡ true
    → Among row rows
    → ltb (prunable_through_seq rows app_id cutoff) 1 ≡ false
    → prunable_through_seq rows app_id cutoff < row.seq
unfolding prunable_through_seq
prunable_through_seq-spares rows app_id cutoff row h m positive =
    let (k, first, le) = first_seq-le (must_keep app_id cutoff) row rows h m in
    let e : prunable_through_seq rows app_id cutoff
        ≡ below (some k) (last_seq (λ r. r.app_id == app_id) rows) =
      ap (λ o. below o (last_seq (λ r. r.app_id == app_id) rows)) first in
    ground arith

first_seq-some :
    (p : AuditRow → Bool) (rows : List AuditRow) (k : ℕ)
    → first_seq p rows ≡ some k
    → (row : AuditRow) × Among row rows × (p row ≡ true) × (row.seq ≡ k)
first_seq-some p [] k e = absurd (cc e)
first_seq-some p (x ∷ rows) k e = elim (Bool-cases (p x)) [
  | inl here ↦ elim (Option-cases (first_seq p rows)) [
    | inl none_yet ↦ (x, inl refl, here, some_inj (rw (here, none_yet) at e))
    | inr (j, found) ↦
        let least : sooner (some j) x.seq ≡ k = some_inj (rw (here, found) at e) in
        let (row, m, pr, seq) = first_seq-some p rows j found in
        elim (Bool-cases (ltb j x.seq)) [
          | inl before ↦ (row, inr m, pr, ground arith)
          | inr after ↦ (x, inl refl, here, ground arith)
        ]
  ]
  | inr elsewhere ↦
      let (row, m, pr, seq) = first_seq-some p rows k (rw elsewhere at e) in (row, inr m, pr, seq)
]

last_seq-ge :
    (p : AuditRow → Bool) (row : AuditRow) (rows : List AuditRow)
    → p row ≡ true
    → Among row rows
    → row.seq ≤ last_seq p rows
last_seq-ge p row [] h m = absurd m
last_seq-ge p row (x ∷ rows) h (inl e) =
    let here : p x ≡ true = ap p e ∙ h in
    let seq : x.seq ≡ row.seq = ap (λ r. r.seq) e in ground arith
last_seq-ge p row (x ∷ rows) h (inr m) = ground (arith, last_seq-ge p row rows h m)

-- The prefix reaches a row whose app has no row to keep at its position or below.
pub prunable_through_seq-reaches :
    (rows : List AuditRow) (app_id : String) (cutoff : ℕ) (row : AuditRow)
    → Among row rows
    → row.app_id ≡ app_id
    → ((other : AuditRow)
        → Among other rows
        → other.app_id ≡ app_id
        → other.seq ≤ row.seq
        → other.ts < cutoff)
    → row.seq ≤ prunable_through_seq rows app_id cutoff
unfolding prunable_through_seq
prunable_through_seq-reaches rows app_id cutoff row m own old =
    let mine = λ (r : AuditRow). r.app_id == app_id in
    let last = last_seq mine rows in
    let top = last_seq-ge mine row rows ((string_eq.test_iff row.app_id app_id).1 own) m in
    elim (Option-cases (first_seq (must_keep app_id cutoff) rows)) [
      | inl all_old ↦ rw (ap (λ o. below o last) all_old) top
      | inr (k, found) ↦
          let (other, there, keep, seq) = first_seq-some (must_keep app_id cutoff) rows k found in
          let (app, young) = and-eq_true (other.app_id == app_id) (leb cutoff other.ts) keep in
          let other_own = (string_eq.test_iff other.app_id app_id).0 app in
          let above : row.seq < other.seq = elim (Bool-cases (leb other.seq row.seq)) [
            | inl low ↦ absurd (
                ground
                  (arith, old other there other_own ((leb_iff other.seq row.seq).0 low), young))
            | inr high ↦ ground arith
          ] in
          rw (ap (λ o. below o last) found) (omega arith)
    ]

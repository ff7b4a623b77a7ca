-- ===== src/Gateway/Store/Laws.antt =====
-- The chain of an app and the ads of a conversation, before and after a transaction.
use adgate.Prelude.{
  ℕ, ◌+◌, ◌≤◌, String, ◌≡◌, refl, sym, ap, ◌∙◌, Bool, Option, some, List, [], ◌∷◌, arith, length,
  string_eq, ◌==◌, or_else, ◌<◌, subst, inl, inr, Bool-cases, eq_of_beq,
}
use adgate.Schema.{CapState}
use adgate.Policy.Caps.{next_cap_row, empty_cap_row}
use adgate.Audit.Record.{Decision, serve, suppress, AuditRecord, content_of}
use adgate.Audit.Chain.{next_prev_hash}
use adgate.Gateway.Store.{
  AuditRow, Store, CapKey, latest_record, latest_seq, read_cap_state, apply_cap_updates, is_serve,
  PersistedAudit, persist,
}

-- Each record names the hash of the one before it, and its number is its place.
abbrev pub Linked : List AuditRow → Type 0
Linked [] = Unit {0}
Linked (row ∷ rows) =
    (row.record_of.unsigned.prev_hash ≡ next_prev_hash (latest_record rows))
    × (row.seq ≡ length rows + 1)
    × Linked rows

-- How many ads the conversation has had.
abbrev pub sessions : String → Store → ℕ
sessions conversation store = (or_else (store.cap_rows conversation) empty_cap_row).session_count

pub Linked-seq : (rows : List AuditRow) → Linked rows → latest_seq rows ≡ length rows
Linked-seq [] h = refl
Linked-seq (row ∷ rows) (follows, numbered, rest) = numbered ∙ omega arith

apply_cap_updates-sessions :
    (store : Store) (key : CapKey) (conversation : String) (n : ℕ) (d : Decision)
    → (d ≡ serve → key.conversation_hash ≡ conversation → sessions conversation store < n)
    → sessions conversation store ≤ n
    → sessions conversation (apply_cap_updates store key (is_serve d)) ≤ n
unfolding apply_cap_updates next_cap_row
apply_cap_updates-sessions store key conversation n serve room within =
    elim (Bool-cases (conversation == key.conversation_hash)) [
      | inr other ↦ rw (other, sessions) within
      | inl own ↦
          let same = eq_of_beq conversation key.conversation_hash own in
          let below = room refl (sym same) in
          let row = ap (λ c. sessions c store) same in rw (own, sessions) (ground arith)
    ]
apply_cap_updates-sessions store key conversation n suppress room within =
    elim (Bool-cases (conversation == key.conversation_hash)) [
      | inr other ↦ rw (other, sessions) within
      | inl own ↦
          let same = eq_of_beq conversation key.conversation_hash own in
          let row = ap (λ c. sessions c store) same in rw (own, sessions) (ground arith)
    ]

module _ (build : Option AuditRecord → CapState → Option AuditRecord) (key : CapKey)
    (raw_text : Option String) (commits : Bool) (store : Store) where
  -- What a transaction that commits has done.
  pub persist_lem :
      (p : PersistedAudit)
      → persist build key raw_text commits store ≡ some p
      → (build (latest_record store.audits) (read_cap_state store key) ≡ some p.record_of)
        × (p.store.audits
            ≡ record { record_of = p.record_of; seq = latest_seq store.audits + 1 } ∷ store.audits)
        × (p.store.cap_rows
            ≡ (apply_cap_updates store key (is_serve (content_of p.record_of).decision)).cap_rows)
  unfolding persist
  persist_lem p h = ground arith

  pub persist-Linked :
      (p : PersistedAudit)
      → persist build key raw_text commits store ≡ some p
      → p.record_of.unsigned.prev_hash ≡ next_prev_hash (latest_record store.audits)
      → Linked store.audits
      → Linked p.store.audits
  persist-Linked p h follows linked =
      let (built, audits, caps) = persist_lem p h in
      subst Linked (sym audits) (follows, ap (λ n. n + 1) (Linked-seq store.audits linked), linked)

  -- A conversation gets one ad more only from a served turn of its own.
  pub persist-sessions :
      (p : PersistedAudit) (conversation : String) (n : ℕ)
      → persist build key raw_text commits store ≡ some p
      → ((content_of p.record_of).decision ≡ serve
          → key.conversation_hash ≡ conversation
          → sessions conversation store < n)
      → sessions conversation store ≤ n
      → sessions conversation p.store ≤ n
  persist-sessions p conversation n h room within =
      let (built, audits, caps) = persist_lem p h in
      subst (λ table. (or_else (table conversation) empty_cap_row).session_count ≤ n) (sym caps)
        (apply_cap_updates-sessions store key conversation n (content_of p.record_of).decision
          (λ served same. room served same) within)

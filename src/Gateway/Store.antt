-- ===== src/Gateway/Store.antt =====
-- packages/gateway/src/evaluate/caps.ts and audit-store.ts: the tables of one app, and the
-- transaction that appends a record. The app's lock makes a transaction one step.
pub mod Laws
use adgate.Prelude.{
  ℕ, ◌+◌, String, Bool, true, false, ◌&&◌, Option, none, some, List, [], ◌∷◌, if◌then◌else◌, ◌==◌,
  string_eq,
}
use adgate.Schema.{CapState}
use adgate.Policy.Caps.{CapRow, cap_state_from, next_cap_row}
use adgate.Audit.Record.{Decision, serve, suppress, AuditRecord, content_of}
use adgate.Audit.Chain.{next_prev_hash}

pub record AuditRow : Type 0 where
  pub record_of : AuditRecord
  pub seq : ℕ

-- The rows of audit_records, the latest first, and the tables of the caps and the raw texts.
pub record Store : Type 0 where
  pub audits : List AuditRow
  pub cap_rows : String → Option CapRow
  pub day_counts : String → String → ℕ
  pub raw_texts : List (String × String)

pub record CapKey : Type 0 where
  pub conversation_hash : String
  pub user_hash : Option String
  pub day : String

abbrev pub latest_record : List AuditRow → Option AuditRecord
latest_record [] = none
latest_record (row ∷ rows) = some row.record_of

abbrev pub latest_seq : List AuditRow → ℕ
latest_seq [] = 0
latest_seq (row ∷ rows) = row.seq

unfoldable pub read_day_count : Store → CapKey → ℕ
read_day_count store key = elim (key.user_hash) [
  | none ↦ 0
  | some user ↦ store.day_counts user key.day
]

unfoldable pub read_cap_state : Store → CapKey → CapState
read_cap_state store key =
    cap_state_from (store.cap_rows key.conversation_hash) (read_day_count store key)

abbrev pub put {ℓ} : {A : Type ℓ} → String → A → (String → A) → String → A
put key value table k = if k == key then value else table k

unfoldable pub count_day : Bool → CapKey → (String → String → ℕ) → String → String → ℕ
count_day false key counts = counts
count_day true key counts = elim (key.user_hash) [
  | none ↦ counts
  | some user ↦ put user (put key.day (counts user key.day + 1) (counts user)) counts
]

unfoldable pub apply_cap_updates : Store → CapKey → Bool → Store
apply_cap_updates store key served = record store {
  cap_rows =
      put key.conversation_hash
        (some (
          next_cap_row (store.cap_rows key.conversation_hash)
            (record { served = served; user_hash = key.user_hash })))
        store.cap_rows;
  day_counts = count_day served key store.day_counts;
}

abbrev pub is_serve : Decision → Bool
is_serve serve = true
is_serve suppress = false

pub record PersistedAudit : Type 0 where
  pub record_of : AuditRecord
  pub seq : ℕ
  pub store : Store

abbrev pub keep_text : AuditRecord → Option String → List (String × String) → List (String × String)
keep_text r none texts = texts
keep_text r (some text) texts = ((content_of r).id, text) ∷ texts

-- `build` throws with `none`, and so does the database where `commits` is false: nothing is kept.
unfoldable pub persist :
    (Option AuditRecord → CapState → Option AuditRecord)
    → CapKey
    → Option String
    → Bool
    → Store
    → Option PersistedAudit
persist build key raw_text commits store =
    elim (build (latest_record store.audits) (read_cap_state store key)) [
      | none ↦ none
      | some r ↦
          let seq = latest_seq store.audits + 1 in
          let counted = apply_cap_updates store key (is_serve (content_of r).decision) in
          if commits
          then some (record {
            record_of = r;
            seq = seq;
            store = record counted {
              audits = record { record_of = r; seq = seq } ∷ store.audits;
              raw_texts = keep_text r raw_text store.raw_texts;
            };
          })
          else none
    ]

-- ===== src/Gateway/Retention.antt =====
-- packages/gateway/src/retention/queries.ts: how far the records of an app can be deleted, and the
-- deletion. The tables are lists of rows with the columns that retention reads; a time is in
-- milliseconds and a cutoff before 1970 is 0. Positions in a chain start at 1.
pub mod Run
mod Reach
mod Prefix
mod Prunes
mod Steps
pub mod Laws
mod Tests
use adgate.Prelude.{
  ℕ, ◌-◌, ◌*◌, String, Bool, ◌&&◌, not, Option, none, some, List, [], ◌∷◌, map, if◌then◌else◌, ltb,
  leb, length, filter, is_empty, includes, distinct, find, put_last, ◌==◌, string_eq,
}

pub record AuditRow : Type 0 where
  pub id : String
  pub app_id : String
  pub seq : ℕ
  pub ts : ℕ

pub record EventRow : Type 0 where
  pub id : String
  pub audit_id : String
  pub app_id : String

pub record RawTextRow : Type 0 where
  pub audit_id : String
  pub app_id : String

pub record RetentionStateRow : Type 0 where
  pub pruned_before : ℕ
  pub pruned_through_seq : ℕ
  pub updated_at : ℕ

pub record Tables : Type 0 where
  pub audit_records : List AuditRow
  pub events : List EventRow
  pub raw_text : List RawTextRow
  pub retention_state : List (String × RetentionStateRow)

abbrev pub day_ms : ℕ
day_ms = 86400000

abbrev pub retention_cutoff : ℕ → ℕ → ℕ
retention_cutoff now retain_days = now - retain_days * day_ms

abbrev pub sooner : Option ℕ → ℕ → ℕ
sooner none seq = seq
sooner (some other) seq = if ltb other seq then other else seq

-- `orderBy(asc(seq)).limit(1)` among the rows that pass a test.
abbrev pub first_seq : (AuditRow → Bool) → List AuditRow → Option ℕ
first_seq p [] = none
first_seq p (row ∷ rows) =
    let rest = first_seq p rows in if p row then some (sooner rest row.seq) else rest

-- `orderBy(desc(seq)).limit(1)`, or 0 if there is no row.
abbrev pub last_seq : (AuditRow → Bool) → List AuditRow → ℕ
last_seq p [] = 0
last_seq p (row ∷ rows) =
    let rest = last_seq p rows in
    if p row then (if ltb rest row.seq then row.seq else rest) else rest

abbrev pub must_keep : String → ℕ → AuditRow → Bool
must_keep app_id cutoff row = row.app_id == app_id && leb cutoff row.ts

abbrev pub below : Option ℕ → ℕ → ℕ
below none last = last
below (some keep) last = keep - 1

unfoldable pub prunable_through_seq : List AuditRow → String → ℕ → ℕ
prunable_through_seq rows app_id cutoff =
    below (first_seq (must_keep app_id cutoff) rows) (last_seq (λ row. row.app_id == app_id) rows)

pub record PruneCounts : Type 0 where
  pub records : ℕ
  pub events : ℕ
  pub raw_text : ℕ

abbrev pub no_prune : PruneCounts
no_prune = record { records = 0; events = 0; raw_text = 0 }

abbrev pub in_prefix : String → ℕ → AuditRow → Bool
in_prefix app_id through_seq row = row.app_id == app_id && leb row.seq through_seq

-- The ids that no row of the app has any more.
unfoldable pub orphan_audit_ids : List AuditRow → String → List String → List String
orphan_audit_ids rows app_id audit_ids =
    let surviving =
      map (λ row. row.id)
        (filter (λ row. row.app_id == app_id && includes audit_ids row.id) rows) in
    filter (λ id. not (includes (distinct surviving) id)) audit_ids

abbrev pub delete_orphans : Tables → String → ℕ → List String → Tables × PruneCounts
delete_orphans tables app_id records orphans =
    let event_goes = λ (e : EventRow). e.app_id == app_id && includes orphans e.audit_id in
    let text_goes = λ (t : RawTextRow). t.app_id == app_id && includes orphans t.audit_id in
    if is_empty orphans then (tables, record { records = records; events = 0; raw_text = 0 }) else (
      record {
        audit_records = tables.audit_records;
        events = filter (λ e. not (event_goes e)) tables.events;
        raw_text = filter (λ t. not (text_goes t)) tables.raw_text;
        retention_state = tables.retention_state;
      },
      record {
        records = records;
        events = length (filter event_goes tables.events);
        raw_text = length (filter text_goes tables.raw_text);
      },
    )

unfoldable pub prune_through_seq : Tables → String → ℕ → Tables × PruneCounts
prune_through_seq tables app_id through_seq =
    let deleted = filter (in_prefix app_id through_seq) tables.audit_records in
    let rows = filter (λ row. not (in_prefix app_id through_seq row)) tables.audit_records in
    let touched = distinct (map (λ row. row.id) deleted) in
    if ltb through_seq 1
    then (tables, no_prune)
    else delete_orphans
        (record {
          audit_records = rows;
          events = tables.events;
          raw_text = tables.raw_text;
          retention_state = tables.retention_state;
        })
        app_id (length deleted) (orphan_audit_ids rows app_id touched)

abbrev pub greatest : ℕ → ℕ → ℕ
greatest a b = if ltb a b then b else a

abbrev pub further : Option RetentionStateRow → ℕ → ℕ → ℕ → RetentionStateRow
further none before through now = record {
  pruned_before = before;
  pruned_through_seq = through;
  updated_at = now;
}
further (some old) before through now = record {
  pruned_before = greatest old.pruned_before before;
  pruned_through_seq = greatest old.pruned_through_seq through;
  updated_at = now;
}

unfoldable pub write_retention_state : Tables → String → ℕ → ℕ → ℕ → Tables
write_retention_state tables app_id pruned_before pruned_through_seq now =
    let old = find app_id tables.retention_state in
    record {
      audit_records = tables.audit_records;
      events = tables.events;
      raw_text = tables.raw_text;
      retention_state =
          put_last app_id (further old pruned_before pruned_through_seq now) tables.retention_state;
    }

-- ===== src/Gateway/Retention/Prunes.antt =====
-- How the tables before and after some prunes are related: packages/gateway/src/retention.
use adgate.Prelude.{
  ℕ, ◌≤◌, ◌⊎◌, inl, inr, ◌≡◌, String, Option, none, some, arith, Among, string_eq, find,
}
use adgate.Gateway.Retention.{AuditRow, EventRow, RawTextRow, RetentionStateRow, Tables}

-- The position that the state of an app records.
abbrev pub through_of : Option RetentionStateRow → ℕ
through_of none = 0
through_of (some row) = row.pruned_through_seq

abbrev pub watermark : Tables → String → ℕ
watermark tables app_id = through_of (find app_id tables.retention_state)

-- The steps of a run, whose deleted records all satisfy `Goes`.
pub record Prunes (Goes : AuditRow → Type 0) (before : Tables) (after : Tables) : Type 0 where
  pub shrinks : (row : AuditRow) → Among row after.audit_records → Among row before.audit_records
  pub goes :
      (row : AuditRow)
      → Among row before.audit_records
      → Among row after.audit_records ⊎ (Goes row × (row.seq ≤ watermark after row.app_id))
  pub suffix :
      (low : AuditRow) (high : AuditRow)
      → Among low after.audit_records
      → Among high before.audit_records
      → low.app_id ≡ high.app_id
      → low.seq ≤ high.seq
      → Among high after.audit_records
  pub event :
      (event : EventRow) (row : AuditRow)
      → Among event before.events
      → Among row after.audit_records
      → row.app_id ≡ event.app_id
      → row.id ≡ event.audit_id
      → Among event after.events
  pub text :
      (text : RawTextRow) (row : AuditRow)
      → Among text before.raw_text
      → Among row after.audit_records
      → row.app_id ≡ text.app_id
      → row.id ≡ text.audit_id
      → Among text after.raw_text
  pub forward : (app_id : String) → watermark before app_id ≤ watermark after app_id

module _ (Goes : AuditRow → Type 0) where
  pub Prunes-refl : (tables : Tables) → Prunes Goes tables tables
  Prunes-refl tables = record {
    shrinks = λ row m. m;
    goes = λ row m. inl m;
    suffix = λ low high m k own le. k;
    event = λ e row m k own same. m;
    text = λ t row m k own same. m;
    forward = λ app_id. omega arith;
  }

  pub Prunes-trans : (a b c : Tables) → Prunes Goes a b → Prunes Goes b c → Prunes Goes a c
  Prunes-trans a b c p q = record {
    shrinks = λ row m. p.shrinks row (q.shrinks row m);
    goes = λ row m. elim (p.goes row m) [
      | inl kept ↦ q.goes row kept
      | inr (gone, le) ↦ inr (gone, omega (arith, q.forward row.app_id))
    ];
    suffix = λ low high m k own le.
        q.suffix low high m (p.suffix low high (q.shrinks low m) k own le) own le;
    event =
        λ e row m k own same. q.event e row (p.event e row m (q.shrinks row k) own same) k own same;
    text =
        λ t row m k own same. q.text t row (p.text t row m (q.shrinks row k) own same) k own same;
    forward = λ app_id. omega (arith, p.forward app_id, q.forward app_id);
  }

  pub Prunes-map :
      (Other : AuditRow → Type 0) (a b : Tables)
      → ((row : AuditRow) → Goes row → Other row)
      → Prunes Goes a b
      → Prunes Other a b
  Prunes-map Other a b f p = record {
    shrinks = p.shrinks;
    goes = λ row m. elim (p.goes row m) [
      | inl kept ↦ inl kept
      | inr (gone, le) ↦ inr (f row gone, le)
    ];
    suffix = p.suffix;
    event = p.event;
    text = p.text;
    forward = p.forward;
  }

-- ===== src/Gateway/Retention/Steps.antt =====
-- What one transaction of the retention job deletes, and what it leaves.
use adgate.Prelude.{
  ℕ, ◌≤◌, ◌<◌, inl, inr, ◌≡◌, refl, sym, ap, ◌∙◌, subst, String, true, false, Option, none, some,
  if◌then◌else◌, ltb, leb, arith, Bool-cases, Among, ◌==◌, string_eq, find, find-put_last,
}
use adgate.Gateway.Retention.{
  AuditRow, RetentionStateRow, Tables, must_keep, prunable_through_seq, PruneCounts,
  prune_through_seq, write_retention_state, further,
}
use adgate.Gateway.Retention.Reach.{prunable_through_seq-spares, prunable_through_seq-reaches}
use adgate.Gateway.Retention.Prefix.{
  stays, audit_records-prune_iff, records-prune, retention_state-prune, events-prune,
  raw_text-prune,
}
use adgate.Gateway.Retention.Run.{RetentionDeps, collect}
use adgate.Gateway.Retention.Prunes.{through_of, watermark, Prunes}

further-le :
    (old : Option RetentionStateRow) (before through now : ℕ)
    → (through_of old ≤ (further old before through now).pruned_through_seq)
      × (through ≤ (further old before through now).pruned_through_seq)
further-le none before through now = (omega arith, omega arith)
further-le (some old) before through now = (ground arith, ground arith)

module _ (tables : Tables) (app_id : String) (cutoff through now : ℕ) where
  abbrev written : Tables
  written = write_retention_state tables app_id cutoff through now

  abbrev next : RetentionStateRow
  next = further (find app_id tables.retention_state) cutoff through now

  watermark_after :
      (other : String)
      → watermark written other
        ≡ (if app_id == other then next.pruned_through_seq else watermark tables other)
  unfolding write_retention_state
  watermark_after other =
      ap through_of (find-put_last other app_id next tables.retention_state)
      ∙ (elim (Bool-cases (app_id == other)) [
        | inl same ↦ rw same refl
        | inr differ ↦ rw differ refl
      ])

  watermark-write : (other : String) → other ≡ app_id → through ≤ watermark written other
  watermark-write other own =
      let same = (string_eq.test_iff app_id other).1 (sym own) in
      rw (watermark_after other, same)
        ((further-le (find app_id tables.retention_state) cutoff through now).1)

  watermark-write_forward : (other : String) → watermark tables other ≤ watermark written other
  watermark-write_forward other = elim (Bool-cases (app_id == other)) [
    | inl same ↦
        let e : watermark tables app_id ≡ watermark tables other =
          ap (watermark tables) ((string_eq.test_iff app_id other).0 same) in
        let grows = (further-le (find app_id tables.retention_state) cutoff through now).0 in
        rw (watermark_after other, same) (omega arith)
    | inr differ ↦ rw (watermark_after other, differ) (omega arith)
  ]

  written-audit_records : written.audit_records ≡ tables.audit_records
  unfolding write_retention_state
  written-audit_records = refl

  written-events : written.events ≡ tables.events
  unfolding write_retention_state
  written-events = refl

  written-raw_text : written.raw_text ≡ tables.raw_text
  unfolding write_retention_state
  written-raw_text = refl

-- What the work of a transaction may delete.
abbrev pub TooOld : String → ℕ → AuditRow → Type 0
TooOld app_id cutoff row = (row.app_id ≡ app_id) × (row.ts < cutoff)

module _ (deps : RetentionDeps) (tables : Tables) (app_id : String) (cutoff : ℕ) where
  abbrev through : ℕ
  through = prunable_through_seq tables.audit_records app_id cutoff

  abbrev cut : Tables × PruneCounts
  cut = prune_through_seq tables app_id through

  abbrev work : Tables
  work = (collect deps tables app_id cutoff).0

  -- The rows are those of the deletion, and what it deletes is covered by the position written.
  collect-written :
      (work.audit_records ≡ cut.0.audit_records)
      × (work.events ≡ cut.0.events)
      × (work.raw_text ≡ cut.0.raw_text)
      × ((other : String) → watermark tables other ≤ watermark work other)
      × (0 < cut.1.records → (other : String) → other ≡ app_id → through ≤ watermark work other)
  unfolding collect
  collect-written =
      let same : (other : String) → watermark tables other ≡ watermark (cut.0) other = λ other.
        ap (λ rows. through_of (find other rows))
          (sym (retention_state-prune tables app_id through)) in
      elim (Bool-cases (ltb 0 cut.1.records)) [
        | inl some_row ↦ rw some_row (
          written-audit_records (cut.0) app_id cutoff through deps.now,
          written-events (cut.0) app_id cutoff through deps.now,
          written-raw_text (cut.0) app_id cutoff through deps.now,
          λ other. omega (
            arith,
            same other,
            watermark-write_forward (cut.0) app_id cutoff through deps.now other,
          ),
          λ pos other own. watermark-write (cut.0) app_id cutoff through deps.now other own,
        )
        | inr no_row ↦ rw no_row (
          refl,
          refl,
          refl,
          λ other. omega (arith, same other),
          λ pos other own. absurd (ground (arith, pos)),
        )
      ]

  -- What stands above a row that stays, stays.
  stays-above :
      (low high : AuditRow)
      → stays app_id through low ≡ true
      → low.app_id ≡ high.app_id
      → low.seq ≤ high.seq
      → stays app_id through high ≡ true
  stays-above low high h own le =
      let same : (low.app_id == app_id) ≡ (high.app_id == app_id) = ap (λ a. a == app_id) own in
      ground (arith, h, same)

  -- A row that goes is of the app, not above the prefix, and older than the cutoff.
  stays-gone :
      (row : AuditRow)
      → Among row tables.audit_records
      → stays app_id through row ≡ false
      → TooOld app_id cutoff row × (row.seq ≤ through)
  stays-gone row m gone =
      let app : (row.app_id == app_id) ≡ true = ground (arith, gone) in
      let low : row.seq ≤ through = ground (arith, gone) in
      let some_row : ltb through 1 ≡ false = ground (arith, gone) in
      elim (Bool-cases (leb cutoff row.ts)) [
        | inl young ↦
            let keep : must_keep app_id cutoff row ≡ true = rw (app, young) refl in
            absurd (
              omega (
                arith,
                low,
                prunable_through_seq-spares tables.audit_records app_id cutoff row keep m some_row,
              ))
        | inr old ↦ (((string_eq.test_iff row.app_id app_id).0 app, ground (arith, old)), low)
      ]

  pub collect-Prunes : Prunes (TooOld app_id cutoff) tables work
  collect-Prunes =
      let (rows, evs, texts, fwd, covered) = collect-written in
      let row_iff = audit_records-prune_iff tables app_id through in
      let back =
        λ (row : AuditRow) (m : Among row work.audit_records). subst (λ rs. Among row rs) rows m in
      let on = λ (row : AuditRow) (m : Among row cut.0.audit_records).
        subst (λ rs. Among row rs) (sym rows) m in
      record {
        shrinks = λ row m. ((row_iff row).0 (back row m)).0;
        goes = λ row m. elim (Bool-cases (stays app_id through row)) [
          | inl left ↦ inl (on row ((row_iff row).1 (m, left)))
          | inr gone ↦
              let (old, low) = stays-gone row m gone in
              let pos = records-prune tables app_id through row m gone in
              inr (old, omega (arith, low, covered pos row.app_id (old.0)))
        ];
        suffix = λ low high m k own le.
            on high
              ((row_iff high).1 (k, stays-above low high ((row_iff low).0 (back low m)).1 own le));
        event = λ e row m k own same.
            subst (λ es. Among e es) (sym evs)
              (events-prune tables app_id through e row m (back row k) own same);
        text = λ t row m k own same.
            subst (λ ts. Among t ts) (sym texts)
              (raw_text-prune tables app_id through t row m (back row k) own same);
        forward = fwd;
      }

  -- A row goes if it and what is below it are all old.
  pub collect-deletes :
      (row : AuditRow)
      → row.app_id ≡ app_id
      → 1 ≤ row.seq
      → ((other : AuditRow)
          → Among other tables.audit_records
          → other.app_id ≡ app_id
          → other.seq ≤ row.seq
          → other.ts < cutoff)
      → Among row work.audit_records
      → ⊥
  collect-deletes row own pos old m =
      let (there, left) =
        (audit_records-prune_iff tables app_id through row).0
          (subst (λ rs. Among row rs) (collect-written.0) m) in
      let reach =
        prunable_through_seq-reaches tables.audit_records app_id cutoff row there own old in
      let app = (string_eq.test_iff row.app_id app_id).1 own in
      ground (arith, left, reach, app, pos)

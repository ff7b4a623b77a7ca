-- ===== src/Gateway/Retention/Prefix.antt =====
-- What the deletion of a prefix leaves.
use adgate.Prelude.{
  ℕ, ◌<◌, ◌↔◌, ◌⊎◌, subst, inl, inr, ◌≡◌, refl, sym, ap, ◌∙◌, String, Bool, true, false, ◌&&◌, ◌||◌,
  not, List, [], ◌∷◌, map, ltb, arith, Bool-cases, and-eq_true, length, filter, is_empty, includes,
  includes-filter, includes-distinct, distinct, Among, Among-filter, ◌==◌, string_eq,
}
use adgate.Gateway.Retention.{
  AuditRow, EventRow, RawTextRow, Tables, PruneCounts, no_prune, in_prefix, orphan_audit_ids,
  delete_orphans, prune_through_seq,
}

-- What a prune does to a row of the records.
abbrev pub stays : String → ℕ → AuditRow → Bool
stays app_id through_seq row = ltb through_seq 1 || not (in_prefix app_id through_seq row)

length-pos : {A : Type 0} (a : A) (xs : List A) → Among a xs → 0 < length xs
length-pos a [] m = absurd m
length-pos a (x ∷ xs) m = omega arith

includes-map-filter :
    (p : AuditRow → Bool) (row : AuditRow) (rows : List AuditRow)
    → p row ≡ true
    → Among row rows
    → includes (map (λ r. r.id) (filter p rows)) row.id ≡ true
includes-map-filter p row [] h m = absurd m
includes-map-filter p row (x ∷ rows) h (inl e) =
    let here : p x ≡ true = ap p e ∙ h in
    rw (here, (string_eq.test_iff x.id row.id).1 (ap (λ r. r.id) e)) refl
includes-map-filter p row (x ∷ rows) h (inr m) =
    let ih = includes-map-filter p row rows h m in
    elim (Bool-cases (p x)) [
      | inl here ↦ elim (Bool-cases (x.id == row.id)) [
        | inl same ↦ rw (here, same) refl
        | inr other ↦ rw (here, other) ih
      ]
      | inr elsewhere ↦ rw elsewhere ih
    ]

-- No row of the app has an orphan's id.
pub orphan_audit_ids-gone :
    (rows : List AuditRow) (app_id id : String) (ids : List String) (row : AuditRow)
    → includes (orphan_audit_ids rows app_id ids) id ≡ true
    → Among row rows
    → row.app_id ≡ app_id
    → row.id ≡ id
    → ⊥
unfolding orphan_audit_ids
orphan_audit_ids-gone rows app_id id ids row h m own same =
    let surviving = map (λ r. r.id) (filter (λ r. r.app_id == app_id && includes ids r.id) rows) in
    let (lost, touched) =
      and-eq_true (not (includes (distinct surviving) id)) (includes ids id)
        (sym (includes-filter (λ i. not (includes (distinct surviving) i)) ids id) ∙ h) in
    let test : (row.app_id == app_id && includes ids row.id) ≡ true =
      ap (λ b. b && includes ids row.id) ((string_eq.test_iff row.app_id app_id).1 own)
      ∙ ap (includes ids) same
      ∙ touched in
    let there =
      includes-map-filter (λ r. r.app_id == app_id && includes ids r.id) row rows test m in
    let there_id : includes (distinct surviving) id ≡ true =
      includes-distinct surviving id ∙ ap (includes surviving) (sym same) ∙ there in
    cc (sym lost ∙ ap not there_id)

module _ (tables : Tables) (app_id : String) (records : ℕ) (orphans : List String) where
  abbrev after : Tables × PruneCounts
  after = delete_orphans tables app_id records orphans

  audit_records-delete : after.0.audit_records ≡ tables.audit_records
  audit_records-delete = elim (Bool-cases (is_empty orphans)) [
    | inl empty ↦ rw empty refl
    | inr some_id ↦ rw some_id refl
  ]

  retention_state-delete : after.0.retention_state ≡ tables.retention_state
  retention_state-delete = elim (Bool-cases (is_empty orphans)) [
    | inl empty ↦ rw empty refl
    | inr some_id ↦ rw some_id refl
  ]

  records-delete : after.1.records ≡ records
  records-delete = elim (Bool-cases (is_empty orphans)) [
    | inl empty ↦ rw empty refl
    | inr some_id ↦ rw some_id refl
  ]

  events-delete :
      (event : EventRow)
      → Among event tables.events
      → (event.app_id == app_id && includes orphans event.audit_id) ≡ false
      → Among event after.0.events
  events-delete event m h = elim (Bool-cases (is_empty orphans)) [
    | inl empty ↦ rw empty m
    | inr some_id ↦ rw some_id (
        (Among-filter (λ e. not (e.app_id == app_id && includes orphans e.audit_id)) event
            tables.events).1
          (m, ap not h))
  ]

  raw_text-delete :
      (text : RawTextRow)
      → Among text tables.raw_text
      → (text.app_id == app_id && includes orphans text.audit_id) ≡ false
      → Among text after.0.raw_text
  raw_text-delete text m h = elim (Bool-cases (is_empty orphans)) [
    | inl empty ↦ rw empty m
    | inr some_id ↦ rw some_id (
        (Among-filter (λ t. not (t.app_id == app_id && includes orphans t.audit_id)) text
            tables.raw_text).1
          (m, ap not h))
  ]

module _ (tables : Tables) (app_id : String) (through_seq : ℕ) where
  abbrev shortened : Tables
  shortened = record {
    audit_records = filter (λ row. not (in_prefix app_id through_seq row)) tables.audit_records;
    events = tables.events;
    raw_text = tables.raw_text;
    retention_state = tables.retention_state;
  }

  abbrev deleted : List AuditRow
  deleted = filter (in_prefix app_id through_seq) tables.audit_records

  abbrev orphans : List String
  orphans = orphan_audit_ids shortened.audit_records app_id (distinct (map (λ row. row.id) deleted))

  abbrev deletion : Tables × PruneCounts
  deletion = delete_orphans shortened app_id (length deleted) orphans

  abbrev pub pruning : Tables × PruneCounts
  pruning = prune_through_seq tables app_id through_seq

  prune_through_seq-cases :
      ((ltb through_seq 1 ≡ true) × (pruning ≡ (tables, no_prune)))
      ⊎ ((ltb through_seq 1 ≡ false) × (pruning ≡ deletion))
  unfolding prune_through_seq
  prune_through_seq-cases = elim (Bool-cases (ltb through_seq 1)) [
    | inl none_old ↦ inl (none_old, rw none_old refl)
    | inr old ↦ inr (old, rw old refl)
  ]

  pub audit_records-prune_iff :
      (row : AuditRow)
      → Among row pruning.0.audit_records
        ↔ (Among row tables.audit_records × (stays app_id through_seq row ≡ true))
  audit_records-prune_iff row = elim prune_through_seq-cases [
    | inl (low, e) ↦ rw (e, low) (λ m. (m, refl), λ (m, h). m)
    | inr (high, e) ↦
        rw (e, high, audit_records-delete shortened app_id (length deleted) orphans)
          (Among-filter (λ r. not (in_prefix app_id through_seq r)) row tables.audit_records)
  ]

  pub records-prune :
      (row : AuditRow)
      → Among row tables.audit_records
      → stays app_id through_seq row ≡ false
      → 0 < pruning.1.records
  records-prune row m goes = elim prune_through_seq-cases [
    | inl (low, e) ↦ ground arith
    | inr (high, e) ↦
        let there =
          (Among-filter (in_prefix app_id through_seq) row tables.audit_records).1
            (m, ground arith) in
        rw (e, records-delete shortened app_id (length deleted) orphans)
          (length-pos row deleted there)
  ]

  pub retention_state-prune : pruning.0.retention_state ≡ tables.retention_state
  retention_state-prune = elim prune_through_seq-cases [
    | inl (low, e) ↦ ap (λ p. p.0.retention_state) e
    | inr (high, e) ↦
        ap (λ p. p.0.retention_state) e
        ∙ retention_state-delete shortened app_id (length deleted) orphans
  ]

  -- An id that a row left of the app has is no orphan's.
  orphans-app :
      (row : AuditRow) (audit_id app : String)
      → Among row shortened.audit_records
      → row.app_id ≡ app
      → row.id ≡ audit_id
      → (app == app_id && includes orphans audit_id) ≡ false
  orphans-app row audit_id app left own same =
      elim (Bool-cases (app == app_id && includes orphans audit_id)) [
        | inl both ↦
            let (here, orphan) = and-eq_true (app == app_id) (includes orphans audit_id) both in
            absurd (
              orphan_audit_ids-gone shortened.audit_records app_id audit_id
                (distinct (map (λ r. r.id) deleted)) row orphan left
                (own ∙ (string_eq.test_iff app app_id).0 here) same)
        | inr spared ↦ spared
      ]

  pub events-prune :
      (event : EventRow) (row : AuditRow)
      → Among event tables.events
      → Among row pruning.0.audit_records
      → row.app_id ≡ event.app_id
      → row.id ≡ event.audit_id
      → Among event pruning.0.events
  events-prune event row m left app same = elim prune_through_seq-cases [
    | inl (low, e) ↦ subst (λ p. Among event p.0.events) (sym e) m
    | inr (high, e) ↦
        let rows =
          ap (λ p. p.0.audit_records) e
          ∙ audit_records-delete shortened app_id (length deleted) orphans in
        let spared =
          orphans-app row event.audit_id event.app_id (subst (λ rs. Among row rs) rows left) app
            same in
        subst (λ p. Among event p.0.events) (sym e)
          (events-delete shortened app_id (length deleted) orphans event m spared)
  ]

  pub raw_text-prune :
      (text : RawTextRow) (row : AuditRow)
      → Among text tables.raw_text
      → Among row pruning.0.audit_records
      → row.app_id ≡ text.app_id
      → row.id ≡ text.audit_id
      → Among text pruning.0.raw_text
  raw_text-prune text row m left app same = elim prune_through_seq-cases [
    | inl (low, e) ↦ subst (λ p. Among text p.0.raw_text) (sym e) m
    | inr (high, e) ↦
        let rows =
          ap (λ p. p.0.audit_records) e
          ∙ audit_records-delete shortened app_id (length deleted) orphans in
        let spared =
          orphans-app row text.audit_id text.app_id (subst (λ rs. Among row rs) rows left) app
            same in
        subst (λ p. Among text p.0.raw_text) (sym e)
          (raw_text-delete shortened app_id (length deleted) orphans text m spared)
  ]

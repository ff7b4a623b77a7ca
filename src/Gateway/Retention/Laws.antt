-- ===== src/Gateway/Retention/Laws.antt =====
-- What a run of the retention job deletes, and what it leaves.
use adgate.Prelude.{
  ℕ, ◌+◌, ◌*◌, ◌≤◌, ◌<◌, ◌⊎◌, inl, inr, ◌≡◌, refl, sym, ap, ◌∙◌, subst, String, Bool, true, false,
  Option, none, some, List, [], ◌∷◌, arith, Among,
}
use adgate.Gateway.Retention.{AuditRow, EventRow, RawTextRow, Tables, day_ms, retention_cutoff}
use adgate.Gateway.Retention.Prunes.{watermark, Prunes, Prunes-refl, Prunes-trans, Prunes-map}
use adgate.Gateway.Retention.Steps.{TooOld, collect-Prunes, collect-deletes}
use adgate.Gateway.Retention.Run.{
  RetentionApp, RetentionDeps, Outcome, returned, thrown, settle, collect, report, with_policy,
  run_one, run_apps, list_retention_apps, run_retention,
}

-- A record that the policy of its app, which can be read, no longer retains, in a run that commits.
pub record Expired (deps : RetentionDeps) (apps : List RetentionApp) (row : AuditRow) : Type 0 where
  pub app : RetentionApp
  pub days : ℕ
  pub listed : Among app apps
  pub own : app.id ≡ row.app_id
  pub loaded : deps.retain_days app.policy_yaml ≡ returned days
  pub committed : (deps.dry_run ≡ false) × (deps.tx_error app.id ≡ none)
  pub old : row.ts + days * day_ms < deps.now

module _ (deps : RetentionDeps) (listed : List RetentionApp) where
  run_one-Prunes :
      (tables : Tables) (app : RetentionApp)
      → Among app listed
      → Prunes (Expired deps listed) tables (run_one deps tables app).0
  unfolding run_one
  run_one-Prunes tables app m = loaded (deps.retain_days app.policy_yaml) refl
    where
      loaded :
          (o : Outcome ℕ)
          → deps.retain_days app.policy_yaml ≡ o
          → Prunes (Expired deps listed) tables (with_policy deps tables app o).0
      loaded (thrown error) e = Prunes-refl (Expired deps listed) tables
      loaded (returned days) e = settled deps.dry_run (deps.tx_error app.id) refl refl
        where
          cutoff : ℕ
          cutoff = retention_cutoff deps.now days

          settled :
              (dry : Bool) (o : Option String)
              → deps.dry_run ≡ dry
              → deps.tx_error app.id ≡ o
              → Prunes
                  (Expired deps listed)
                  tables
                  (report deps app days cutoff
                    (settle dry o tables (collect deps tables app.id cutoff))).0
          settled dry (some error) d t = Prunes-refl (Expired deps listed) tables
          settled true none d t = Prunes-refl (Expired deps listed) tables
          settled false none d t =
              Prunes-map (TooOld app.id cutoff) (Expired deps listed) tables
                (collect deps tables app.id cutoff).0
                (λ row (own, old). record {
                  app = app;
                  days = days;
                  listed = m;
                  own = sym own;
                  loaded = e;
                  committed = (d, t);
                  old = omega (arith, old);
                })
                (collect-Prunes deps tables app.id cutoff)

  run_apps-Prunes :
      (apps : List RetentionApp) (tables : Tables)
      → ((app : RetentionApp) → Among app apps → Among app listed)
      → Prunes (Expired deps listed) tables (run_apps deps tables apps).0
  unfolding run_apps
  run_apps-Prunes [] tables h = Prunes-refl (Expired deps listed) tables
  run_apps-Prunes (app ∷ apps) tables h =
      let one = run_one-Prunes tables app (h app (inl refl)) in
      let rest = run_apps-Prunes apps (run_one deps tables app).0 (λ a m. h a (inr m)) in
      Prunes-trans (Expired deps listed) tables (run_one deps tables app).0
        (run_apps deps (run_one deps tables app).0 apps).0 one rest

-- The records of an app up to a position are all older than some days before the run.
abbrev pub AllOlder : RetentionDeps → Tables → AuditRow → ℕ → Type 0
AllOlder deps tables row days =
    (other : AuditRow)
    → Among other tables.audit_records
    → other.app_id ≡ row.app_id
    → other.seq ≤ row.seq
    → other.ts + days * day_ms < deps.now

module _ (deps : RetentionDeps) (target : RetentionApp) (days : ℕ) (row : AuditRow)
    (own : row.app_id ≡ target.id) (loaded : deps.retain_days target.policy_yaml ≡ returned days)
    (commit : deps.dry_run ≡ false) (no_error : deps.tx_error target.id ≡ none)
    (pos : 1 ≤ row.seq) where
  run_one-collects :
      (tables : Tables)
      → (run_one deps tables target).0
        ≡ (collect deps tables target.id (retention_cutoff deps.now days)).0
  unfolding run_one
  run_one-collects tables =
      let cutoff = retention_cutoff deps.now days in
      let work = collect deps tables target.id cutoff in
      ap (λ o. (with_policy deps tables target o).0) loaded
      ∙ ap
          (λ d. (report deps target days cutoff (settle d (deps.tx_error target.id) tables work)).0)
          commit
      ∙ ap (λ t. (report deps target days cutoff (settle false t tables work)).0) no_error

  run_one-deletes :
      (tables : Tables)
      → AllOlder deps tables row days
      → Among row (run_one deps tables target).0.audit_records
      → ⊥
  run_one-deletes tables old m =
      collect-deletes deps tables target.id (retention_cutoff deps.now days) row own pos
        (λ other there same low. omega (arith, old other there (same ∙ sym own) low))
        (subst (λ t. Among row t.audit_records) (run_one-collects tables) m)

  run_apps-deletes :
      (apps listed : List RetentionApp) (tables : Tables)
      → ((app : RetentionApp) → Among app apps → Among app listed)
      → Among target apps
      → AllOlder deps tables row days
      → Among row (run_apps deps tables apps).0.audit_records
      → ⊥
  unfolding run_apps
  run_apps-deletes [] listed tables h m old k = absurd m
  run_apps-deletes (app ∷ apps) listed tables h (inl e) old k =
      let first = (run_one deps tables app).0 in
      let rest = run_apps-Prunes deps listed apps first (λ a m. h a (inr m)) in
      run_one-deletes tables old
        (subst (λ a. Among row (run_one deps tables a).0.audit_records) e (rest.shrinks row k))
  run_apps-deletes (app ∷ apps) listed tables h (inr m) old k =
      let first = (run_one deps tables app).0 in
      let one = run_one-Prunes deps listed tables app (h app (inl refl)) in
      run_apps-deletes apps listed first (λ a n. h a (inr n)) m
        (λ other there same low. old other (one.shrinks other there) same low) k

  -- A run that is no dry run deletes a record at a position from 1 on, if its app is one of the run,
  -- the app's policy can be read, its transaction does not fail and all records of the app up to that
  -- position are older than the days that the policy retains.
  pub run_retention-gone :
      (tables : Tables) (apps : List RetentionApp) (only : Option String)
      → Among target (list_retention_apps apps only)
      → AllOlder deps tables row days
      → ¬ Among row (run_retention deps tables apps only).0.audit_records
  unfolding run_retention
  run_retention-gone tables apps only m old k =
      let listed = list_retention_apps apps only in
      run_apps-deletes listed listed tables (λ app n. n) m old k

module _ (deps : RetentionDeps) (tables : Tables) (apps : List RetentionApp)
    (only : Option String) where
  abbrev pub after_run : Tables
  after_run = (run_retention deps tables apps only).0

  run_retention-Prunes : Prunes (Expired deps (list_retention_apps apps only)) tables after_run
  unfolding run_retention
  run_retention-Prunes =
      run_apps-Prunes deps (list_retention_apps apps only) (list_retention_apps apps only) tables
        (λ app m. m)

  -- Every record of the tables is there after a run of the retention job, or it is older than the
  -- days that the policy of its app retains, where this app is one of the run, its policy can be read, its
  -- transaction does not fail and the run is no dry run; and then the position recorded for the app
  -- reaches it.
  pub run_retention-kept :
      (row : AuditRow)
      → Among row tables.audit_records
      → Among row after_run.audit_records
        ⊎ (Expired deps (list_retention_apps apps only) row
            × (row.seq ≤ watermark after_run row.app_id))
  run_retention-kept = run_retention-Prunes.goes

  -- A run leaves no hole in a chain: where a record is there after the run, every record of the same
  -- app that was there before at the same or a higher position is there, too.
  pub run_retention-suffix :
      (low high : AuditRow)
      → Among low after_run.audit_records
      → Among high tables.audit_records
      → low.app_id ≡ high.app_id
      → low.seq ≤ high.seq
      → Among high after_run.audit_records
  run_retention-suffix = run_retention-Prunes.suffix

  -- While any record of a turn is there after a run, no event of the turn in the same app has been
  -- deleted.
  pub run_retention-events :
      (event : EventRow) (row : AuditRow)
      → Among event tables.events
      → Among row after_run.audit_records
      → row.app_id ≡ event.app_id
      → row.id ≡ event.audit_id
      → Among event after_run.events
  run_retention-events = run_retention-Prunes.event

  -- So it is with the raw text of the turn.
  pub run_retention-raw_text :
      (text : RawTextRow) (row : AuditRow)
      → Among text tables.raw_text
      → Among row after_run.audit_records
      → row.app_id ≡ text.app_id
      → row.id ≡ text.audit_id
      → Among text after_run.raw_text
  run_retention-raw_text = run_retention-Prunes.text

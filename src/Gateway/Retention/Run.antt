-- ===== src/Gateway/Retention/Run.antt =====
-- packages/gateway/src/retention/run.ts. Loading a policy and the failure of a transaction are
-- arguments; the log is left out.
use adgate.Prelude.{
  ℕ, ◌+◌, String, Bool, true, false, Option, none, some, List, [], ◌∷◌, if◌then◌else◌, ltb, length,
  filter, ◌==◌, string_eq,
}
use adgate.Gateway.Retention.{
  Tables, retention_cutoff, prunable_through_seq, PruneCounts, prune_through_seq,
  write_retention_state,
}

pub record RetentionApp : Type 0 where
  pub id : String
  pub policy_yaml : String

pub data RetentionStatus : Type 0 where
  pruned nothing_to_prune policy_unreadable failed : RetentionStatus

pub record RetentionAppResult : Type 0 where
  pub app_id : String
  pub status : RetentionStatus
  pub retain_days : Option ℕ
  pub cutoff : Option ℕ
  pub pruned_through_seq : ℕ
  pub records_deleted : ℕ
  pub events_deleted : ℕ
  pub raw_text_deleted : ℕ
  pub error_name : Option String

-- What a call gives, or the class of what it throws.
pub data Outcome {ℓ} (A : Type ℓ) : Type ℓ where
  returned : A → Outcome A
  thrown : String → Outcome A

-- `retain_days` loads a policy for its `privacy.retain_days`; `tx_error` is the error, if any, that
-- rolls back the transaction of an app.
pub record RetentionDeps : Type 0 where
  pub retain_days : String → Outcome ℕ
  pub tx_error : String → Option String
  pub now : ℕ
  pub dry_run : Bool

abbrev pub skipped : RetentionApp → String → RetentionAppResult
skipped app error = record {
  app_id = app.id;
  status = policy_unreadable;
  retain_days = none;
  cutoff = none;
  pruned_through_seq = 0;
  records_deleted = 0;
  events_deleted = 0;
  raw_text_deleted = 0;
  error_name = some error;
}

abbrev pub counted : RetentionApp → ℕ → ℕ → ℕ → PruneCounts → RetentionAppResult
counted app retain_days cutoff through_seq counts = record {
  app_id = app.id;
  status = if ltb 0 counts.records then pruned else nothing_to_prune;
  retain_days = some retain_days;
  cutoff = some cutoff;
  pruned_through_seq = if ltb 0 counts.records then through_seq else 0;
  records_deleted = counts.records;
  events_deleted = counts.events;
  raw_text_deleted = counts.raw_text;
  error_name = none;
}

abbrev pub failure : RetentionApp → ℕ → ℕ → String → RetentionAppResult
failure app retain_days cutoff error = record {
  app_id = app.id;
  status = failed;
  retain_days = some retain_days;
  cutoff = some cutoff;
  pruned_through_seq = 0;
  records_deleted = 0;
  events_deleted = 0;
  raw_text_deleted = 0;
  error_name = some error;
}

-- The end of a transaction: rolled back by an error or by a dry run, or else committed.
abbrev pub settle :
    Bool → Option String → Tables → Tables × (ℕ × PruneCounts) → Tables × Outcome (ℕ × PruneCounts)
settle dry_run (some error) tables work = (tables, thrown error)
settle true none tables work = (tables, returned (work.1))
settle false none tables work = (work.0, returned (work.1))

module _ (deps : RetentionDeps) where
  -- The work of the transaction: the tables it would commit, the position and the counts.
  unfoldable pub collect : Tables → String → ℕ → Tables × (ℕ × PruneCounts)
  collect tables app_id cutoff =
      let through_seq = prunable_through_seq tables.audit_records app_id cutoff in
      let result = prune_through_seq tables app_id through_seq in
      (
        if ltb 0 result.1.records
            then write_retention_state result.0 app_id cutoff through_seq deps.now
            else result.0,
        (through_seq, result.1),
      )

  abbrev pub prune_app : Tables → String → ℕ → Tables × Outcome (ℕ × PruneCounts)
  prune_app tables app_id cutoff =
      settle deps.dry_run (deps.tx_error app_id) tables (collect tables app_id cutoff)

  abbrev pub report :
      RetentionApp → ℕ → ℕ → Tables × Outcome (ℕ × PruneCounts) → Tables × RetentionAppResult
  report app days cutoff (tables, returned (through_seq, counts)) =
      (tables, counted app days cutoff through_seq counts)
  report app days cutoff (tables, thrown error) = (tables, failure app days cutoff error)

  abbrev pub with_policy : Tables → RetentionApp → Outcome ℕ → Tables × RetentionAppResult
  with_policy tables app (thrown error) = (tables, skipped app error)
  with_policy tables app (returned days) =
      let cutoff = retention_cutoff deps.now days in
      report app days cutoff (prune_app tables app.id cutoff)

  unfoldable pub run_one : Tables → RetentionApp → Tables × RetentionAppResult
  run_one tables app = with_policy tables app (deps.retain_days app.policy_yaml)

  -- The apps in turn: the tables after the last of them, and the results.
  unfoldable pub run_apps : Tables → List RetentionApp → Tables × List RetentionAppResult
  run_apps tables [] = (tables, [])
  run_apps tables (app ∷ apps) =
      let one = run_one tables app in let rest = run_apps (one.0) apps in (rest.0, one.1 ∷ rest.1)

-- The rows of the table of apps come in the order of their ids.
abbrev pub list_retention_apps : List RetentionApp → Option String → List RetentionApp
list_retention_apps apps none = apps
list_retention_apps apps (some id) = filter (λ app. app.id == id) apps

pub record Totals : Type 0 where
  pub apps : ℕ
  pub pruned : ℕ
  pub skipped : ℕ
  pub failed : ℕ
  pub records_deleted : ℕ
  pub events_deleted : ℕ
  pub raw_text_deleted : ℕ

abbrev pub has_status : RetentionStatus → RetentionStatus → Bool
has_status pruned pruned = true
has_status nothing_to_prune nothing_to_prune = true
has_status policy_unreadable policy_unreadable = true
has_status failed failed = true
has_status a b = false

abbrev pub count_status : RetentionStatus → List RetentionAppResult → ℕ
count_status status results = length (filter (λ r. has_status r.status status) results)

abbrev pub total : (RetentionAppResult → ℕ) → List RetentionAppResult → ℕ
total column [] = 0
total column (result ∷ results) = column result + total column results

abbrev pub totals_of : List RetentionAppResult → Totals
totals_of results = record {
  apps = length results;
  pruned = count_status pruned results;
  skipped = count_status policy_unreadable results;
  failed = count_status failed results;
  records_deleted = total (λ r. r.records_deleted) results;
  events_deleted = total (λ r. r.events_deleted) results;
  raw_text_deleted = total (λ r. r.raw_text_deleted) results;
}

pub record RetentionSummary : Type 0 where
  pub dry_run : Bool
  pub now : ℕ
  pub apps : List RetentionAppResult
  pub totals : Totals

unfoldable pub run_retention :
    RetentionDeps → Tables → List RetentionApp → Option String → Tables × RetentionSummary
run_retention deps tables apps app_id =
    let run = run_apps deps tables (list_retention_apps apps app_id) in
    (
      run.0,
      record { dry_run = deps.dry_run; now = deps.now; apps = run.1; totals = totals_of (run.1) },
    )

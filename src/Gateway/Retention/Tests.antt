-- ===== src/Gateway/Retention/Tests.antt =====
-- A run of the retention job over the tables of two apps, one of whose policies cannot be read.
use adgate.Prelude.{
  ◌+◌, ◌*◌, ◌≤◌, ◌<◌, ◌⊎◌, inl, inr, ◌≡◌, refl, subst, false, none, List, [], ◌∷◌, ◌==◌, ap, sym,
  string_eq, if◌then◌else◌, arith, Among,
}
use adgate.Gateway.Retention.{
  AuditRow, EventRow, Tables, day_ms, prune_through_seq, prunable_through_seq, orphan_audit_ids,
  write_retention_state,
}
use adgate.Gateway.Retention.Run.{
  RetentionApp, RetentionDeps, returned, thrown, list_retention_apps, run_retention, run_apps,
  run_one, collect,
}
use adgate.Gateway.Retention.Laws.{
  Expired, AllOlder, run_retention-kept, run_retention-suffix, run_retention-events,
  run_retention-gone,
}
use adgate.Gateway.Retention.Prunes.{watermark}

abbrev shop : RetentionApp
shop = record { id = "app_shop"; policy_yaml = "retain: 30" }

abbrev broken : RetentionApp
broken = record { id = "app_broken"; policy_yaml = "{" }

abbrev deps : RetentionDeps
deps = record {
  retain_days = λ yaml. if yaml == "{" then thrown "PolicyError" else returned 30;
  tx_error = λ app_id. none;
  now = 100 * day_ms;
  dry_run = false;
}

-- The attestation at position 3 has the time of the first record.
abbrev first : AuditRow
first = record { id = "aud_1"; app_id = "app_shop"; seq = 1; ts = 10 * day_ms }

abbrev second : AuditRow
second = record { id = "aud_2"; app_id = "app_shop"; seq = 2; ts = 90 * day_ms }

abbrev attested : AuditRow
attested = record { id = "aud_1"; app_id = "app_shop"; seq = 3; ts = 10 * day_ms }

abbrev foreign : AuditRow
foreign = record { id = "aud_9"; app_id = "app_broken"; seq = 1; ts = 1 }

abbrev shown : EventRow
shown = record { id = "evt_1"; audit_id = "aud_1"; app_id = "app_shop" }

abbrev tables : Tables
tables = record {
  audit_records = first ∷ second ∷ attested ∷ foreign ∷ [];
  events = shown ∷ [];
  raw_text = record { audit_id = "aud_1"; app_id = "app_shop" } ∷ [];
  retention_state = [];
}

abbrev apps : List RetentionApp
apps = broken ∷ shop ∷ []

abbrev after : Tables
after = (run_retention deps tables apps none).0

run_rows : after.audit_records ≡ second ∷ attested ∷ foreign ∷ []
unfolding run_retention run_apps run_one collect prune_through_seq prunable_through_seq
    orphan_audit_ids write_retention_state
run_rows = refl

run_deleted : (run_retention deps tables apps none).1.totals.records_deleted ≡ 1
unfolding run_retention run_apps run_one collect prune_through_seq prunable_through_seq
    orphan_audit_ids write_retention_state
run_deleted = refl

kept_example :
    Among first after.audit_records
    ⊎ (Expired deps (list_retention_apps apps none) first × (1 ≤ watermark after "app_shop"))
kept_example = run_retention-kept deps tables apps none first (inl refl)

suffix_example : Among attested after.audit_records
suffix_example =
    run_retention-suffix deps tables apps none second attested
      (subst (λ rows. Among second rows) (sym run_rows) (inl refl)) (inr (inr (inl refl))) refl
      (omega arith)

events_example : Among shown after.events
events_example =
    run_retention-events deps tables apps none shown attested (inl refl)
      (subst (λ rows. Among attested rows) (sym run_rows) (inr (inl refl))) refl refl

first-AllOlder : AllOlder deps tables first 30
first-AllOlder other m own low = elim m [
  | inl e ↦ subst (λ r. r.ts + 30 * day_ms < 100 * day_ms) e (omega arith)
  | inr (inl e) ↦
      let high : other.seq ≡ 2 = ap (λ r. r.seq) (sym e) in absurd (omega (arith, high, low))
  | inr (inr (inl e)) ↦ subst (λ r. r.ts + 30 * day_ms < 100 * day_ms) e (omega arith)
  | inr (inr (inr (inl e))) ↦ subst (λ r. r.ts + 30 * day_ms < 100 * day_ms) e (omega arith)
  | inr (inr (inr (inr rest))) ↦ absurd rest
]

gone_example : ¬ Among first (run_retention deps tables apps none).0.audit_records
gone_example =
    run_retention-gone deps shop 30 first refl refl refl refl (omega arith) tables apps none
      (inr (inl refl)) first-AllOlder

-- ===== src/Demand/Mediate.antt =====
-- packages/core/src/demand/mediate.ts. An adapter is what it does while mediation waits for it: the
-- events, in the order in which they happen, before its own timer fires. `cut` is
-- `error.slice(0, MAX_ERROR_LENGTH)`; a thrown value is the name that `describeError` gives it.
pub mod Settled
pub mod Selection
pub mod Winner
pub mod Laws
use Prim.Native.String
use adgate.Prelude.{
  ℕ, String, Bool, true, false, Option, none, some, List, [], ◌∷◌, ◌++◌, map, if◌then◌else◌, length,
  or_else, ◌==◌, string_eq,
}
use adgate.Schema.{DemandSource, Candidate, DemandResponseSummary, ExcludedCandidate, DemandTrace}
use adgate.Demand.Exclusions.{is_excluded_domain}
use adgate.Demand.Ranking.{Sign, compare_by_revenue, sort}

abbrev pub mediation_timeout_error : String
mediation_timeout_error = "timeout"

abbrev pub mediation_aborted_error : String
mediation_aborted_error = "aborted"

abbrev pub adapter_error : String → String
adapter_error name = String.◌++◌ "adapter_error:" name

abbrev pub default_demand_timeout_ms : ℕ
default_demand_timeout_ms = 250

-- `Settled`: the trace entry of one adapter, and the candidates that it answered with.
pub record SettledAdapter : Type 0 where
  pub summary : DemandResponseSummary
  pub candidates : List Candidate

-- What the adapter's promise, the timer or the caller's signal does; latencies are the clock's.
pub data Event : Type 0 where
  answers : List Candidate → ℕ → Option String → Event
  answers_invalid : ℕ → Event
  rejects : String → ℕ → Event
  aborts : ℕ → Event
  times_out : Event

pub data Behaviour : Type 0 where
  aborted_before : ℕ → Behaviour
  runs : List Event → Behaviour
  throws : String → Behaviour

pub record Adapter : Type 0 where
  pub source : DemandSource
  pub behaviour : Behaviour

pub record EligibleCandidate : Type 0 where
  pub source : DemandSource
  pub candidate : Candidate

pub record MediationResult : Type 0 where
  pub selected : Option Candidate
  pub selected_source : Option DemandSource
  pub trace : DemandTrace

-- The three lists that the loop over the jobs fills.
pub record Collected : Type 0 where
  pub responses : List DemandResponseSummary
  pub excluded : List ExcludedCandidate
  pub eligible : List EligibleCandidate

-- What `Promise.allSettled` reports of one job.
pub data Outcome : Type 0 where
  fulfilled : SettledAdapter → Outcome
  rejected : String → Outcome

-- `finish`: `done` is whether there is a result already.
abbrev pub finish : Option SettledAdapter → SettledAdapter → Option SettledAdapter
finish none settled = some settled
finish (some done) settled = some done

abbrev pub to_excluded : DemandSource → Candidate → ExcludedCandidate
to_excluded source candidate = record {
  source = source;
  creative_id = candidate.creative.id;
  advertiser_domain = candidate.creative.advertiser_domain;
  reason = "competitor_exclusion";
}

-- The loop over the candidates of one answer.
unfoldable pub collect_candidates :
    List String → DemandSource → List Candidate → Collected → Collected
collect_candidates exclusions source [] c = c
collect_candidates exclusions source (candidate ∷ candidates) c =
    collect_candidates exclusions source candidates (
      if is_excluded_domain candidate.creative.advertiser_domain exclusions
      then record c { excluded = c.excluded ++ to_excluded source candidate ∷ [] }
      else record c {
        eligible = c.eligible ++ record { source = source; candidate = candidate } ∷ [];
      })

abbrev pub compare_eligible : EligibleCandidate → EligibleCandidate → Sign
compare_eligible a b = compare_by_revenue a.candidate b.candidate

abbrev pub nothing_collected : Collected
nothing_collected = record { responses = []; excluded = []; eligible = [] }

abbrev pub requested_of : List Adapter → List DemandSource
requested_of adapters = map (λ adapter. adapter.source) adapters

abbrev pub winner_of : List EligibleCandidate → Option EligibleCandidate
winner_of [] = none
winner_of (best ∷ rest) = some best

abbrev pub candidate_of : Option EligibleCandidate → Option Candidate
candidate_of none = none
candidate_of (some e) = some e.candidate

abbrev pub source_of : Option EligibleCandidate → Option DemandSource
source_of none = none
source_of (some e) = some e.source

module _ (cut : String → String) where
  abbrev pub error_key : Option String → Option String
  error_key none = none
  error_key (some e) = if e == "" then none else some (cut e)

  unfoldable pub summarize : DemandSource → ℕ → ℕ → Option String → DemandResponseSummary
  summarize source candidates latency error = record {
    source = source;
    candidates = candidates;
    latency_ms = latency;
    error = error_key error;
  }

  abbrev pub failed : DemandSource → String → ℕ → SettledAdapter
  failed source error latency = record {
    summary = summarize source 0 latency (some error);
    candidates = [];
  }

  unfoldable pub settle : DemandSource → ℕ → Event → SettledAdapter
  settle source timeout (answers candidates latency error) = record {
    summary = summarize source (length candidates) latency error;
    candidates = candidates;
  }
  settle source timeout (answers_invalid latency) =
      failed source (adapter_error "InvalidResponse") latency
  settle source timeout (rejects name latency) = failed source (adapter_error name) latency
  settle source timeout (aborts latency) = failed source mediation_aborted_error latency
  settle source timeout times_out = failed source mediation_timeout_error timeout

  unfoldable pub run_events :
      DemandSource → ℕ → Option SettledAdapter → List Event → Option SettledAdapter
  run_events source timeout done [] = done
  run_events source timeout done (event ∷ events) =
      run_events source timeout (finish done (settle source timeout event)) events

  -- One adapter under its own deadline: the timer fires after the events given.
  unfoldable pub fetch_one : ℕ → Adapter → Outcome
  fetch_one timeout adapter = elim (adapter.behaviour) [
    | aborted_before latency ↦ fulfilled (failed adapter.source mediation_aborted_error latency)
    | runs events ↦ elim (run_events adapter.source timeout none (events ++ times_out ∷ [])) [
      | none ↦ rejected "NonError"
      | some settled ↦ fulfilled settled
    ]
    | throws name ↦ rejected name
  ]

  abbrev pub collect_outcome : List String → DemandSource → Outcome → Collected → Collected
  collect_outcome exclusions source (rejected name) c = record c {
    responses = c.responses ++ summarize source 0 0 (some (adapter_error name)) ∷ [];
  }
  collect_outcome exclusions source (fulfilled settled) c =
      collect_candidates exclusions source settled.candidates
        (record c { responses = c.responses ++ settled.summary ∷ [] })

  -- The loop over the jobs.
  unfoldable pub collect : List String → ℕ → List Adapter → Collected → Collected
  collect exclusions timeout [] c = c
  collect exclusions timeout (adapter ∷ adapters) c =
      collect exclusions timeout adapters
        (collect_outcome exclusions adapter.source (fetch_one timeout adapter) c)

  unfoldable pub mediate_or_throw :
      List Adapter → List String → List String → Option ℕ → MediationResult
  mediate_or_throw adapters policy_exclusions request_exclusions timeout_ms =
      let timeout = or_else timeout_ms default_demand_timeout_ms in
      let c =
        collect (policy_exclusions ++ request_exclusions) timeout adapters nothing_collected in
      let winner = winner_of (sort compare_eligible c.eligible) in
      record {
        selected = candidate_of winner;
        selected_source = source_of winner;
        trace = record {
          requested = requested_of adapters;
          responses = c.responses;
          excluded = c.excluded;
          selected = source_of winner;
        };
      }

  -- Every requested source failed the same way.
  unfoldable pub failed_all : List Adapter → String → MediationResult
  failed_all adapters error = record {
    selected = none;
    selected_source = none;
    trace = record {
      requested = requested_of adapters;
      responses = map (λ source. summarize source 0 0 (some error)) (requested_of adapters);
      excluded = [];
      selected = none;
    };
  }

  -- `mediate`: `thrown` names what the body threw, if it did.
  unfoldable pub mediate :
      Option String → List Adapter → List String → List String → Option ℕ → MediationResult
  mediate none adapters policy_exclusions request_exclusions timeout_ms =
      mediate_or_throw adapters policy_exclusions request_exclusions timeout_ms
  mediate (some name) adapters policy_exclusions request_exclusions timeout_ms =
      failed_all adapters (adapter_error name)

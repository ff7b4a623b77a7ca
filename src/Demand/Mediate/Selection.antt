-- ===== src/Demand/Mediate/Selection.antt =====
-- What mediation selects, against a description with no accumulators.
use mathlib.Core.List.{append_assoc, append-nil}
use adgate.Prelude.{
  ℕ, String, ◌≡◌, ◌∙◌, inl, inr, Bool, not, Bool-cases, some, List, [], ◌∷◌, ◌++◌, map, filter,
}
use adgate.Schema.{DemandSource, Candidate, DemandResponseSummary, ExcludedCandidate}
use adgate.Demand.Exclusions.{is_excluded_domain}
use adgate.Demand.Mediate.{
  Adapter, EligibleCandidate, Collected, Outcome, fulfilled, rejected, summarize, fetch_one,
  adapter_error, to_excluded, collect_candidates, collect_outcome, collect,
}

abbrev pub candidates_of : Outcome → List Candidate
candidates_of (rejected name) = []
candidates_of (fulfilled s) = s.candidates

module _ (cut : String → String) (exclusions : List String) where
  abbrev pub is_out : Candidate → Bool
  is_out candidate = is_excluded_domain candidate.creative.advertiser_domain exclusions

  abbrev pub eligible_in : DemandSource → List Candidate → List EligibleCandidate
  eligible_in source cs =
      map (λ c. record { source = source; candidate = c }) (filter (λ c. not (is_out c)) cs)

  abbrev pub excluded_in : DemandSource → List Candidate → List ExcludedCandidate
  excluded_in source cs = map (to_excluded source) (filter is_out cs)

  collect_candidates_lem :
      (source : DemandSource) (cs : List Candidate) (c : Collected)
      → collect_candidates exclusions source cs c ≡ record c {
        excluded = c.excluded ++ excluded_in source cs;
        eligible = c.eligible ++ eligible_in source cs;
      }
  unfolding collect_candidates
  collect_candidates_lem source [] c = rw (append-nil c.excluded, append-nil c.eligible)
  collect_candidates_lem source (x ∷ cs) c = elim (Bool-cases (is_out x)) [
    | inl out ↦
        rw (out, collect_candidates)
          (collect_candidates_lem source cs
              (record c { excluded = c.excluded ++ to_excluded source x ∷ [] })
            ∙ rw (append_assoc c.excluded))
    | inr eligible ↦
        rw (eligible, collect_candidates)
          (collect_candidates_lem source cs
              (record c { eligible = c.eligible ++ record { source = source; candidate = x } ∷ [] })
            ∙ rw (append_assoc c.eligible))
  ]

  module _ (timeout : ℕ) where
    abbrev pub answer_of : Adapter → List Candidate
    answer_of adapter = candidates_of (fetch_one cut timeout adapter)

    abbrev pub entry_of : DemandSource → Outcome → DemandResponseSummary
    entry_of source (rejected name) = summarize cut source 0 0 (some (adapter_error name))
    entry_of source (fulfilled s) = s.summary

    abbrev pub entries : List Adapter → List DemandResponseSummary
    entries [] = []
    entries (a ∷ as') = entry_of a.source (fetch_one cut timeout a) ∷ entries as'

    abbrev pub all_eligible : List Adapter → List EligibleCandidate
    all_eligible [] = []
    all_eligible (a ∷ as') = eligible_in a.source (answer_of a) ++ all_eligible as'

    abbrev pub all_excluded : List Adapter → List ExcludedCandidate
    all_excluded [] = []
    all_excluded (a ∷ as') = excluded_in a.source (answer_of a) ++ all_excluded as'

    collect_outcome_lem :
        (source : DemandSource) (o : Outcome) (c : Collected)
        → collect_outcome cut exclusions source o c ≡ record {
          responses = c.responses ++ entry_of source o ∷ [];
          excluded = c.excluded ++ excluded_in source (candidates_of o);
          eligible = c.eligible ++ eligible_in source (candidates_of o);
        }
    collect_outcome_lem source (rejected name) c = rw (append-nil c.excluded, append-nil c.eligible)
    collect_outcome_lem source (fulfilled s) c =
        collect_candidates_lem source s.candidates
          (record c { responses = c.responses ++ s.summary ∷ [] })

    pub collect_lem :
        (adapters : List Adapter) (c : Collected)
        → collect cut exclusions timeout adapters c ≡ record {
          responses = c.responses ++ entries adapters;
          excluded = c.excluded ++ all_excluded adapters;
          eligible = c.eligible ++ all_eligible adapters;
        }
    unfolding collect
    collect_lem [] c = rw (append-nil c.responses, append-nil c.excluded, append-nil c.eligible)
    collect_lem (a ∷ as') c =
        rw (collect_outcome_lem a.source (fetch_one cut timeout a) c, collect)
          (collect_lem as' (record {
            responses = c.responses ++ entry_of a.source (fetch_one cut timeout a) ∷ [];
            excluded = c.excluded ++ excluded_in a.source (answer_of a);
            eligible = c.eligible ++ eligible_in a.source (answer_of a);
          })
            ∙ rw (append_assoc c.responses, append_assoc c.excluded, append_assoc c.eligible))

-- ===== src/Demand/Mediate/Laws.antt =====
-- The selection and the trace of `mediate`.
use adgate.Prelude.{
  ℕ, ◌+◌, String, ◌≡◌, refl, ap, ◌∙◌, Option, none, some, List, [], ◌∷◌, ◌++◌, map, arith, or_else,
  length, length-append,
}
use adgate.Schema.{DemandSource, Candidate, DemandResponseSummary}
use adgate.Demand.Mediate.{
  Adapter, EligibleCandidate, Outcome, fulfilled, rejected, summarize, fetch_one, requested_of,
  mediate_or_throw, failed_all, mediate, winner_of, candidate_of, source_of, nothing_collected,
  default_demand_timeout_ms,
}
use adgate.Demand.Mediate.Selection.{
  eligible_in, excluded_in, answer_of, entry_of, entries, all_eligible, all_excluded, collect_lem,
  candidates_of,
}
use adgate.Demand.Mediate.Settled.{Reported, fetch_one-Reported}
use adgate.Demand.Mediate.Winner.{IsWinner, winner_lem, ranked}

module _ (cut : String → String) where
  -- The closed form of the mediation's result.
  mediate_or_throw_lem :
      (adapters : List Adapter) (policy_exclusions request_exclusions : List String)
      (timeout_ms : Option ℕ)
      → mediate_or_throw cut adapters policy_exclusions request_exclusions timeout_ms ≡ (
          let exclusions = policy_exclusions ++ request_exclusions in
          let timeout = or_else timeout_ms default_demand_timeout_ms in
          let winner = winner_of (ranked cut exclusions timeout adapters) in
          record {
            selected = candidate_of winner;
            selected_source = source_of winner;
            trace = record {
              requested = requested_of adapters;
              responses = entries cut exclusions timeout adapters;
              excluded = all_excluded cut exclusions timeout adapters;
              selected = source_of winner;
            };
          })
  unfolding mediate_or_throw
  mediate_or_throw_lem adapters p r t =
      rw (collect_lem cut (p ++ r) (or_else t default_demand_timeout_ms) adapters nothing_collected)

  -- Mediation that does not throw selects a candidate of one of the adapters' answers whose advertiser neither the
  -- policy nor the request excludes, and which no other such candidate outranks; it selects nothing
  -- only where there is no such candidate. The result and the trace name the winner's source.
  pub mediate-IsWinner :
      (adapters : List Adapter) (policy_exclusions request_exclusions : List String)
      (timeout_ms : Option ℕ)
      → (winner : Option EligibleCandidate) × IsWinner cut
          (policy_exclusions ++ request_exclusions)
          (or_else timeout_ms default_demand_timeout_ms)
          adapters
          winner
        × (let result = mediate cut none adapters policy_exclusions request_exclusions timeout_ms in
            (result.selected ≡ candidate_of winner)
            × (result.selected_source ≡ source_of winner)
            × (result.trace.selected ≡ source_of winner))
  unfolding mediate
  mediate-IsWinner adapters p r t =
      let e = mediate_or_throw_lem adapters p r t in
      (
        winner_of (ranked cut (p ++ r) (or_else t default_demand_timeout_ms) adapters),
        winner_lem cut (p ++ r) (or_else t default_demand_timeout_ms) adapters,
        (ap (λ x. x.selected) e, ap (λ x. x.selected_source) e, ap (λ x. x.trace.selected) e),
      )

  entry_of-source :
      (exclusions : List String) (timeout : ℕ) (adapter : Adapter)
      → (entry_of cut exclusions timeout adapter.source (fetch_one cut timeout adapter)).source
        ≡ adapter.source
  unfolding summarize
  entry_of-source exclusions timeout adapter =
      by_outcome (fetch_one cut timeout adapter) (fetch_one-Reported cut timeout adapter)
    where
      by_outcome :
          (o : Outcome)
          → Reported cut adapter.source o
          → (entry_of cut exclusions timeout adapter.source o).source ≡ adapter.source
      by_outcome (rejected name) h = refl
      by_outcome (fulfilled s) h = h.0

  entries-sources :
      (exclusions : List String) (timeout : ℕ) (adapters : List Adapter)
      → map (λ entry. entry.source) (entries cut exclusions timeout adapters)
        ≡ requested_of adapters
  entries-sources exclusions timeout [] = refl
  entries-sources exclusions timeout (a ∷ as') =
      rw (entry_of-source exclusions timeout a, entries-sources exclusions timeout as')

  failed_all-sources :
      (name : String) (sources : List DemandSource)
      → map (λ entry. entry.source) (map (λ source. summarize cut source 0 0 (some name)) sources)
        ≡ sources
  unfolding summarize
  failed_all-sources name [] = refl
  failed_all-sources name (s ∷ ss) = ap (λ l. s ∷ l) (failed_all-sources name ss)

  -- Whether mediation fails as a whole or not, the trace has one response entry for each requested
  -- source, in the adapters' order.
  pub mediate-responses :
      (thrown : Option String) (adapters : List Adapter)
      (policy_exclusions request_exclusions : List String) (timeout_ms : Option ℕ)
      → (let trace =
            (mediate cut thrown adapters policy_exclusions request_exclusions timeout_ms).trace in
          (trace.requested ≡ requested_of adapters)
          × (map (λ entry. entry.source) trace.responses ≡ requested_of adapters))
  unfolding mediate
  mediate-responses none adapters p r t =
      let e = mediate_or_throw_lem adapters p r t in
      (
        ap (λ x. x.trace.requested) e,
        ap (λ x. map (λ entry. entry.source) x.trace.responses) e
            ∙ entries-sources (p ++ r) (or_else t default_demand_timeout_ms) adapters,
      )
  mediate-responses (some name) adapters p r t =
      unfold failed_all in (refl, failed_all-sources _ (requested_of adapters))

  -- How many candidates the sources answered with, by the trace.
  abbrev pub tally : List DemandResponseSummary → ℕ
  tally [] = 0
  tally (entry ∷ responses) = entry.candidates + tally responses

  split-length :
      (exclusions : List String) (source : DemandSource) (cs : List Candidate)
      → length cs
        ≡ length (excluded_in cut exclusions source cs)
          + length (eligible_in cut exclusions source cs)
  split-length exclusions source [] = omega arith
  split-length exclusions source (c ∷ cs) = ground (arith, split-length exclusions source cs)

  entry_of-candidates :
      (exclusions : List String) (timeout : ℕ) (adapter : Adapter)
      → (let entry =
            entry_of cut exclusions timeout adapter.source (fetch_one cut timeout adapter) in
          entry.candidates)
        ≡ length (answer_of cut exclusions timeout adapter)
  unfolding summarize
  entry_of-candidates exclusions timeout adapter =
      by_outcome (fetch_one cut timeout adapter) (fetch_one-Reported cut timeout adapter)
    where
      by_outcome :
          (o : Outcome)
          → Reported cut adapter.source o
          → (let entry = entry_of cut exclusions timeout adapter.source o in entry.candidates)
            ≡ length (candidates_of o)
      by_outcome (rejected name) h = refl
      by_outcome (fulfilled s) h = h.1

  entries-tally :
      (exclusions : List String) (timeout : ℕ) (adapters : List Adapter)
      → tally (entries cut exclusions timeout adapters)
        ≡ length (all_excluded cut exclusions timeout adapters)
          + length (all_eligible cut exclusions timeout adapters)
  entries-tally exclusions timeout [] = omega arith
  entries-tally exclusions timeout (a ∷ as') = omega (
    arith,
    entries-tally exclusions timeout as',
    entry_of-candidates exclusions timeout a,
    split-length exclusions a.source (answer_of cut exclusions timeout a),
    length-append (excluded_in cut exclusions a.source (answer_of cut exclusions timeout a))
        (all_excluded cut exclusions timeout as'),
    length-append (eligible_in cut exclusions a.source (answer_of cut exclusions timeout a))
        (all_eligible cut exclusions timeout as'),
  )

  -- If mediation does not throw, every candidate that the trace counts is listed as excluded or was eligible.
  pub mediate-tally :
      (adapters : List Adapter) (policy_exclusions request_exclusions : List String)
      (timeout_ms : Option ℕ)
      → (let trace =
            (mediate cut none adapters policy_exclusions request_exclusions timeout_ms).trace in
          tally trace.responses
          ≡ length trace.excluded
            + length (
                all_eligible cut
                  (policy_exclusions ++ request_exclusions)
                  (or_else timeout_ms default_demand_timeout_ms)
                  adapters))
  unfolding mediate
  mediate-tally adapters p r t =
      rw (mediate_or_throw_lem adapters p r t)
        (entries-tally (p ++ r) (or_else t default_demand_timeout_ms) adapters)

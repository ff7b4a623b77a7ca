-- ===== src/Demand/Mediate/Settled.antt =====
-- How one adapter settles: the first event decides, and later ones are ignored.
use adgate.Prelude.{ℕ, String, ◌≡◌, refl, some, List, [], ◌∷◌, ◌++◌, length}
use adgate.Schema.{DemandSource}
use adgate.Demand.Mediate.{
  SettledAdapter, Event, answers, times_out, Behaviour, aborted_before, runs, throws, Adapter,
  Outcome, fulfilled, rejected, summarize, settle, run_events, fetch_one,
}

module _ (cut : String → String) where
  run_events-done :
      (source : DemandSource) (timeout : ℕ) (done : SettledAdapter) (events : List Event)
      → run_events cut source timeout (some done) events ≡ some done
  unfolding run_events
  run_events-done source timeout done [] = refl
  run_events-done source timeout done (e ∷ events) = run_events-done source timeout done events

  abbrev pub first_event : List Event → Event
  first_event [] = times_out
  first_event (e ∷ events) = e

  -- An adapter that runs settles with its first event, be it an answer, a failure or the caller's
  -- abort, and with the timer if nothing happens before it; whatever comes later changes nothing.
  pub fetch_one-runs :
      (timeout : ℕ) (source : DemandSource) (events : List Event)
      → fetch_one cut timeout (record { source = source; behaviour = runs events })
        ≡ fulfilled (settle cut source timeout (first_event events))
  unfolding fetch_one run_events
  fetch_one-runs timeout source [] = refl
  fetch_one-runs timeout source (e ∷ events) = rw (
    run_events-done source timeout (settle cut source timeout e) (events ++ times_out ∷ []),
    fetch_one,
  )

  -- What an outcome says about the candidates and the source of its job.
  abbrev pub Reported : DemandSource → Outcome → Type 0
  Reported source (rejected name) = Unit {0}
  Reported source (fulfilled s) =
      (s.summary.source ≡ source) × (s.summary.candidates ≡ length s.candidates)

  settle-Reported :
      (source : DemandSource) (timeout : ℕ) (e : Event)
      → Reported source (fulfilled (settle cut source timeout e))
  unfolding settle summarize
  settle-Reported source timeout (answers cs l e) = (refl, refl)
  settle-Reported source timeout _ = (refl, refl)

  -- The entry of a job in the trace names the job's source and counts the candidates that it gave.
  pub fetch_one-Reported :
      (timeout : ℕ) (adapter : Adapter) → Reported adapter.source (fetch_one cut timeout adapter)
  fetch_one-Reported timeout adapter = by_behaviour adapter.source adapter.behaviour
    where
      by_behaviour :
          (source : DemandSource) (b : Behaviour)
          → Reported source (fetch_one cut timeout (record { source = source; behaviour = b }))
      by_behaviour source (aborted_before l) = unfold fetch_one summarize in (refl, refl)
      by_behaviour source (runs events) =
          rw (fetch_one-runs timeout source events)
            (settle-Reported source timeout (first_event events))
      by_behaviour source (throws name) = unfold fetch_one in tt

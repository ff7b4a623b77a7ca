-- ===== src/Demand/Match/Direct.antt =====
-- packages/core/src/demand/direct.ts: the candidates of the app's own catalog.
pub mod Laws
use adgate.Prelude.{
  ℕ, String, Bool, true, false, not, Option, none, some, or_else, List, [], ◌∷◌, ◌++◌,
  if◌then◌else◌, eqb, ◌==◌,
}
use adgate.Schema.{
  CatalogCreative, Candidate, DemandRequest, DemandResponse, DemandSource, direct, source_eq,
}
use adgate.Demand.Ranking.{rank_candidates, max_candidates}
use adgate.Demand.Match.{match_score, normalize_keywords}

module _ (normalize : String → String) where
  abbrev pub to_candidate : CatalogCreative → ℕ → Candidate
  to_candidate creative score = record {
    creative = creative;
    ecpm_estimate = creative.ecpm;
    targeting_match = score;
    resolved_url = some creative.url_template;
  }

  -- The loop over the catalog, with the candidates so far.
  unfoldable pub direct_candidates :
      DemandRequest → List String → List Candidate → List CatalogCreative → List Candidate
  direct_candidates req request_keywords candidates [] = candidates
  direct_candidates req request_keywords candidates (creative ∷ catalog) =
      direct_candidates req request_keywords
        (if not (creative.source == direct)
          then candidates
          else if eqb (match_score normalize creative req request_keywords) 0
          then candidates
          else candidates
            ++ to_candidate creative (match_score normalize creative req request_keywords) ∷ [])
        catalog

  unfoldable pub select_direct_candidates : List CatalogCreative → DemandRequest → List Candidate
  select_direct_candidates catalog req =
      let request_keywords = normalize_keywords normalize (or_else req.keywords []) in
      rank_candidates (direct_candidates req request_keywords [] catalog) max_candidates

  abbrev pub demand_response : DemandSource → List Candidate → ℕ → Option String → DemandResponse
  demand_response source candidates latency error = record {
    response_source = source;
    candidates = candidates;
    latency_ms = latency;
    error = error;
  }

  -- `fetch`: whether the signal is aborted, what the selection threw, if it did, and the clock's latency.
  unfoldable pub direct_fetch :
      Bool → Option String → ℕ → List CatalogCreative → DemandRequest → DemandResponse
  direct_fetch true thrown latency catalog req = demand_response direct [] latency (some "aborted")
  direct_fetch false (some name) latency catalog req = demand_response direct [] latency (some name)
  direct_fetch false none latency catalog req =
      demand_response direct (select_direct_candidates catalog req) latency none

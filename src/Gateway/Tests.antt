-- ===== src/Gateway/Tests.antt =====
-- The gateway's theorems at two calls of one conversation that overlap.
use adgate.Prelude.{◌≡◌, ◌⊎◌, true, false, Bool, none, some, List, [], ◌∷◌, string_eq}
use adgate.Schema.{error, direct}
use adgate.Audit.Record.{suppress}
use adgate.Audit.Build.{empty_demand_trace}
use adgate.Demand.Mediate.{MediationResult}
use adgate.Gateway.Store.{Store}
use adgate.Gateway.Store.Laws.{Linked}
use adgate.Gateway.Evaluate.{Turn, EvaluateResponse, evaluate}
use adgate.Gateway.Evaluate.Caps.{Call, evaluate_all, evaluate_all-Linked}
use adgate.Gateway.Evaluate.Responds.{Told, evaluate-Told}
use adgate.Samples.{input, candidate, platform, base}

abbrev mediated : MediationResult
mediated = record {
  selected = some candidate;
  selected_source = some direct;
  trace = empty_demand_trace;
}

abbrev turn : Turn
turn = record {
  threw = false;
  base = base;
  policy_input = input;
  mediated = mediated;
  key = record { conversation_hash = "c1"; user_hash = some "u1"; day = "2026-01-01" };
  raw_text = none;
  commits = true;
  latency = 12;
  error_id = "aud_2";
  error_base = base;
  error_commits = true;
}

abbrev empty_store : Store
empty_store = record { audits = []; cap_rows = λ k. none; day_counts = λ u d. 0; raw_texts = [] }

abbrev all_fields_ok : EvaluateResponse → Bool
all_fields_ok r = true

-- Both calls read the caps before either has served.
abbrev calls : List Call
calls =
    record { turn = turn; before = empty_store } ∷ record { turn = turn; before = empty_store } ∷ []

chain_example :
    Linked
      (evaluate_all platform all_fields_ok "rules-1" "https://ads.test" calls empty_store).audits
chain_example =
    evaluate_all-Linked platform all_fields_ok "rules-1" "https://ads.test" calls empty_store tt

answer_example :
    (let result =
        evaluate platform all_fields_ok "rules-1" "https://ads.test" turn empty_store empty_store in
      Told platform all_fields_ok "rules-1" "https://ads.test" turn empty_store result.response
        result.store
      ⊎ ((result.response.decision ≡ suppress) × (result.response.reason ≡ some error)))
answer_example =
    evaluate-Told platform all_fields_ok "rules-1" "https://ads.test" turn empty_store empty_store

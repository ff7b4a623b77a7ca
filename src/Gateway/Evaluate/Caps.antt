-- ===== src/Gateway/Evaluate/Caps.antt =====
-- The caps and the chain over the turns of an app, in whatever order they come.
use adgate.Prelude.{ℕ, ◌≤◌, String, ◌≡◌, Bool, none, List, [], ◌∷◌}
use adgate.Audit.Chain.{Platform}
use adgate.Policy.Evaluate.Servable.{Servable}
use adgate.Gateway.Store.{Store, read_cap_state}
use adgate.Gateway.Store.Laws.{Linked, persist_lem, persist-Linked}
use adgate.Gateway.Evaluate.{EvaluateResponse, Turn, evaluate}
use adgate.Gateway.Evaluate.Laws.{build_turn_lem, build_error_lem}
use adgate.Gateway.Evaluate.Keeps.{evaluate-keeps}

-- A turn, and the state of the store in which it read the caps before its transaction.
pub record Call : Type 0 where
  pub turn : Turn
  pub before : Store

module _ (platform : Platform) (fields_ok : EvaluateResponse → Bool)
    (rules_version public_base_url : String) where
  -- The calls of an app, in the order of their transactions.
  abbrev pub evaluate_all : List Call → Store → Store
  evaluate_all [] store = store
  evaluate_all (call ∷ calls) store =
      evaluate_all calls
        (evaluate platform fields_ok rules_version public_base_url call.turn call.before
          store).store

  evaluate-Linked :
      (turn : Turn) (before now : Store)
      → Linked now.audits
      → Linked
          (evaluate platform fields_ok rules_version public_base_url turn before now).store.audits
  evaluate-Linked turn before now linked =
      evaluate-keeps platform fields_ok rules_version public_base_url turn
        (λ store. Linked store.audits)
        (λ evaluation store p done l.
          persist-Linked _ turn.key turn.raw_text turn.commits store p done
            (build_turn_lem platform fields_ok rules_version public_base_url turn evaluation _ _ _
              (persist_lem _ turn.key turn.raw_text turn.commits store p done).0).0
            l)
        (λ store p done l.
          persist-Linked _ turn.key none turn.error_commits store p done
            (build_error_lem platform fields_ok rules_version public_base_url turn _
              (read_cap_state store turn.key) _
              (persist_lem _ turn.key none turn.error_commits store p done).0).0
            l)
        before now linked

  -- If the app's chain starts out linked, then however the calls overlap each record of the app's chain names the hash of the one before it,
  -- and the numbers of the records have no gap.
  pub evaluate_all-Linked :
      (calls : List Call) (store : Store)
      → Linked store.audits
      → Linked (evaluate_all calls store).audits
  evaluate_all-Linked [] store linked = linked
  evaluate_all-Linked (call ∷ calls) store linked =
      evaluate_all-Linked calls
        (evaluate platform fields_ok rules_version public_base_url call.turn call.before
          store).store
        (evaluate-Linked call.turn call.before store linked)

  -- The policy of each call of the conversation allows at most `n` ads in a session.
  abbrev pub CappedAt : String → ℕ → List Call → Type 0
  CappedAt conversation n [] = Unit {0}
  CappedAt conversation n (call ∷ calls) =
      (call.turn.key.conversation_hash ≡ conversation
        → call.turn.policy_input.policy.frequency_caps.per_session ≤ n)
      × CappedAt conversation n calls

-- ===== src/Tests/Placement.antt =====
-- Runs of the decision store and of the status of a profile, and the theorems on them, at concrete
-- data.
use hiro_adaptive_orchestrat.Base.{
  ◌≡◌, ◌↔◌, ◌&&◌, refl, ltb, String, true, List, [], ◌∷◌, length, map, none, some, pos,
  if◌then◌else◌,
}
use hiro_adaptive_orchestrat.Types.{RebalanceAction, active, partial, no_pods}
use hiro_adaptive_orchestrat.Cluster.{Pod, PodPhase}
use hiro_adaptive_orchestrat.Placement.Store.{
  DecisionStore, new_decision_store, put, lookup, unexpired,
}
use hiro_adaptive_orchestrat.Placement.Store.History.{StoreOp, put_op, run, latest, lookup-run}
use hiro_adaptive_orchestrat.Placement.Hint.{
  decision_store_response, score_for, usable, has_node, decision_store_response-scores,
}
use hiro_adaptive_orchestrat.Placement.Store.{DecisionStoreEntry}
use hiro_adaptive_orchestrat.Controller.Status.{
  build_placement_status, derive_profile_status, has_ready_condition, status_of, all_up,
  status_of-active,
}
use hiro_adaptive_orchestrat.Tests.Data.{profile, pod}

abbrev store : DecisionStore
store = new_decision_store (pos 60)

abbrev history : List StoreOp
history = put_op 100 "/shop" "shop-1" RebalanceAction.move "green" "greener" "d2" ∷ []

abbrev entry : DecisionStoreEntry
entry = record {
  pod_name = "shop-1";
  action = RebalanceAction.move;
  target_node = "green";
  reason = "greener";
  decision_id = "d2";
  expires_at = 160;
}

in_time : (lookup (run store history) 160 "/shop").0 ≡ some entry
unfolding run lookup put new_decision_store
in_time = refl

too_late : (lookup (run store history) 161 "/shop").0 ≡ none
unfolding run lookup put new_decision_store
too_late = refl

lookup-run_example :
    ((lookup (run store history) 130 "/shop").0 ≡ unexpired 130 (latest store "/shop" history))
    × ((lookup (lookup (run store history) 130 "/shop").1 131 "/shop").0 ≡ none)
lookup-run_example = lookup-run store history 130 131 "/shop"

abbrev candidates : List String
candidates = "brown" ∷ "green" ∷ []

decision_store_response-scores_example : decision_store_response "r1" candidates (some entry) ≡ (
    if usable entry && has_node "green" candidates
    then some (record {
      request_id = "r1";
      node_scores = map (score_for "green") candidates;
      reason = "rebalance decision d2: greener";
    })
    else none)
decision_store_response-scores_example = decision_store_response-scores "r1" candidates entry

abbrev up : Pod
up = record (pod "shop-1" "green") {
  conditions = record { type = "Ready"; status = "True"; reason = ""; message = "" } ∷ [];
}

abbrev waiting : Pod
waiting = record (pod "shop-2" "") { phase = PodPhase.pending_phase }

one_up : status_of profile (up ∷ []) ≡ active
unfolding build_placement_status derive_profile_status has_ready_condition
one_up = refl

one_waits : status_of profile (up ∷ waiting ∷ []) ≡ partial
unfolding build_placement_status derive_profile_status has_ready_condition
one_waits = refl

status_of-active_example :
    ((status_of profile (up ∷ waiting ∷ []) ≡ active)
      ↔ ((ltb 0 2 && all_up (up ∷ waiting ∷ [])) ≡ true))
    × ((status_of profile (up ∷ waiting ∷ []) ≡ no_pods) ↔ (length (up ∷ waiting ∷ []) ≡ 0))
status_of-active_example = status_of-active profile (up ∷ waiting ∷ [])

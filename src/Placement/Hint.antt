-- ===== src/Placement/Hint.antt =====
-- internal/placement-server/server.go: the answer that a waiting decision gives in place of the
-- agent's.
use hiro_adaptive_orchestrat.Base.{
  ◌≡◌, refl, ◌<>◌, String, str_eq, is_empty, Bool, true, false, not, ◌&&◌, ◌||◌, List, [], ◌∷◌,
  Option, none, some, map, pos, float_of, if◌then◌else◌,
}
use hiro_adaptive_orchestrat.Types.{RebalanceAction}
use hiro_adaptive_orchestrat.Placement.Store.{DecisionStoreEntry}
use hiro_adaptive_orchestrat.Placement.Types.{NodeScore, DecisionResponse}

abbrev pub is_move : RebalanceAction → Bool
is_move RebalanceAction.move = true
is_move _ = false

-- The loop over the candidates: the scores, and whether the target is one of them.
unfoldable pub score_candidates : String → List String → List NodeScore × Bool
score_candidates target [] = ([], false)
score_candidates target (node ∷ nodes) =
    let rest = score_candidates target nodes in
    if str_eq node target
    then (record { node_name = node; score = float_of 100 } ∷ rest.0, true)
    else (record { node_name = node; score = pos 0 } ∷ rest.0, rest.1)

abbrev pub usable : DecisionStoreEntry → Bool
usable entry = is_move entry.action && not (is_empty entry.target_node)

-- `decisionStoreResponse`, from the answer of the store on.
unfoldable pub decision_store_response :
    String → List String → Option DecisionStoreEntry → Option DecisionResponse
unfolding score_candidates
decision_store_response request_id candidates none = none
decision_store_response request_id candidates (some entry) =
    let scored = score_candidates entry.target_node candidates in
    if usable entry && scored.1
    then some (record {
      request_id = request_id;
      node_scores = scored.0;
      reason = "rebalance decision " <> entry.decision_id <> ": " <> entry.reason;
    })
    else none

-- The score of a candidate, and whether the candidates have the target.
abbrev pub score_for : String → String → NodeScore
score_for target node = record {
  node_name = node;
  score = if str_eq node target then float_of 100 else pos 0;
}

abbrev pub has_node : String → List String → Bool
has_node target [] = false
has_node target (node ∷ nodes) = str_eq node target || has_node target nodes

score_candidates-map :
    (target : String) (nodes : List String)
    → score_candidates target nodes ≡ (map (score_for target) nodes, has_node target nodes)
unfolding score_candidates
score_candidates-map target [] = refl
score_candidates-map target (node ∷ nodes) =
    rw (score_candidates-map target nodes) (one (str_eq node target))
  where
    one :
        (b : Bool)
        → ◌≡◌ {A = List NodeScore × Bool}
            (if b
              then (
                record { node_name = node; score = float_of 100 } ∷ map (score_for target) nodes,
                true,
              )
              else (
                record { node_name = node; score = pos 0 } ∷ map (score_for target) nodes,
                has_node target nodes,
              ))
            (
              record { node_name = node; score = if b then float_of 100 else pos 0 }
                  ∷ map (score_for target) nodes,
              b || has_node target nodes,
            )
    one true = refl
    one false = refl

-- A waiting decision answers in place of the agent exactly if it is a Move with a target that is
-- among the candidates; the answer then scores every candidate, in order: the target with 100, all
-- others with 0.
pub decision_store_response-scores :
    (request_id : String) (candidates : List String) (entry : DecisionStoreEntry)
    → decision_store_response request_id candidates (some entry) ≡ (
        if usable entry && has_node entry.target_node candidates
        then some (record {
          request_id = request_id;
          node_scores = map (score_for entry.target_node) candidates;
          reason = "rebalance decision " <> entry.decision_id <> ": " <> entry.reason;
        })
        else none)
unfolding decision_store_response
decision_store_response-scores request_id candidates entry =
    rw (score_candidates-map entry.target_node candidates) refl

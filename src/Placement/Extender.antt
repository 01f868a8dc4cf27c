-- ===== src/Placement/Extender.antt =====
-- internal/placement-server/extender.go and extender_types.go: the routes of the default scheduler.
pub mod Priorities
pub mod Hinted
pub mod Steering
pub mod Filter
use hiro_adaptive_orchestrat.Base.{
  ℕ, ◌*◌, ◌/◌, ◌^◌, ltb, leb_ℤ, String, str_eq, Bool, if◌then◌else◌, List, [], ◌∷◌, map, Option,
  none, some, ℤ, pos, negsuc, float_of, Result, Error, ok, err, Exit, returned, panicked,
}
use hiro_adaptive_orchestrat.Cluster.{Pod, Node}
use hiro_adaptive_orchestrat.Io.{Prog, ret, ◌>>=◌}
use hiro_adaptive_orchestrat.Placement.Types.{NodeScore, DecisionResponse, EnergyGateResponse}
use hiro_adaptive_orchestrat.Placement.Server.{
  PlacementServer, Request, Reply, on_post, score, filter, or_allow,
}

-- `ExtenderArgs` and `ExtenderFilterResult`, without the names of nodes, which are nil here. The map
-- of failed nodes is a list of its entries.
pub record ExtenderArgs : Type 0 where
  pub pod : Option Pod
  pub nodes : Option (List Node)

pub record ExtenderFilterResult : Type 0 where
  pub nodes : List Node
  pub failed_nodes : List (String × String)
  pub error : String

pub record HostPriority : Type 0 where
  pub host : String
  pub score : ℤ

-- `int64(score / 10)`, for a score in between. Rounding the quotient to a float64 does not reach the
-- next whole number: a float64 below ten times the number is below it by at least 8 times the
-- distance of the float64s at the number, of which a tenth is more than half of that distance.
abbrev pub tenth : ℤ → ℤ
tenth (pos n) = pos (n / (10 * 2 ^ 1074))
tenth (negsuc n) = pos 0

-- `normalizeScore`
unfoldable pub normalize_score : ℤ → ℤ
normalize_score x =
    if leb_ℤ x (pos 0) then pos 0 else if leb_ℤ (float_of 100) x then pos 10 else tenth x

-- The map of the scores: the last of a name counts.
unfoldable pub score_of : String → List NodeScore → Option ℤ
score_of name [] = none
score_of name (s ∷ scores) = elim (score_of name scores) [
  | some x ↦ some x
  | none ↦ if str_eq name s.node_name then some s.score else none
]

abbrev pub or_neutral : Option ℤ → ℤ
or_neutral none = float_of 50
or_neutral (some x) = x

abbrev pub priority : List NodeScore → Node → HostPriority
priority scores node = record {
  host = node.name;
  score = normalize_score (or_neutral (score_of node.name scores));
}

-- `nodeScoresToHostPriorities`
unfoldable pub node_scores_to_host_priorities : List NodeScore → List Node → List HostPriority
unfolding score_of normalize_score
node_scores_to_host_priorities scores = map (priority scores)

-- `equalPriorities`
unfoldable pub equal_priorities : List Node → List HostPriority
equal_priorities = map (λ node. record { host = node.name; score = pos 5 })

-- An assignment to the map of failed nodes.
unfoldable pub put_failed : String → String → List (String × String) → List (String × String)
put_failed name reason [] = (name, reason) ∷ []
put_failed name reason (entry ∷ entries) =
    let rest = put_failed name reason entries in
    if str_eq name (entry.0) then (name, reason) ∷ entries else entry ∷ rest

-- The loop over the nodes that are left.
unfoldable pub fail_nodes : String → List Node → List (String × String) → List (String × String)
unfolding put_failed
fail_nodes reason [] failed = failed
fail_nodes reason (node ∷ nodes) failed =
    fail_nodes reason nodes (put_failed node.name reason failed)

unfoldable pub filter_result : EnergyGateResponse → List Node → ExtenderFilterResult
unfolding fail_nodes
filter_result gate nodes =
    if gate.allowed
    then record { nodes = nodes; failed_nodes = []; error = "" }
    else record { nodes = []; failed_nodes = fail_nodes gate.reason nodes []; error = "" }

abbrev pub priorities_for : List Node → Exit (Result DecisionResponse) → Exit (List HostPriority)
priorities_for nodes panicked = panicked
priorities_for nodes (returned (err e)) = returned (equal_priorities nodes)
priorities_for nodes (returned (ok resp)) =
    returned (node_scores_to_host_priorities resp.node_scores nodes)

abbrev pub reply_of : {A : Type 0} → String → Exit A → Exit (Reply A)
reply_of id panicked = panicked
reply_of id (returned a) = returned (Reply.json_reply id a)

-- What a route of the extender does, once it has a pod and nodes.
abbrev pub on_args :
    {B : Type 0}
    → Option Pod
    → Option (List Node)
    → (Pod → List Node → Prog (Exit (Reply B)))
    → Prog (Exit (Reply B))
on_args (some pod) (some nodes) k = k pod nodes
on_args (some pod) none k = ret (returned (Reply.error_reply 400 "pod and nodes are required"))
on_args none nodes k = ret (returned (Reply.error_reply 400 "pod and nodes are required"))

module _ (s : PlacementServer) where
  abbrev filter_reply :
      List Node → String → EnergyGateResponse × Option Error → Reply ExtenderFilterResult
  filter_reply nodes id gate = Reply.json_reply id (filter_result (or_allow s gate) nodes)

  unfoldable pub filter_args : ExtenderArgs → Prog (Exit (Reply ExtenderFilterResult))
  unfolding filter_result
  filter_args args =
      on_args args.pod args.nodes
        (λ pod nodes. filter s pod >>= (λ gate. ret (returned (filter_reply nodes pod.uid gate))))

  -- `handleExtenderFilter`
  unfoldable pub handle_extender_filter :
      Request ExtenderArgs → Prog (Exit (Reply ExtenderFilterResult))
  unfolding filter_args
  handle_extender_filter = on_post filter_args

  unfoldable pub prioritize_args : ExtenderArgs → Prog (Exit (Reply (List HostPriority)))
  unfolding node_scores_to_host_priorities equal_priorities
  prioritize_args args = on_args args.pod args.nodes (λ pod nodes.
      score s pod nodes pod.uid >>= (λ x. ret (reply_of pod.uid (priorities_for nodes x))))

  -- `handleExtenderPrioritize`
  unfoldable pub handle_extender_prioritize :
      Request ExtenderArgs → Prog (Exit (Reply (List HostPriority)))
  unfolding prioritize_args
  handle_extender_prioritize = on_post prioritize_args

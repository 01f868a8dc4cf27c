-- ===== src/Placement/Extender/Priorities.antt =====
-- internal/placement-server/extender.go: the scores that the scheduler gets.
use hiro_adaptive_orchestrat.Base.{
  ◌≡◌, refl, ap, ◌⊎◌, inl, inr, String, Bool, true, ◌&&◌, List, [], ◌∷◌, map, All, ℤ, pos, leb_ℤ,
  Result, ok, err, Exit, returned, panicked, arith,
}
use hiro_adaptive_orchestrat.Cluster.{Pod, Node}
use hiro_adaptive_orchestrat.Io.Wp.{Wp, Wp-bind, Wp_always}
use hiro_adaptive_orchestrat.Placement.Types.{DecisionResponse}
use hiro_adaptive_orchestrat.Placement.Server.{PlacementServer, Reply, score}
use hiro_adaptive_orchestrat.Placement.Extender.{
  HostPriority, normalize_score, score_of, or_neutral, node_scores_to_host_priorities,
  equal_priorities, priorities_for, reply_of, prioritize_args, handle_extender_prioritize,
}
use hiro_adaptive_orchestrat.Placement.Extender.Filter.{scheduler_post}

-- The range of the extender protocol.
abbrev pub in_range : HostPriority → Bool
in_range p = leb_ℤ (pos 0) p.score && leb_ℤ p.score (pos 10)

normalize_score-in_range :
    (x : ℤ) → (leb_ℤ (pos 0) (normalize_score x) && leb_ℤ (normalize_score x) (pos 10)) ≡ true
unfolding normalize_score
normalize_score-in_range x = ground arith

-- One priority for each node, in their order, each in the range.
abbrev pub Fits : List Node → List HostPriority → Type 0
Fits nodes ps =
    (map (λ p. p.host) ps ≡ map (λ node. node.name) nodes) × All (λ p. in_range p ≡ true) ps

module _ (of : Node → ℤ)
    (fits : (node : Node) → (leb_ℤ (pos 0) (of node) && leb_ℤ (of node) (pos 10)) ≡ true) where
  map-Fits :
      (nodes : List Node)
      → Fits nodes (map (λ node. record { host = node.name; score = of node }) nodes)
  map-Fits [] = (refl, tt)
  map-Fits (node ∷ nodes) =
      let rest = map-Fits nodes in (ap (λ hosts. node.name ∷ hosts) rest.0, (fits node, rest.1))

abbrev pub Prioritized : List Node → String → Exit (Reply (List HostPriority)) → Type 0
Prioritized nodes id x =
    (x ≡ panicked)
    ⊎ ((ps : List HostPriority) × ((x ≡ returned (Reply.json_reply id ps)) × Fits nodes ps))

scored-Prioritized :
    (nodes : List Node) (id : String) (x : Exit (Result DecisionResponse))
    → Prioritized nodes id (reply_of id (priorities_for nodes x))
unfolding node_scores_to_host_priorities equal_priorities
scored-Prioritized nodes id panicked = inl refl
scored-Prioritized nodes id (returned (err e)) =
    inr (_, (refl, map-Fits (λ node. pos 5) (λ node. refl) nodes))
scored-Prioritized nodes id (returned (ok resp)) = inr (
  _,
  (
    refl,
    map-Fits (λ node. normalize_score (or_neutral (score_of node.name resp.node_scores)))
        (λ node. normalize_score-in_range (or_neutral (score_of node.name resp.node_scores))) nodes,
  ),
)

-- In every run of the extender's prioritize route on a pod and nodes, whatever its calls are
-- answered, and whatever scores the agent gives, the reply has one priority for each of the nodes, in
-- their order, each from 0 to 10; or else the scoring has panicked.
pub handle_extender_prioritize-Prioritized :
    (s : PlacementServer) (pod : Pod) (nodes : List Node)
    → Wp
        (handle_extender_prioritize s (scheduler_post pod nodes))
        []
        (λ past x. Prioritized nodes pod.uid x)
unfolding handle_extender_prioritize prioritize_args
handle_extender_prioritize-Prioritized s pod nodes =
    Wp-bind (score s pod nodes pod.uid) _ [] (λ past x. Prioritized nodes pod.uid x)
      (Wp_always (λ x. Prioritized nodes pod.uid (reply_of pod.uid (priorities_for nodes x)))
        (score s pod nodes pod.uid) [] (scored-Prioritized nodes pod.uid))

-- ===== src/Placement/Builder/Workload.antt =====
-- internal/placement-server/builder.go: what the agent is told of a workload to rebalance.
use hiro_adaptive_orchestrat.Base.{
  String, Bool, false, ◌&&◌, ◌||◌, str_eq, if◌then◌else◌, List, [], ◌∷◌, map, Option, none, some,
  Result, ok, wrap, Deps,
}
use hiro_adaptive_orchestrat.Types.{
  Time, RebalanceDecision, OrchestrationProfile, action_text, outcome_text,
}
use hiro_adaptive_orchestrat.Cluster.{Pod, Node, Condition, Container, ResourceList, Quantity}
use hiro_adaptive_orchestrat.Io.{Op, Prog, ret, op, ◌>>=◌}
use hiro_adaptive_orchestrat.Utils.{on_ok, find_pods_for_application}
use hiro_adaptive_orchestrat.Placement.Types.{
  ContainerInfo, PodPlacement, EaoProfileContext, RebalanceHistoryEntry, DecisionRequest,
}
use hiro_adaptive_orchestrat.Placement.Builder.{
  build_ao_profile_context, fetch_eao_profile_for_app, or_left_out,
}

-- Whether a node reports that it is ready.
unfoldable pub is_ready : List Condition → Bool
is_ready [] = false
is_ready (cond ∷ conds) = (str_eq cond.type "Ready" && str_eq cond.status "True") || is_ready conds

-- The loop of `listReadyNodes`.
unfoldable pub ready_among : List Node → List Node
unfolding is_ready
ready_among [] = []
ready_among (node ∷ nodes) =
    let rest = ready_among nodes in if is_ready node.conditions then node ∷ rest else rest

-- `listReadyNodes`
unfoldable pub list_ready_nodes : Prog (Result (List Node))
unfolding ready_among
list_ready_nodes =
    op Op.list_nodes >>= on_ok (wrap "listing nodes") (λ nodes. ret (ok (ready_among nodes)))

module _ (d : Deps) where
  -- `quantityString`: a quantity, of a resource list that may be nil.
  abbrev pub quantity_string : (ResourceList → Option Quantity) → Option ResourceList → String
  quantity_string pick none = ""
  quantity_string pick (some list) = elim (pick list) [ none ↦ "" | some q ↦ d.quantity q ]

  -- `buildContainerInfo`
  abbrev pub container_info : Container → ContainerInfo
  container_info c = record {
    name = c.name;
    cpu_request = quantity_string (λ list. list.cpu) c.requests;
    memory_request = quantity_string (λ list. list.memory) c.requests;
    cpu_limit = quantity_string (λ list. list.cpu) c.limits;
    memory_limit = quantity_string (λ list. list.memory) c.limits;
  }

  abbrev pub pod_placement : Pod → PodPlacement
  pod_placement pod = record {
    pod_name = pod.name;
    node_name = pod.node_name;
    phase = pod.phase_text;
    containers = map container_info pod.containers;
  }

  -- `buildCurrentPlacements`
  abbrev pub build_current_placements : List Pod → List PodPlacement
  build_current_placements = map pod_placement

  abbrev pub history_entry : RebalanceDecision → RebalanceHistoryEntry
  history_entry past = record {
    outcome = outcome_text past.outcome;
    action = action_text past.action;
    reason = past.reason;
    when = past.last_transition_at;
  }

  -- `convertRecentDecisions`
  abbrev pub convert_recent_decisions : List RebalanceDecision → List RebalanceHistoryEntry
  convert_recent_decisions = map history_entry

  -- The energy context, which an error leaves out.
  unfoldable pub energy_context : OrchestrationProfile → Prog (Option EaoProfileContext)
  energy_context profile =
      if profile.spec.placement.awareness.energy
      then fetch_eao_profile_for_app profile.spec.application_ref >>= (λ eao. ret (or_left_out eao))
      else ret none

  abbrev pub rebalance_request :
      OrchestrationProfile
      → String
      → String
      → List RebalanceDecision
      → List Pod
      → List Node
      → Option EaoProfileContext
      → Time
      → DecisionRequest
  rebalance_request profile id reason recent pods nodes eao now = record {
    request_id = id;
    timestamp = now;
    pod = none;
    candidate_nodes = nodes;
    ao_profile = build_ao_profile_context profile none;
    eao_profile = eao;
    rebalance_context = some (record {
      reason = reason;
      decision_id = id;
      current_placements = build_current_placements pods;
      recent_decisions = convert_recent_decisions recent;
    });
  }

  -- `BuildRebalanceContext`
  unfoldable pub build_rebalance_context :
      OrchestrationProfile
      → String
      → String
      → List RebalanceDecision
      → Prog (Result DecisionRequest)
  unfolding list_ready_nodes energy_context
  build_rebalance_context profile id reason recent =
      find_pods_for_application profile.spec.application_ref
      >>= on_ok (wrap "finding pods for rebalance context") (λ pods.
        list_ready_nodes
        >>= on_ok (wrap "listing candidate nodes for rebalance context") (λ nodes.
          energy_context profile >>= (λ eao.
            op Op.now
            >>= (λ now. ret (ok (rebalance_request profile id reason recent pods nodes eao now))))))

-- ===== src/Placement/Builder.antt =====
-- internal/placement-server/builder.go: what the agent is told of a pod and of a workload. The log
-- lines are left out, but for one that can panic.
pub mod Gate
pub mod Panics
pub mod Closed
pub mod Workload
use hiro_adaptive_orchestrat.Base.{
  String, ◌<>◌, Bool, true, false, ◌&&◌, ◌||◌, str_eq, is_empty, if◌then◌else◌, List, [], ◌∷◌, map,
  Option, none, some, ℤ, pos, Result, ok, err, wrap, failure, Exit, returned, panicked, Deps,
}
use hiro_adaptive_orchestrat.Types.{
  Time, ApplicationReference, RebalanceOutcome, RebalanceDecision, OrchestrationProfile,
}
use hiro_adaptive_orchestrat.Cluster.{
  Pod, Node, Condition, Container, ResourceList, Quantity, EnergyAwareOrchestration,
}
use hiro_adaptive_orchestrat.Io.{Op, Prog, ret, op, ◌>>=◌}
use hiro_adaptive_orchestrat.Utils.{
  on_ok, App, resolve_app_from_pod, find_eao_for_app, find_pods_for_application,
}
use hiro_adaptive_orchestrat.Placement.Types.{
  ContainerInfo, PodPlacement, AoProfileContext, EaoDecision, EaoEnergyMetrics, EaoProfileContext,
  RebalanceHistoryEntry, RebalanceContext, DecisionRequest,
}

-- The first item of a list.
abbrev first : {A : Type 0} → List A → Option A
first [] = none
first (x ∷ xs) = some x

-- What follows once the workload of a pod is known, of which the index has the profiles.
unfoldable pub profile_of_app : Deps → App → Prog (Result (Option OrchestrationProfile))
profile_of_app d app =
    if is_empty app.app_name
    then ret (ok none)
    else (let key = app.app_namespace <> "/" <> app.app_name in
        op (Op.list_indexed_profiles key)
        >>= on_ok (wrap ("index lookup for key " <> d.quote key)) (λ found. ret (ok (first found))))

-- `FindProfileForPod`
unfoldable pub find_profile_for_pod : Deps → Pod → Prog (Result (Option OrchestrationProfile))
unfolding profile_of_app
find_profile_for_pod d pod = resolve_app_from_pod pod >>= profile_of_app d

abbrev no_placement : PodPlacement
no_placement = record { pod_name = ""; node_name = ""; phase = ""; containers = [] }

-- `buildCurrentPlacement`
abbrev pub build_current_placement : Option Pod → PodPlacement
build_current_placement none = no_placement
build_current_placement (some pod) = record {
  pod_name = pod.name;
  node_name = pod.node_name;
  phase = pod.phase_text;
  containers = [];
}

-- `buildAOProfileContext`
unfoldable pub build_ao_profile_context : OrchestrationProfile → Option Pod → AoProfileContext
build_ao_profile_context profile pod = record {
  profile_name = profile.name;
  strategy = profile.spec.placement.strategy;
  awareness = record {
    cpu = profile.spec.placement.awareness.cpu;
    memory = profile.spec.placement.awareness.memory;
    gpu = profile.spec.placement.awareness.gpu;
    energy = profile.spec.placement.awareness.energy;
  };
  current_placement = build_current_placement pod;
  rebalancing = record {
    enabled = profile.spec.rebalancing.enabled;
    cooldown_seconds = profile.spec.rebalancing.cooldown_seconds;
    trigger_conditions = profile.spec.rebalancing.trigger_conditions;
  };
}

-- A number that is 0 where it is not found.
abbrev pub or_zero : Option ℤ → ℤ
or_zero none = pos 0
or_zero (some x) = x

abbrev pub eao_decision : EnergyAwareOrchestration → Option EaoDecision
eao_decision eao =
    if is_empty eao.decision_action
    then none
    else some (record {
      action = eao.decision_action;
      reason = eao.decision_reason;
      next_evaluation_time = eao.next_evaluation_time;
    })

abbrev metrics_of : EnergyAwareOrchestration → Bool → EaoEnergyMetrics
metrics_of eao sufficient = record {
  required_watts = or_zero eao.required_watts;
  sufficient = sufficient;
  current_slot_available_watts = or_zero eao.current_slot_available_watts;
  current_slot_consumed_watts = or_zero eao.current_slot_consumed_watts;
}

-- The metrics are there if the required watts are found, or whether they suffice; a `sufficient`
-- that is not found is false.
abbrev pub eao_metrics : EnergyAwareOrchestration → Option Bool → Option ℤ → Option EaoEnergyMetrics
eao_metrics eao (some sufficient) required = some (metrics_of eao sufficient)
eao_metrics eao none (some watts) = some (metrics_of eao false)
eao_metrics eao none none = none

-- `mapEAOToProfileContext`
unfoldable pub map_eao_to_profile_context : EnergyAwareOrchestration → EaoProfileContext
map_eao_to_profile_context eao = record {
  priority = eao.priority;
  energy_consumption_watts = or_zero eao.energy_consumption;
  decision = eao_decision eao;
  energy_metrics = eao_metrics eao eao.sufficient eao.required_watts;
}

-- The context of a resource that is found.
abbrev pub map_found : Option EnergyAwareOrchestration → Option EaoProfileContext
map_found none = none
map_found (some eao) = some (map_eao_to_profile_context eao)

-- `fetchEAOProfileForApp`
unfoldable pub fetch_eao_profile_for_app :
    ApplicationReference → Prog (Result (Option EaoProfileContext))
fetch_eao_profile_for_app ref =
    find_eao_for_app ref >>= on_ok (λ e. e) (λ eao. ret (ok (map_found eao)))

abbrev pub ref_of : App → ApplicationReference
ref_of app = record {
  api_version = "";
  kind = app.app_kind;
  name = app.app_name;
  namespace = app.app_namespace;
}

-- `fetchEAOForPod`
unfoldable pub fetch_eao_for_pod : Pod → Prog (Result (Option EnergyAwareOrchestration))
fetch_eao_for_pod pod = resolve_app_from_pod pod >>= λ app.
    (if is_empty app.app_name then ret (ok none) else find_eao_for_app (ref_of app))

-- `fetchEAOProfile`
unfoldable pub fetch_eao_profile : Pod → Prog (Result (Option EaoProfileContext))
unfolding fetch_eao_for_pod
fetch_eao_profile pod = fetch_eao_for_pod pod >>= on_ok (λ e. e) (λ eao. ret (ok (map_found eao)))

-- An error leaves the context out.
abbrev pub or_left_out : Result (Option EaoProfileContext) → Option EaoProfileContext
or_left_out (ok found) = found
or_left_out (err e) = none

-- The last log line of `Build` reads the decision of the context behind two pointers.
abbrev pub has_decision : Option EaoProfileContext → Bool
has_decision none = false
has_decision (some eao) = elim (eao.decision) [ none ↦ false | some decision ↦ true ]

abbrev pub placement_request :
    OrchestrationProfile
    → Pod
    → List Node
    → String
    → Time
    → Option EaoProfileContext
    → DecisionRequest
placement_request profile pod nodes id now eao = record {
  request_id = id;
  timestamp = now;
  pod = some pod;
  candidate_nodes = nodes;
  ao_profile = build_ao_profile_context profile (some pod);
  eao_profile = eao;
  rebalance_context = none;
}

-- `Build`, from the energy context on.
unfoldable pub assemble :
    OrchestrationProfile
    → Pod
    → List Node
    → String
    → Option EaoProfileContext
    → Prog (Exit (Result DecisionRequest))
assemble profile pod nodes id eao = op Op.now >>= λ now.
    (if has_decision eao
      then ret (returned (ok (placement_request profile pod nodes id now eao)))
      else ret panicked)

-- The energy context of a pod, if the profile wants it; an error leaves it out.
unfoldable pub energy_of : Pod → Bool → Prog (Option EaoProfileContext)
energy_of pod aware =
    if aware then fetch_eao_profile pod >>= (λ eao. ret (or_left_out eao)) else ret none

-- `Build`, for a pod that a profile governs.
unfoldable pub build_governed :
    OrchestrationProfile → Pod → List Node → String → Prog (Exit (Result DecisionRequest))
unfolding energy_of assemble
build_governed profile pod nodes id =
    energy_of pod profile.spec.placement.awareness.energy >>= assemble profile pod nodes id

-- `Build`, from the profile of the pod on.
unfoldable pub build_found :
    Pod
    → List Node
    → String
    → Result (Option OrchestrationProfile)
    → Prog (Exit (Result DecisionRequest))
unfolding build_governed
build_found pod nodes id (err e) =
    ret (returned (err (wrap ("finding profile for pod " <> pod.namespace <> "/" <> pod.name) e)))
build_found pod nodes id (ok none) = ret (
    returned (
      err (
        failure (
          "no OrchestrationProfile found for pod " <> pod.namespace <> "/" <> pod.name
          <> " — pod's application is not governed by any profile"))))
build_found pod nodes id (ok (some profile)) = build_governed profile pod nodes id

-- `Build`
unfoldable pub build : Deps → Pod → List Node → String → Prog (Exit (Result DecisionRequest))
unfolding build_found
build d pod nodes id = find_profile_for_pod d pod >>= build_found pod nodes id

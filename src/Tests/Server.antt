-- ===== src/Tests/Server.antt =====
-- The theorems on the placement server of internal/placement-server, at concrete data.
use hiro_adaptive_orchestrat.Base.{
  ◌≡◌, refl, not, ◌&&◌, true, false, String, List, [], ◌∷◌, map, none, some, pos, ok, err, failure,
  returned, ◌+◌, ltb,
}
use hiro_adaptive_orchestrat.Cluster.{Pod, Node, EnergyAwareOrchestration}
use hiro_adaptive_orchestrat.Io.{Op}
use hiro_adaptive_orchestrat.Io.Wp.{Wp}
use hiro_adaptive_orchestrat.Io.World.{World, run}
use hiro_adaptive_orchestrat.Io.Shared.{serve}
use hiro_adaptive_orchestrat.Rebalance.Enact.Move.{workload_key}
use hiro_adaptive_orchestrat.Utils.{resolve_app_from_pod, find_eao_for_app}
use hiro_adaptive_orchestrat.Placement.Types.{EnergyGateRequest}
use hiro_adaptive_orchestrat.Placement.Store.{DecisionStore, new_decision_store, delete}
use hiro_adaptive_orchestrat.Placement.Builder.{find_profile_for_pod, fetch_eao_for_pod, build}
use hiro_adaptive_orchestrat.Placement.Builder.Gate.{
  check_energy_gate, is_gated, is_short, check_energy_gate-allowed,
}
use hiro_adaptive_orchestrat.Placement.Builder.Panics.{
  is_panic, is_governed, is_decided, build-panics,
}
use hiro_adaptive_orchestrat.Placement.Server.{
  PlacementServer, Request, Reply, new_placement_server, score, handle_filter,
}
use hiro_adaptive_orchestrat.Placement.Server.FailOpen.{Answers, handle_filter-Answers}
use hiro_adaptive_orchestrat.Placement.Server.Hints.{Decided, score-Decided}
use hiro_adaptive_orchestrat.Placement.Extender.{handle_extender_filter, handle_extender_prioritize}
use hiro_adaptive_orchestrat.Placement.Extender.Filter.{
  scheduler_post, Splits, handle_extender_filter-Splits,
}
use hiro_adaptive_orchestrat.Placement.Extender.Priorities.{
  Prioritized, handle_extender_prioritize-Prioritized,
}
use hiro_adaptive_orchestrat.Placement.Extender.Hinted.{hinted}
use hiro_adaptive_orchestrat.Placement.Extender.Steering.{
  intended, handle_extender_prioritize-steered,
}
use hiro_adaptive_orchestrat.Tests.Data.{deps, profile, pod}

abbrev server : PlacementServer
server =
    new_placement_server deps (record { agent_url = "http://agent"; agent_path = "/decide" }) none
      "8090" "/score" "/filter" "/healthz" "/extender/filter" "/extender/prioritize" (pos 0)

abbrev pub node : String → Node
node name = record {
  name = name;
  allocatable = record { cpu = none; memory = none };
  conditions = [];
}

abbrev nodes : List Node
nodes = node "brown" ∷ node "green" ∷ []

-- A pod of the Job that the profile is about here.
abbrev pub job_pod : Pod
job_pod = record (pod "shop-1" "") {
  owner_references = record { api_version = "batch/v1"; kind = "Job"; name = "shop" } ∷ [];
}

-- An energy resource about the Job, which has no decision yet.
abbrev eao : EnergyAwareOrchestration
eao = record {
  namespace = "prod";
  ref_name = "shop";
  ref_kind = "Job";
  ref_namespace = "";
  sufficient = some false;
  decision_reason = "";
  decision_action = "";
  next_evaluation_time = "";
  priority = "high";
  energy_consumption = none;
  required_watts = none;
  current_slot_available_watts = none;
  current_slot_consumed_watts = none;
}

-- A world with the profile and the energy resource, where all else fails.
abbrev pub world : World
world Op.now = 7
world Op.new_uuid = "u1"
world (Op.read_profile name) = err (failure "down")
world (Op.get_profile name) = err (failure "down")
world (Op.update_status p) = err (failure "down")
world (Op.emit_event warning reason message) = tt
world (Op.get_workload kind namespace name) = err (failure "down")
world (Op.update_workload kind namespace w) = err (failure "down")
world (Op.list_pods namespace labels) = err (failure "down")
world (Op.list_selected_pods namespace selector) = err (failure "down")
world (Op.get_pod namespace name) = err (failure "down")
world (Op.delete_pod p) = err (failure "down")
world (Op.evict_pod p) = err (failure "down")
world (Op.resize_pod p) = err (failure "down")
world (Op.list_autoscalers namespace) = err (failure "down")
world Op.list_eaos = ok (eao ∷ [])
world Op.list_profiles = err (failure "down")
world (Op.list_indexed_profiles key) = ok (profile ∷ [])
world Op.list_nodes = err (failure "down")
world (Op.get_node name) = err (failure "down")
world (Op.get_node_usage name) = err (failure "down")
world (Op.wait_for_token timeout) = err (failure "down")
world (Op.marshal_request request) = err (failure "down")
world (Op.new_http_request url) = err (failure "down")
world (Op.call_agent request) = err (failure "down")
world (Op.decode_decision body) = err (failure "down")
world (Op.decode_rebalance_decision body) = err (failure "down")
world (Op.marshal_payload payload) = err (failure "down")
world (Op.call_placement_server url payload) = err (failure "down")
world (Op.decode_verdict body) = err (failure "down")
world (Op.store_put key p act name reason id) = tt
world (Op.store_delete key) = tt
world (Op.store_lookup key) = none
world Op.time_left = false

-- The gate blocks the pod, and Build panics on it.
blocked : (run world (check_energy_gate deps job_pod)).0.allowed ≡ false
unfolding find_profile_for_pod resolve_app_from_pod fetch_eao_for_pod find_eao_for_app
blocked = check_energy_gate-allowed world job_pod deps

panics : is_panic (run world (build deps job_pod nodes "r1")) ≡ true
unfolding find_profile_for_pod resolve_app_from_pod fetch_eao_for_pod find_eao_for_app
panics = build-panics world job_pod nodes "r1" deps

build-panics_example :
    let found = run world (find_profile_for_pod deps job_pod) in
    is_panic (run world (build deps job_pod nodes "r1")) ≡ (
      is_governed found
      && not (is_gated found && is_decided (run world (fetch_eao_for_pod job_pod))))
build-panics_example = build-panics world job_pod nodes "r1" deps

check_energy_gate-allowed_example :
    (run world (check_energy_gate deps job_pod)).0.allowed
    ≡ not (
        is_gated (run world (find_profile_for_pod deps job_pod))
        && is_short (run world (fetch_eao_for_pod job_pod)))
check_energy_gate-allowed_example = check_energy_gate-allowed world job_pod deps

abbrev gate_request : Request EnergyGateRequest
gate_request = record { method = "POST"; body = ok (record { pod = some job_pod }) }

handle_filter-Answers_example :
    Wp (handle_filter server gate_request) [] (Answers server gate_request)
handle_filter-Answers_example = handle_filter-Answers server gate_request

handle_extender_filter-Splits_example :
    Wp
      (handle_extender_filter server (scheduler_post job_pod nodes))
      []
      (λ past x. Splits nodes past job_pod.uid x)
handle_extender_filter-Splits_example = handle_extender_filter-Splits nodes server job_pod

handle_extender_prioritize-Prioritized_example :
    Wp
      (handle_extender_prioritize server (scheduler_post job_pod nodes))
      []
      (λ past x. Prioritized nodes job_pod.uid x)
handle_extender_prioritize-Prioritized_example =
    handle_extender_prioritize-Prioritized server job_pod nodes

score-Decided_example : Wp (score server job_pod nodes "r1") [] (Decided server job_pod nodes "r1")
score-Decided_example = score-Decided server job_pod nodes "r1"

abbrev intended_store : DecisionStore
intended_store = intended profile server.decision_store 100 "shop-0" "green" "greener" "d2"

profile_found : run world (find_profile_for_pod server.deps job_pod) ≡ ok (some profile)
unfolding find_profile_for_pod resolve_app_from_pod
profile_found = refl

entry_alive : ltb (100 + server.decision_store.ttl) 101 ≡ false
unfolding new_placement_server new_decision_store
entry_alive = refl

handle_extender_prioritize-steered_example :
    serve world 101 intended_store
      (handle_extender_prioritize server (scheduler_post job_pod nodes))
    ≡ (
      returned (Reply.json_reply job_pod.uid (map (hinted "green") nodes)),
      delete intended_store (workload_key profile.namespace profile.name),
    )
handle_extender_prioritize-steered_example =
    handle_extender_prioritize-steered profile server.decision_store 100 "shop-0" "green" "greener"
      "d2" world server job_pod nodes 101 profile_found refl refl entry_alive

-- ===== src/Io.antt =====
-- The calls that the code makes on the world around it, and programs over them. What answers a
-- call (the API server, the AI agent, the clock, other processes) is not modelled: a theorem
-- holds for every answer, so for every failure and every interleaving with others.
pub mod Wp
pub mod Closed
pub mod Effects
pub mod World
pub mod Stored
pub mod Shared
use hiro_adaptive_orchestrat.Base.{ℕ, String, Bool, List, Option, ℤ, Result}
use hiro_adaptive_orchestrat.Types.{Time, Duration, OrchestrationProfile, RebalanceAction}
use hiro_adaptive_orchestrat.Placement.Types.{
  DecisionRequest, DecisionResponse, HttpResponse, EnergyGateResponse, Payload,
}
use hiro_adaptive_orchestrat.Placement.Store.{DecisionStoreEntry}
use hiro_adaptive_orchestrat.Cluster.{
  Pod, Workload, Node, ResourceList, Autoscaler, EnergyAwareOrchestration,
}

-- internal/placement-server/types.go: the agent's answer to a rebalance request. A finite float64
-- is the number of units of 2 ^ -1074 that it is; `target_replicas` is an int32.
pub record RebalanceDecisionResponse : Type 0 where
  pub action : RebalanceAction
  pub pod_name : String
  pub target_node : String
  pub target_replicas : ℤ
  pub container_name : String
  pub target_cpu : String
  pub target_memory : String
  pub improvement : ℤ
  pub reason : String

pub data Op : Type 0 where
  -- `time.Now`, `uuid.NewString`
  now : Op
  new_uuid : Op
  -- the uncached read of the writer, the cached read of the reconcilers, and the status write
  read_profile : String → Op
  get_profile : String → Op
  update_status : OrchestrationProfile → Op
  -- an Event: whether it is a warning, its reason and its message
  emit_event : Bool → String → String → Op
  -- a Get and an Update of a workload, by kind, namespace and name
  get_workload : String → String → String → Op
  update_workload : String → String → Workload → Op
  -- the pods of a namespace with these labels, or that a selector picks
  list_pods : String → List (String × String) → Op
  list_selected_pods : String → String → Op
  get_pod : String → String → Op
  delete_pod : Pod → Op
  evict_pod : Pod → Op
  resize_pod : Pod → Op
  list_autoscalers : String → Op
  list_eaos : Op
  -- all profiles, those that the field index has under a key, and all nodes
  list_profiles : Op
  list_indexed_profiles : String → Op
  list_nodes : Op
  get_node : String → Op
  get_node_usage : String → Op
  -- a wait for a token of the cluster-wide limiter
  wait_for_token : Duration → Op
  -- JSON and HTTP towards the agent: the encoding of a request, the request to a URL, its exchange
  -- for an answer, and the decoding of an answer's body in either form
  marshal_request : DecisionRequest → Op
  new_http_request : String → Op
  call_agent : DecisionRequest → Op
  decode_decision : String → Op
  decode_rebalance_decision : String → Op
  -- the same towards the placement server: the encoding of a payload, its exchange with a URL for
  -- an answer, and the decoding of a verdict
  marshal_payload : Payload → Op
  call_placement_server : String → Payload → Op
  decode_verdict : String → Op
  -- the decision store: the key with the entry, and the key
  store_put : String → String → RebalanceAction → String → String → String → Op
  store_delete : String → Op
  store_lookup : String → Op
  -- between two polls: whether time is left before the deadline
  time_left : Op

abbrev pub Answer : Op → Type 0
Answer now = Time
Answer new_uuid = String
Answer (read_profile name) = Result OrchestrationProfile
Answer (get_profile name) = Result OrchestrationProfile
Answer (update_status p) = Result OrchestrationProfile
Answer (emit_event warning reason message) = Unit
Answer (get_workload kind namespace name) = Result Workload
Answer (update_workload kind namespace w) = Result (Unit {0})
Answer (list_pods namespace labels) = Result (List Pod)
Answer (list_selected_pods namespace selector) = Result (List Pod)
Answer (get_pod namespace name) = Result Pod
Answer (delete_pod pod) = Result (Unit {0})
Answer (evict_pod pod) = Result (Unit {0})
Answer (resize_pod pod) = Result (Unit {0})
Answer (list_autoscalers namespace) = Result (List Autoscaler)
Answer list_eaos = Result (List EnergyAwareOrchestration)
Answer list_profiles = Result (List OrchestrationProfile)
Answer (list_indexed_profiles key) = Result (List OrchestrationProfile)
Answer list_nodes = Result (List Node)
Answer (get_node name) = Result Node
Answer (get_node_usage name) = Result ResourceList
Answer (wait_for_token timeout) = Result (Unit {0})
Answer (marshal_request request) = Result (Unit {0})
Answer (new_http_request url) = Result (Unit {0})
Answer (call_agent request) = Result HttpResponse
Answer (decode_decision body) = Result DecisionResponse
Answer (decode_rebalance_decision body) = Result RebalanceDecisionResponse
Answer (marshal_payload payload) = Result (Unit {0})
Answer (call_placement_server url payload) = Result HttpResponse
Answer (decode_verdict body) = Result EnergyGateResponse
Answer (store_put key pod act node reason id) = Unit
Answer (store_delete key) = Unit
Answer (store_lookup key) = Option DecisionStoreEntry
Answer time_left = Bool

-- A program: a result, or a call and what follows its answer.
pub data Prog (A : Type 0) : Type 0 where
  ret : A → Prog A
  call : (o : Op) → (Answer o → Prog A) → Prog A

infixl 5 ◌>>=◌ ◌>>◌
abbrev pub ◌>>=◌ : {A B : Type 0} → Prog A → (A → Prog B) → Prog B
ret a >>= f = f a
call o k >>= f = call o (λ x. k x >>= f)

abbrev pub ◌>>◌ : {B : Type 0} → Prog (Unit {0}) → Prog B → Prog B
m >> n = m >>= λ _. n

-- One call.
abbrev pub op : (o : Op) → Prog (Answer o)
op o = call o ret

-- ===== src/Placement/Types.antt =====
-- internal/placement-server/types.go and pkg/placement/types.go: what the placement server sends to
-- the agent, and what it is answered. A nil pointer is `none`; a nil slice is the empty list.
use hiro_adaptive_orchestrat.Base.{String, Bool, List, Option, ℤ}
use hiro_adaptive_orchestrat.Types.{Time}
use hiro_adaptive_orchestrat.Cluster.{Pod, Node}

-- pkg/placement: a score is a float64, in units of 2 ^ -1074.
pub record NodeScore : Type 0 where
  pub node_name : String
  pub score : ℤ

pub record DecisionResponse : Type 0 where
  pub request_id : String
  pub node_scores : List NodeScore
  pub reason : String

-- The nodes of the two lists of nodes below are not nil: the scheduler sends none that is.
pub record PlacementContext : Type 0 where
  pub pod : Option Pod
  pub candidate_nodes : List Node

pub record EnergyGateRequest : Type 0 where
  pub pod : Option Pod

pub record EnergyGateResponse : Type 0 where
  pub allowed : Bool
  pub reason : String

-- What the scheduler plugin sends to the placement server.
pub data Payload : Type 0 where
  gate_payload : EnergyGateRequest → Payload
  context_payload : PlacementContext → Payload

pub record AwarenessFlags : Type 0 where
  pub cpu : Bool
  pub memory : Bool
  pub gpu : Bool
  pub energy : Bool

pub record ContainerInfo : Type 0 where
  pub name : String
  pub cpu_request : String
  pub memory_request : String
  pub cpu_limit : String
  pub memory_limit : String

pub record PodPlacement : Type 0 where
  pub pod_name : String
  pub node_name : String
  pub phase : String
  pub containers : List ContainerInfo

pub record RebalancingConfig : Type 0 where
  pub enabled : Bool
  pub cooldown_seconds : ℤ
  pub trigger_conditions : List String

pub record AoProfileContext : Type 0 where
  pub profile_name : String
  pub strategy : String
  pub awareness : AwarenessFlags
  pub current_placement : PodPlacement
  pub rebalancing : RebalancingConfig

pub record EaoDecision : Type 0 where
  pub action : String
  pub reason : String
  pub next_evaluation_time : String

-- The watts are float64s, in units of 2 ^ -1074.
pub record EaoEnergyMetrics : Type 0 where
  pub required_watts : ℤ
  pub sufficient : Bool
  pub current_slot_available_watts : ℤ
  pub current_slot_consumed_watts : ℤ

-- `NodeEnergyData`, which nothing sets, is left out.
pub record EaoProfileContext : Type 0 where
  pub priority : String
  pub energy_consumption_watts : ℤ
  pub decision : Option EaoDecision
  pub energy_metrics : Option EaoEnergyMetrics

pub record RebalanceHistoryEntry : Type 0 where
  pub outcome : String
  pub action : String
  pub reason : String
  pub when : Time

pub record RebalanceContext : Type 0 where
  pub reason : String
  pub decision_id : String
  pub current_placements : List PodPlacement
  pub recent_decisions : List RebalanceHistoryEntry

-- `AOProfile` is never nil where the code builds a request.
pub record DecisionRequest : Type 0 where
  pub request_id : String
  pub timestamp : Time
  pub pod : Option Pod
  pub candidate_nodes : List Node
  pub ao_profile : AoProfileContext
  pub eao_profile : Option EaoProfileContext
  pub rebalance_context : Option RebalanceContext

-- An answer of the agent's HTTP server.
pub record HttpResponse : Type 0 where
  pub status_code : ℤ
  pub body : String

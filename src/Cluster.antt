-- ===== src/Cluster.antt =====
-- The Kubernetes objects that the code reads and writes, with the fields that it uses. Their types
-- are those of k8s.io/api; a nil pointer or map is `none`.
use hiro_adaptive_orchestrat.Base.{String, Bool, List, Option, ℤ}
use hiro_adaptive_orchestrat.Types.{Time}

-- `resource.Quantity`, by its value in billionths: `Cmp` and `IsZero` are those of the value.
abbrev pub Quantity : Type 0
Quantity = ℤ

-- `corev1.ResourceList`, at the two names that the code uses.
pub record ResourceList : Type 0 where
  pub cpu : Option Quantity
  pub memory : Option Quantity

pub record Container : Type 0 where
  pub name : String
  pub requests : Option ResourceList
  pub limits : Option ResourceList

-- `resources` is `cs.Resources`, of which the code reads the requests.
pub record ContainerStatus : Type 0 where
  pub name : String
  pub resources : Option ResourceList

pub record Condition : Type 0 where
  pub type : String
  pub status : String
  pub reason : String
  pub message : String

pub record OwnerReference : Type 0 where
  pub api_version : String
  pub kind : String
  pub name : String

pub data PodPhase : Type 0 where
  pending_phase running_phase succeeded_phase failed_phase unknown_phase : PodPhase

pub record Pod : Type 0 where
  pub uid : String
  pub name : String
  pub namespace : String
  pub creation_timestamp : Time
  pub owner_references : List OwnerReference
  pub node_name : String
  pub scheduler_name : String
  pub containers : List Container
  pub phase : PodPhase
  pub phase_text : String
  pub reason : String
  pub message : String
  pub conditions : List Condition
  pub container_statuses : List ContainerStatus

-- A Deployment, StatefulSet, ReplicaSet or Job. `labels` are the selector's match labels.
pub record Workload : Type 0 where
  pub name : String
  pub owner_references : List OwnerReference
  pub labels : Option (List (String × String))
  pub containers : List Container
  pub replicas : Option ℤ
  pub ready_replicas : ℤ

pub record Node : Type 0 where
  pub name : String
  pub allocatable : ResourceList
  pub conditions : List Condition

-- A HorizontalPodAutoscaler.
pub record Autoscaler : Type 0 where
  pub name : String
  pub owner_references : List OwnerReference
  pub target_kind : String
  pub target_name : String
  pub min_replicas : Option ℤ
  pub max_replicas : ℤ

-- An EnergyAwareOrchestration, an unstructured object: a field that is not found is the empty
-- text, as `NestedString` gives it, and the others are `none` if they are not found in their type.
-- The watts are float64s in units of 2 ^ -1074, but for `energy_consumption`, an int64.
pub record EnergyAwareOrchestration : Type 0 where
  pub namespace : String
  pub ref_name : String
  pub ref_kind : String
  pub ref_namespace : String
  pub sufficient : Option Bool
  pub decision_reason : String
  pub decision_action : String
  pub next_evaluation_time : String
  pub priority : String
  pub energy_consumption : Option ℤ
  pub required_watts : Option ℤ
  pub current_slot_available_watts : Option ℤ
  pub current_slot_consumed_watts : Option ℤ

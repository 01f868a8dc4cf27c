-- ===== src/Types.antt =====
-- api/v1alpha1/orchestrationprofile_types.go: the OrchestrationProfile resource. A string with
-- named values is a data type; one that the code compares as a text stays a text.
use hiro_adaptive_orchestrat.Base.{ℕ, String, Bool, List, ℤ}

-- Nanoseconds since Go's zero time, which is what `IsZero` tests for.
abbrev pub Time : Type 0
Time = ℕ

-- Nanoseconds, an int64.
abbrev pub Duration : Type 0
Duration = ℤ

pub record ApplicationReference : Type 0 where
  pub api_version : String
  pub kind : String
  pub name : String
  pub namespace : String

pub record Awareness : Type 0 where
  pub cpu : Bool
  pub memory : Bool
  pub gpu : Bool
  pub energy : Bool

pub record PlacementSpec : Type 0 where
  pub strategy : String
  pub awareness : Awareness

-- `cooldown_seconds` is an int, `escalation_threshold` an int32.
pub record RebalancingSpec : Type 0 where
  pub enabled : Bool
  pub trigger_conditions : List String
  pub cooldown_seconds : ℤ
  pub dry_run : Bool
  pub escalation_threshold : ℤ

pub record OrchestrationProfileSpec : Type 0 where
  pub application_ref : ApplicationReference
  pub placement : PlacementSpec
  pub rebalancing : RebalancingSpec

pub record PodStatus : Type 0 where
  pub id : String
  pub name : String
  pub namespace : String
  pub node_name : String
  pub status : String
  pub reason : String

pub record PlacementStatus : Type 0 where
  pub strategy : String
  pub observed_pods : ℕ
  pub ready_pods : ℕ
  pub pending_pods : ℕ
  pub failed_pods : ℕ
  pub pod_statuses : List PodStatus

-- `none_state` is the empty string: no cycle was ever started.
pub data RebalancingStateType : Type 0 where
  none_state watching triggered evaluating decided enacting : RebalancingStateType

-- `no_outcome` is the empty string.
pub data RebalanceOutcome : Type 0 where
  no_outcome enacted no_op rejected deferred failed escalated : RebalanceOutcome

-- `no_action` is the empty string. An agent may answer with any other text, and the engine itself
-- uses `RetryPendingSchedule` (internal/rebalance/triggers.go).
pub data RebalanceAction : Type 0 where
  no_action move no_op reject defer adjust_replicas adjust_resources escalate : RebalanceAction
  retry_pending_schedule : RebalanceAction
  other_action : String → RebalanceAction

-- The text of an action.
abbrev pub action_text : RebalanceAction → String
action_text RebalanceAction.no_action = ""
action_text RebalanceAction.move = "Move"
action_text RebalanceAction.no_op = "NoOp"
action_text RebalanceAction.reject = "Reject"
action_text RebalanceAction.defer = "Defer"
action_text RebalanceAction.adjust_replicas = "AdjustReplicas"
action_text RebalanceAction.adjust_resources = "AdjustResources"
action_text RebalanceAction.escalate = "Escalate"
action_text RebalanceAction.retry_pending_schedule = "RetryPendingSchedule"
action_text (RebalanceAction.other_action text) = text

-- The text of an outcome.
abbrev pub outcome_text : RebalanceOutcome → String
outcome_text RebalanceOutcome.no_outcome = ""
outcome_text RebalanceOutcome.enacted = "Enacted"
outcome_text RebalanceOutcome.no_op = "NoOp"
outcome_text RebalanceOutcome.rejected = "Rejected"
outcome_text RebalanceOutcome.deferred = "Deferred"
outcome_text RebalanceOutcome.failed = "Failed"
outcome_text RebalanceOutcome.escalated = "Escalated"

pub record RebalanceDecision : Type 0 where
  pub decision_id : String
  pub outcome : RebalanceOutcome
  pub action : RebalanceAction
  pub reason : String
  pub details : String
  pub started_at : Time
  pub last_transition_at : Time

-- `consecutive_failures` is an int32. The flag `Escalated` is `is_escalated`.
pub record RebalancingStatus : Type 0 where
  pub state : RebalancingStateType
  pub reason : String
  pub decision_id : String
  pub action : RebalanceAction
  pub details : String
  pub started_at : Time
  pub last_transition_at : Time
  pub cooldown_until : Time
  pub recent_decisions : List RebalanceDecision
  pub consecutive_failures : ℤ
  pub is_escalated : Bool
  pub escalated_reason : String

-- The values of `status.status`; `unset` is the empty string.
pub data ProfileStatusType : Type 0 where
  unset no_pods partial active pending degraded error : ProfileStatusType

pub record OrchestrationProfileStatus : Type 0 where
  pub status : ProfileStatusType
  pub reason : String
  pub placement_status : PlacementStatus
  pub rebalancing_status : RebalancingStatus
  pub last_updated_time : Time

-- Of the metadata, the name and the namespace.
pub record OrchestrationProfile : Type 0 where
  pub name : String
  pub namespace : String
  pub spec : OrchestrationProfileSpec
  pub status : OrchestrationProfileStatus

-- ===== src/Rebalance/Triggers.antt =====
-- internal/rebalance/triggers.go and pressure.go: which of a profile's trigger conditions holds.
pub mod Closed
use hiro_adaptive_orchestrat.Base.{
  ℕ, ◌+◌, ◌*◌, String, ◌<>◌, Bool, true, false, not, ◌&&◌, ◌||◌, str_eq, is_empty, leb,
  if◌then◌else◌, List, [], ◌∷◌, Option, none, some, ℤ, pos, leb_ℤ, Result, ok, err, wrap, Deps,
}
use hiro_adaptive_orchestrat.Types.{Time, ApplicationReference, OrchestrationProfile}
use hiro_adaptive_orchestrat.Cluster.{
  Quantity, ResourceList, Condition, Pod, Node, EnergyAwareOrchestration,
}
use hiro_adaptive_orchestrat.Io.{Op, Prog, ret, op, ◌>>=◌, ◌>>◌}
use hiro_adaptive_orchestrat.Utils.{on_ok, find_pods_for_application, find_eao_for_app}
use hiro_adaptive_orchestrat.Rebalance.Settings.{second}
use hiro_adaptive_orchestrat.Rebalance.Enact.Retry.{is_unscheduled}
use hiro_adaptive_orchestrat.Rebalance.Enact.Resource.{is_zero}

pub record TriggerResult : Type 0 where
  pub condition : String
  pub reason : String
  pub bypass_action : String

-- A condition that holds: its reason, and the action that needs no agent.
pub record Match : Type 0 where
  pub reason : String
  pub bypass_action : String

abbrev pub action_retry_pending_schedule : String
action_retry_pending_schedule = "RetryPendingSchedule"

-- `MinPendingPodAge`
abbrev pub min_pending_pod_age : ℕ
min_pending_pod_age = 10 * second

-- `hasPendingPod`
unfoldable pub has_pending_pod : List Pod → Prog Bool
has_pending_pod [] = ret false
has_pending_pod (pod ∷ pods) = elim (is_unscheduled pod) [
  | false ↦ has_pending_pod pods
  | true ↦ op Op.now >>= λ t. elim (leb (pod.creation_timestamp + min_pending_pod_age) t) [
    | true ↦ ret true
    | false ↦ has_pending_pod pods
  ]
]

-- A reason, or the text that stands in for an empty one.
abbrev reason_or : String → String → String
reason_or default reason = if is_empty reason then default else reason

abbrev pub is_window : String → Bool
is_window action = str_eq action "DeployImmediately" || str_eq action "Scheduled"

-- The cases on the decision's action, once energy is not reported insufficient.
unfoldable pub judge_decision : List Pod → EnergyAwareOrchestration → Prog (Option Match)
judge_decision pods eao =
    if str_eq eao.decision_action "Delayed" || str_eq eao.decision_action "Waiting"
    then ret (
        some (record {
          reason = reason_or ("energy decision action=" <> eao.decision_action) eao.decision_reason;
          bypass_action = "";
        }))
    else if is_window eao.decision_action
    then (has_pending_pod pods >>= λ waiting. ret (
        if waiting
        then some (record {
          reason = "energy window reached — retrying previously deferred pod";
          bypass_action = action_retry_pending_schedule;
        })
        else none))
    else ret none

unfoldable pub judge_eao : List Pod → Result (Option EnergyAwareOrchestration) → Prog (Option Match)
unfolding judge_decision
judge_eao pods (err e) = ret none
judge_eao pods (ok none) = ret none
judge_eao pods (ok (some eao)) = elim (eao.sufficient) [
  | some false ↦ ret (
      some (record {
        reason = reason_or "energy supply reported insufficient" eao.decision_reason;
        bypass_action = "";
      }))
  | _ ↦ judge_decision pods eao
]

-- `evaluateEnergyThreshold`
unfoldable pub evaluate_energy_threshold : ApplicationReference → List Pod → Prog (Option Match)
unfolding judge_eao
evaluate_energy_threshold ref pods = find_eao_for_app ref >>= judge_eao pods

abbrev pub elem : String → List String → Bool
elem name [] = false
elem name (n ∷ ns) = str_eq n name || elem name ns

-- The loop over the distinct nodes of the pods, up to the first with a reason. A check that fails
-- is skipped. `seen` holds the nodes that were checked.
unfoldable pub first_node :
    (Pod → Prog (Result (Option String))) → List String → List Pod → Prog (Option String)
first_node check seen [] = ret none
first_node check seen (pod ∷ pods) = elim (is_empty pod.node_name || elem pod.node_name seen) [
  | true ↦ first_node check seen pods
  | false ↦ check pod >>= λ r. elim r [
    | ok (some reason) ↦ ret (some reason)
    | _ ↦ first_node check (pod.node_name ∷ seen) pods
  ]
]

-- Whether a condition says that the node is not ready.
abbrev pub says_not_ready : Condition → Bool
says_not_ready c = str_eq c.type "Ready" && not (str_eq c.status "True")

unfoldable pub is_not_ready : List Condition → Bool
is_not_ready [] = false
is_not_ready (c ∷ cs) = says_not_ready c || is_not_ready cs

-- The check of `evaluateNodeFailure` for the node of a pod.
unfoldable pub node_failure : Pod → Prog (Result (Option String))
node_failure pod =
    op (Op.get_node pod.node_name)
    >>= on_ok (λ e. e)
        (λ node. ret (
          ok (
            if is_not_ready node.conditions
            then some ("node " <> pod.node_name <> " is not Ready (pod " <> pod.name <> ")")
            else none)))

-- A resource by its name and its entry in a list; a missing entry is the zero quantity.
pub record ResourceKind : Type 0 where
  pub name : String
  pub entry : ResourceList → Option Quantity

abbrev pub cpu_kind : ResourceKind
cpu_kind = record { name = "cpu"; entry = λ l. l.cpu }

abbrev pub memory_kind : ResourceKind
memory_kind = record { name = "memory"; entry = λ l. l.memory }

abbrev pub entry_or_zero : ResourceKind → ResourceList → Quantity
entry_or_zero k l = elim (k.entry l) [ some q ↦ q | none ↦ pos 0 ]

module _ (f : Deps) (threshold : ℤ) where
  abbrev pub pressure : ResourceKind → String → Quantity → Quantity → Option String
  pressure kind name usage allocatable =
      let ratio = f.float_ratio (f.milli_value usage) (f.milli_value allocatable) in
      if leb_ℤ threshold ratio
      then some (
          "node "
          <> name
          <> ": "
          <> kind.name
          <> " usage at "
          <> f.percent ratio
          <> "% of allocatable ("
          <> f.percent threshold
          <> "% threshold)")
      else none

  -- `NodePressureEvaluator.evaluate`
  unfoldable pub evaluate_pressure : ResourceKind → Pod → Prog (Result (Option String))
  evaluate_pressure kind pod =
      op (Op.get_node pod.node_name)
      >>= on_ok (wrap ("fetching node " <> pod.node_name)) (λ node.
        elim (is_zero (entry_or_zero kind node.allocatable)) [
          | true ↦ ret (ok none)
          | false ↦
              op (Op.get_node_usage pod.node_name)
              >>= on_ok (wrap ("fetching metrics-server usage for node " <> pod.node_name))
                  (λ usage. ret (
                    ok (
                      pressure kind pod.node_name (entry_or_zero kind usage)
                        (entry_or_zero kind node.allocatable))))
        ])

  -- A reason with no bypass.
  abbrev pub plain : Prog (Option String) → Prog (Option Match)
  plain m = m >>= λ found. ret (elim found [
    | some reason ↦ some (record { reason = reason; bypass_action = "" })
    | none ↦ none
  ])

  -- The `switch` of `Evaluate` at one condition.
  unfoldable pub evaluate_condition : ApplicationReference → List Pod → String → Prog (Option Match)
  evaluate_condition ref pods condition =
      if str_eq condition "EnergyThreshold"
      then evaluate_energy_threshold ref pods
      else if str_eq condition "CPUThreshold"
      then plain (first_node (evaluate_pressure cpu_kind) [] pods)
      else if str_eq condition "MemoryThreshold"
      then plain (first_node (evaluate_pressure memory_kind) [] pods)
      else if str_eq condition "NodeFailure"
      then plain (first_node node_failure [] pods)
      else if str_eq condition "Scheduled"
      then ret (some (record { reason = "scheduled rebalance window reached"; bypass_action = "" }))
      else ret none

  -- The loop over the declared conditions.
  unfoldable pub first_match :
      ApplicationReference → List Pod → List String → Prog (Option TriggerResult)
  first_match ref pods [] = ret none
  first_match ref pods (condition ∷ conditions) = evaluate_condition ref pods condition >>= λ found.
      elim found [
        | some m ↦ ret (
            some (record {
              condition = condition;
              reason = m.reason;
              bypass_action = m.bypass_action;
            }))
        | none ↦ first_match ref pods conditions
      ]

  -- `Evaluate`
  unfoldable pub evaluate : OrchestrationProfile → Prog (Result (Option TriggerResult))
  unfolding first_match
  evaluate profile =
      find_pods_for_application profile.spec.application_ref
      >>= on_ok (wrap "finding pods for trigger evaluation") (λ pods.
        first_match profile.spec.application_ref pods profile.spec.rebalancing.trigger_conditions
        >>= λ found. ret (ok found))

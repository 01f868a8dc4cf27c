-- ===== src/Rebalance/Triggers/Closed.antt =====
-- The evaluation of triggers only reads: it has every property that sequencing keeps and reads have.
use hiro_adaptive_orchestrat.Base.{
  refl, ◌||◌, ◌+◌, leb, ℤ, Bool, true, false, String, str_eq, is_empty, List, [], ◌∷◌, Option, none,
  some, Result, ok, err, Deps,
}
use hiro_adaptive_orchestrat.Types.{ApplicationReference, OrchestrationProfile}
use hiro_adaptive_orchestrat.Cluster.{Pod, EnergyAwareOrchestration}
use hiro_adaptive_orchestrat.Io.{Op, Prog, ret, op, ◌>>=◌}
use hiro_adaptive_orchestrat.Io.Closed.{Property, IsClosed, split_if, on_ok-Closed}
use hiro_adaptive_orchestrat.Rebalance.Enact.Closed.{
  ClosedReads, find_pods_for_application-Closed, find_eao_for_app-Closed,
}
use hiro_adaptive_orchestrat.Rebalance.Enact.Retry.{is_unscheduled}
use hiro_adaptive_orchestrat.Rebalance.Enact.Resource.{is_zero}
use hiro_adaptive_orchestrat.Rebalance.Triggers.{
  Match, TriggerResult, ResourceKind, min_pending_pod_age, has_pending_pod, is_window, elem,
  judge_decision, judge_eao, evaluate_energy_threshold, first_node, node_failure, entry_or_zero,
  evaluate_pressure, plain, evaluate_condition, first_match, evaluate, cpu_kind, memory_kind,
}

module _ (K : Property) (c : IsClosed K) (reads : ClosedReads K) where
  old_enough-Closed :
      (rest : Prog Bool)
      → K Bool rest
      → (old : Bool) → K Bool (elim old [ true ↦ ret true | false ↦ rest ])
  old_enough-Closed rest h true = c.done _ _
  old_enough-Closed rest h false = h

  pending_one-Closed :
      (pod : Pod) (rest : Prog Bool)
      → K Bool rest
      → (waits : Bool)
      → K Bool (elim waits [
        | false ↦ rest
        | true ↦ op Op.now >>= λ t. elim (leb (pod.creation_timestamp + min_pending_pod_age) t) [
          | true ↦ ret true
          | false ↦ rest
        ]
      ])
  pending_one-Closed pod rest h false = h
  pending_one-Closed pod rest h true =
      c.bind _ _ _ _ (reads _ refl) (λ t. old_enough-Closed rest h _)

  has_pending_pod-Closed : (pods : List Pod) → K Bool (has_pending_pod pods)
  unfolding has_pending_pod
  has_pending_pod-Closed [] = c.done _ _
  has_pending_pod-Closed (pod ∷ pods) =
      pending_one-Closed pod _ (has_pending_pod-Closed pods) (is_unscheduled pod)

  judge_decision-Closed :
      (pods : List Pod) (eao : EnergyAwareOrchestration)
      → K (Option Match) (judge_decision pods eao)
  unfolding judge_decision
  judge_decision-Closed pods eao =
      split_if K _ (str_eq eao.decision_action "Delayed" || str_eq eao.decision_action "Waiting") _
        _ (λ _. c.done _ _)
        (λ _.
          split_if K _ (is_window eao.decision_action) _ _
            (λ _. c.bind _ _ _ _ (has_pending_pod-Closed pods) (λ _. c.done _ _)) (λ _. c.done _ _))

  supply-Closed :
      (pods : List Pod) (eao : EnergyAwareOrchestration) (m : Match) (sufficient : Option Bool)
      → K
          (Option Match)
          (elim sufficient [ some false ↦ ret (some m) | _ ↦ judge_decision pods eao ])
  supply-Closed pods eao m (some false) = c.done _ _
  supply-Closed pods eao m (some true) = judge_decision-Closed pods eao
  supply-Closed pods eao m none = judge_decision-Closed pods eao

  judge_eao-Closed :
      (pods : List Pod) (found : Result (Option EnergyAwareOrchestration))
      → K (Option Match) (judge_eao pods found)
  unfolding judge_eao
  judge_eao-Closed pods (err e) = c.done _ _
  judge_eao-Closed pods (ok none) = c.done _ _
  judge_eao-Closed pods (ok (some eao)) = supply-Closed pods eao _ eao.sufficient

  evaluate_energy_threshold-Closed :
      (ref : ApplicationReference) (pods : List Pod)
      → K (Option Match) (evaluate_energy_threshold ref pods)
  unfolding evaluate_energy_threshold
  evaluate_energy_threshold-Closed ref pods =
      c.bind _ _ _ _ (find_eao_for_app-Closed K c reads ref) (judge_eao-Closed pods)

  module _ (check : Pod → Prog (Result (Option String)))
      (checks : (pod : Pod) → K (Result (Option String)) (check pod)) where
    checked-Closed :
        (rest : Prog (Option String))
        → K (Option String) rest
        → (r : Result (Option String))
        → K (Option String) (elim r [ ok (some reason) ↦ ret (some reason) | _ ↦ rest ])
    checked-Closed rest h (ok (some reason)) = c.done _ _
    checked-Closed rest h (ok none) = h
    checked-Closed rest h (err e) = h

    node_one-Closed :
        (pod : Pod) (skip : Prog (Option String)) (rest : Prog (Option String))
        → K (Option String) skip
        → K (Option String) rest
        → (known : Bool)
        → K (Option String) (elim known [
          | true ↦ skip
          | false ↦ check pod >>= λ r. elim r [ ok (some reason) ↦ ret (some reason) | _ ↦ rest ]
        ])
    node_one-Closed pod skip rest hs hr true = hs
    node_one-Closed pod skip rest hs hr false = c.bind _ _ _ _ (checks pod) (checked-Closed rest hr)

    first_node-Closed :
        (seen : List String) (pods : List Pod) → K (Option String) (first_node check seen pods)
    unfolding first_node
    first_node-Closed seen [] = c.done _ _
    first_node-Closed seen (pod ∷ pods) =
        node_one-Closed pod _ _ (first_node-Closed seen pods)
          (first_node-Closed (pod.node_name ∷ seen) pods)
          (is_empty pod.node_name || elem pod.node_name seen)

  node_failure-Closed : (pod : Pod) → K (Result (Option String)) (node_failure pod)
  unfolding node_failure
  node_failure-Closed pod =
      c.bind _ _ _ _ (reads _ refl) (on_ok-Closed K c _ _ _ _ (λ node. c.done _ _))

  module _ (f : Deps) (threshold : ℤ) where
    usage-Closed :
        (m : Prog (Result (Option String)))
        → K (Result (Option String)) m
        → (zero : Bool)
        → K (Result (Option String)) (elim zero [ true ↦ ret (ok none) | false ↦ m ])
    usage-Closed m h true = c.done _ _
    usage-Closed m h false = h

    evaluate_pressure-Closed :
        (kind : ResourceKind) (pod : Pod)
        → K (Result (Option String)) (evaluate_pressure f threshold kind pod)
    unfolding evaluate_pressure
    evaluate_pressure-Closed kind pod = c.bind _ _ _ _ (reads _ refl) (
        on_ok-Closed K c _ _ _ _ (λ node.
          usage-Closed _
            (c.bind _ _ _ _ (reads _ refl) (on_ok-Closed K c _ _ _ _ (λ usage. c.done _ _)))
            (is_zero (entry_or_zero kind node.allocatable))))

    plain-Closed :
        (m : Prog (Option String)) → K (Option String) m → K (Option Match) (plain f threshold m)
    plain-Closed m h = c.bind _ _ _ _ h (λ _. c.done _ _)

    evaluate_condition-Closed :
        (ref : ApplicationReference) (pods : List Pod) (condition : String)
        → K (Option Match) (evaluate_condition f threshold ref pods condition)
    unfolding evaluate_condition
    evaluate_condition-Closed ref pods condition =
        split_if K _ (str_eq condition "EnergyThreshold") _ _
          (λ _. evaluate_energy_threshold-Closed ref pods)
          (λ _.
            split_if K _ (str_eq condition "CPUThreshold") _ _
              (λ _. plain-Closed _ (first_node-Closed _ (evaluate_pressure-Closed cpu_kind) _ pods))
              (λ _.
                split_if K _ (str_eq condition "MemoryThreshold") _ _
                  (λ _.
                    plain-Closed _
                      (first_node-Closed _ (evaluate_pressure-Closed memory_kind) _ pods))
                  (λ _.
                    split_if K _ (str_eq condition "NodeFailure") _ _
                      (λ _. plain-Closed _ (first_node-Closed _ node_failure-Closed _ pods))
                      (λ _.
                        split_if K _ (str_eq condition "Scheduled") _ _ (λ _. c.done _ _)
                          (λ _. c.done _ _)))))

    matched-Closed :
        (condition : String) (rest : Prog (Option TriggerResult))
        → K (Option TriggerResult) rest
        → (found : Option Match)
        → K (Option TriggerResult) (elim found [
          | some m ↦ ret (
              some (record {
                condition = condition;
                reason = m.reason;
                bypass_action = m.bypass_action;
              }))
          | none ↦ rest
        ])
    matched-Closed condition rest h (some m) = c.done _ _
    matched-Closed condition rest h none = h

    first_match-Closed :
        (ref : ApplicationReference) (pods : List Pod) (conditions : List String)
        → K (Option TriggerResult) (first_match f threshold ref pods conditions)
    unfolding first_match
    first_match-Closed ref pods [] = c.done _ _
    first_match-Closed ref pods (condition ∷ conditions) =
        c.bind _ _ _ _ (evaluate_condition-Closed ref pods condition)
          (matched-Closed condition _ (first_match-Closed ref pods conditions))

    -- The evaluation has what every read has.
    pub evaluate-Closed :
        (profile : OrchestrationProfile)
        → K (Result (Option TriggerResult)) (evaluate f threshold profile)
    unfolding evaluate
    evaluate-Closed profile = c.bind _ _ _ _ (find_pods_for_application-Closed K c reads _) (
        on_ok-Closed K c _ _ _ _
          (λ pods. c.bind _ _ _ _ (first_match-Closed _ pods _) (λ _. c.done _ _)))

-- ===== src/Rebalance/Reconcile/Closed.antt =====
-- One reconcile, taken apart for any property of programs that sequencing keeps, that reads have
-- and that the profile's transitions have.
use hiro_adaptive_orchestrat.Base.{
  ◌≡◌, refl, ◌||◌, ltb, leb_ℤ, ltb_ℤ, not, ℤ, pos, false, String, is_empty, str_eq, if◌then◌else◌,
  Option, none, some, Result, ok, err, is_not_found,
}
use hiro_adaptive_orchestrat.Types.{
  Duration, RebalancingStatus, RebalanceAction, OrchestrationProfile,
}
use hiro_adaptive_orchestrat.Io.{Op, RebalanceDecisionResponse, Prog, ret, op}
use hiro_adaptive_orchestrat.Io.Closed.{Property, IsClosed, split_if}
use hiro_adaptive_orchestrat.Placement.Types.{DecisionRequest}
use hiro_adaptive_orchestrat.Placement.Client.Closed.{
  ClosedAsking, build_rebalance_context-Closed, request_rebalance_decision-Closed,
}
use hiro_adaptive_orchestrat.Rebalance.Settings.{
  Reconciler, positive_or, default_watchdog_stale_threshold,
}
use hiro_adaptive_orchestrat.Rebalance.Enact.{EnactResult}
use hiro_adaptive_orchestrat.Rebalance.Enact.Closed.{ClosedReads}
use hiro_adaptive_orchestrat.Rebalance.Enact.Closed.Patch.{
  resolve_replica_bounds-Closed, resolve_resource_state-Closed,
}
use hiro_adaptive_orchestrat.Rebalance.Enact.Move.{move_enactor}
use hiro_adaptive_orchestrat.Rebalance.Enact.Scale.{scale_enactor}
use hiro_adaptive_orchestrat.Rebalance.Enact.Resource.Bounds.{Targets, resource_bounds, check}
use hiro_adaptive_orchestrat.Rebalance.Enact.Resource.Resize.{resource_enactor}
use hiro_adaptive_orchestrat.Rebalance.Enact.Retry.{retry_pending_schedule}
use hiro_adaptive_orchestrat.Rebalance.Dispatch.{
  cooldown_of, dispatch_no_op, dispatch_reject, dispatch_defer, dispatch_escalate,
}
use hiro_adaptive_orchestrat.Rebalance.Dispatch.Closed.{
  ClosedTransitions, IsWorthwhile, ignore-Closed, step-Closed, finish-Closed, dispatch_move-Closed,
  dispatch_scale-Closed, dispatch_resource-Closed,
}
use hiro_adaptive_orchestrat.Rebalance.Triggers.{TriggerResult, action_retry_pending_schedule}
use hiro_adaptive_orchestrat.Rebalance.Triggers.Closed.{evaluate-Closed}
use hiro_adaptive_orchestrat.Rebalance.Reconcile.{
  dispatch, dispatch_decision, fail_evaluation, evaluate_with_ai, enact, finish_bypass,
  enact_bypass_action, recover_stuck_cycle, elapsed, requeue_after, is_in_flight,
  consult_unless_cooling, act_on, act_on_answer, ask, reconcile_profile, reconcile,
}

-- What an enactor may be run for: an answer that passed the guards, and no dry run.
pub record ClosedEnactors (K : Property) (r : Reconciler) (profile : OrchestrationProfile)
    (resp : RebalanceDecisionResponse) : Type 0 where
  pub waiting :
      profile.spec.rebalancing.dry_run ≡ false
      → IsWorthwhile r resp
      → (d : Duration) → K (Result (Unit {0})) (op (Op.wait_for_token d))
  pub moving :
      profile.spec.rebalancing.dry_run ≡ false
      → IsWorthwhile r resp
      → (is_empty resp.pod_name || is_empty resp.target_node) ≡ false
      → (id : String)
      → K (Result EnactResult) (
          move_enactor r.deps profile resp.pod_name resp.target_node resp.reason id
            r.move_action_timeout)
  pub scaling :
      profile.spec.rebalancing.dry_run ≡ false
      → IsWorthwhile r resp
      → leb_ℤ resp.target_replicas (pos 0) ≡ false
      → K
          (Result EnactResult)
          (scale_enactor r.deps profile resp.target_replicas resp.reason r.scale_action_timeout)
  pub resizing :
      (targets : Targets)
      → profile.spec.rebalancing.dry_run ≡ false
      → IsWorthwhile r resp
      → check r.deps (resource_bounds r) targets.cpu targets.memory ≡ none
      → K (Result EnactResult) (
          resource_enactor r.deps profile resp.container_name targets.cpu targets.memory resp.reason
            r.resource_action_timeout)

module _ (K : Property) (c : IsClosed K) (reads : ClosedReads K) (r : Reconciler) (key : String)
    (t : ClosedTransitions K r key) where
  module _ (profile : OrchestrationProfile) where
    dispatch-Closed :
        (act : RebalanceAction) (resp : RebalanceDecisionResponse)
        → ClosedEnactors K r profile resp
        → K (Unit {0}) (dispatch r key profile act resp)
    unfolding dispatch_no_op dispatch_reject dispatch_defer dispatch_escalate
    dispatch-Closed RebalanceAction.no_op resp e =
        finish-Closed K c r key t profile resp (cooldown_of profile) _ _ _
    dispatch-Closed RebalanceAction.reject resp e =
        finish-Closed K c r key t profile resp (cooldown_of profile) _ _ _
    dispatch-Closed RebalanceAction.defer resp e =
        finish-Closed K c r key t profile resp (cooldown_of profile) _ _ _
    dispatch-Closed RebalanceAction.escalate resp e =
        finish-Closed K c r key t profile resp (cooldown_of profile) _ _ _
    dispatch-Closed RebalanceAction.move resp e =
        dispatch_move-Closed K c r key t profile resp (cooldown_of profile) e.waiting e.moving
    dispatch-Closed RebalanceAction.adjust_replicas resp e =
        dispatch_scale-Closed K c r key t profile resp (cooldown_of profile)
          (resolve_replica_bounds-Closed K c reads profile _ _) e.scaling
    dispatch-Closed RebalanceAction.adjust_resources resp e =
        dispatch_resource-Closed K c r key t profile resp (cooldown_of profile)
          (resolve_resource_state-Closed K c reads r.deps profile _) e.resizing
    dispatch-Closed RebalanceAction.no_action resp e = ignore-Closed K c r key t _ _ (t _ _ _)
    dispatch-Closed RebalanceAction.retry_pending_schedule resp e =
        ignore-Closed K c r key t _ _ (t _ _ _)
    dispatch-Closed (RebalanceAction.other_action text) resp e =
        ignore-Closed K c r key t _ _ (t _ _ _)

    pub dispatch_decision-Closed :
        (resp : RebalanceDecisionResponse)
        → ClosedEnactors K r profile resp
        → K (Unit {0}) (dispatch_decision r key profile resp)
    unfolding dispatch_decision
    dispatch_decision-Closed resp e = dispatch-Closed resp.action resp e

    fail_evaluation-Closed : (reason : String) → K (Unit {0}) (fail_evaluation r key profile reason)
    unfolding fail_evaluation
    fail_evaluation-Closed reason = ignore-Closed K c r key t _ _ (t _ _ _)

    module _ (asking : ClosedAsking K)
        (enactors : (resp : RebalanceDecisionResponse) → ClosedEnactors K r profile resp) where
      act_on_answer-Closed :
          (answered : Result RebalanceDecisionResponse)
          → K (Unit {0}) (act_on_answer r key profile answered)
      act_on_answer-Closed (err e) = fail_evaluation-Closed _
      act_on_answer-Closed (ok resp) = dispatch_decision-Closed resp (enactors resp)

      ask-Closed : (built : Result DecisionRequest) → K (Unit {0}) (ask r key profile built)
      ask-Closed (err e) = fail_evaluation-Closed _
      ask-Closed (ok req) =
          c.bind _ _ _ _
            (request_rebalance_decision-Closed K c reads r.deps r.decision_client asking req)
            act_on_answer-Closed

      pub evaluate_with_ai-Closed :
          (result : TriggerResult) → K (Unit {0}) (evaluate_with_ai r key profile result)
      unfolding evaluate_with_ai
      evaluate_with_ai-Closed result = step-Closed K c r key t _ _ _ _ (λ _.
          step-Closed K c r key t _ _ _ _ (λ rs.
            c.bind _ _ _ _ (build_rebalance_context-Closed K c reads r.deps profile _ _ _)
              ask-Closed))

    finish_bypass-Closed :
        (result : TriggerResult) (res : Result (Unit {0}))
        → K (Unit {0}) (finish_bypass r key profile result res)
    finish_bypass-Closed result (ok _) = ignore-Closed K c r key t _ _ (t _ _ _)
    finish_bypass-Closed result (err e) = ignore-Closed K c r key t _ _ (t _ _ _)

    module _ (retrying : K (Result (Unit {0})) (retry_pending_schedule profile)) where
      enact-Closed : (action : String) → K (Result (Unit {0})) (enact r key profile action)
      unfolding enact
      enact-Closed action =
          split_if K _ (str_eq action action_retry_pending_schedule) _ _ (λ _. retrying)
            (λ _. c.done _ _)

      enact_bypass_action-Closed :
          (result : TriggerResult) → K (Unit {0}) (enact_bypass_action r key profile result)
      unfolding enact_bypass_action
      enact_bypass_action-Closed result = step-Closed K c r key t _ _ _ _ (λ _.
          step-Closed K c r key t _ _ _ _ (λ _. step-Closed K c r key t _ _ _ _ (λ _.
            step-Closed K c r key t _ _ _ _
              (λ _. c.bind _ _ _ _ (enact-Closed _) (finish_bypass-Closed result)))))

    pub recover_stuck_cycle-Closed :
        (rs : RebalancingStatus) → K (Unit {0}) (recover_stuck_cycle r key profile rs)
    unfolding recover_stuck_cycle
    recover_stuck_cycle-Closed rs = c.bind _ _ _ _ (reads _ refl) (λ now.
        split_if K _
          (ltb_ℤ (elapsed rs.last_transition_at now)
            (positive_or default_watchdog_stale_threshold r.watchdog_stale_threshold))
          _ _ (λ _. c.done _ _) (λ _. ignore-Closed K c r key t _ _ (t _ _ _)))

  pub requeue_after-Closed :
      (d : Duration) (m : Prog (Unit {0}))
      → K (Unit {0}) m
      → K (Result Duration) (requeue_after d m)
  requeue_after-Closed d m h = c.bind _ _ _ _ h (λ _. c.done _ _)

  module _ (threshold : ℤ) where
    module _ (profile : OrchestrationProfile) (asking : ClosedAsking K)
        (enactors : (resp : RebalanceDecisionResponse) → ClosedEnactors K r profile resp) where
      pub consult_unless_cooling-Closed :
          (result : TriggerResult)
          → K (Result Duration) (consult_unless_cooling r threshold key profile result)
      unfolding consult_unless_cooling
      consult_unless_cooling-Closed result =
          split_if K _ (ltb 0 profile.status.rebalancing_status.cooldown_until) _ _
            (λ _. c.bind _ _ _ _ (reads _ refl) (λ now.
              split_if K _ (ltb now profile.status.rebalancing_status.cooldown_until) _ _
                (λ _. c.done _ _)
                (λ _.
                  requeue_after-Closed _ _
                    (evaluate_with_ai-Closed profile asking enactors result))))
            (λ _. requeue_after-Closed _ _ (evaluate_with_ai-Closed profile asking enactors result))

    module _ (profile : OrchestrationProfile)
        (consulting : (result : TriggerResult)
          → K (Result Duration) (consult_unless_cooling r threshold key profile result))
        (retrying : K (Result (Unit {0})) (retry_pending_schedule profile)) where
      act_on-Closed :
          (found : Result (Option TriggerResult))
          → K (Result Duration) (act_on r threshold key profile found)
      act_on-Closed (err e) = c.done _ _
      act_on-Closed (ok none) = c.done _ _
      act_on-Closed (ok (some result)) =
          split_if K _ (is_empty result.bypass_action) _ _ (λ _. consulting result)
            (λ _. requeue_after-Closed _ _ (enact_bypass_action-Closed profile retrying result))

      pub reconcile_profile-Closed : K (Result Duration) (reconcile_profile r threshold key profile)
      unfolding reconcile_profile
      reconcile_profile-Closed =
          let rs = profile.status.rebalancing_status in
          split_if K _ (not profile.spec.rebalancing.enabled) _ _ (λ _. c.done _ _)
            (λ _.
              split_if K _ rs.is_escalated _ _ (λ _. c.done _ _)
                (λ _.
                  split_if K _ (is_in_flight rs.state) _ _
                    (λ _. requeue_after-Closed _ _ (recover_stuck_cycle-Closed profile rs))
                    (λ _.
                      c.bind _ _ _ _ (evaluate-Closed K c reads r.deps threshold profile)
                        act_on-Closed)))

    module _
        (profiles : (profile : OrchestrationProfile)
          → K (Result Duration) (reconcile_profile r threshold key profile)) where
      got-Closed :
          (got : Result OrchestrationProfile)
          → K (Result Duration) (elim got [
            | err e ↦ ret (if is_not_found e then ok (pos 0) else err e)
            | ok profile ↦ reconcile_profile r threshold key profile
          ])
      got-Closed (err e) = c.done _ _
      got-Closed (ok profile) = profiles profile

      pub reconcile-Closed : K (Result Duration) (reconcile r threshold key)
      unfolding reconcile
      reconcile-Closed = c.bind _ _ _ _ (reads _ refl) got-Closed

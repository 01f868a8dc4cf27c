-- ===== src/Rebalance/Reconcile.antt =====
-- internal/rebalance/reconciler.go: one reconcile of a profile, from the gates to the end of its
-- cycle.
pub mod Closed
pub mod Enactors
pub mod Gates
pub mod Safety
pub mod Permitted
pub mod Permits
pub mod Writes
pub mod Recovery
pub mod Cycle
use hiro_adaptive_orchestrat.Base.{
  ℕ, ◌-◌, ltb, String, ◌<>◌, Bool, true, false, not, ◌&&◌, ◌||◌, str_eq, is_empty, if◌then◌else◌,
  Option, none, some, ℤ, pos, negsuc, leb_ℤ, ltb_ℤ, Result, Error, ok, err, failure, is_not_found,
  Deps,
}
use hiro_adaptive_orchestrat.Types.{
  Time, Duration, RebalancingStateType, none_state, watching, triggered, evaluating, decided,
  enacting, RebalanceOutcome, RebalanceAction, action_text, RebalancingStatus, OrchestrationProfile,
}
use hiro_adaptive_orchestrat.Io.{Op, RebalanceDecisionResponse, Prog, ret, op, ◌>>=◌, ◌>>◌}
use hiro_adaptive_orchestrat.Placement.Types.{DecisionRequest}
use hiro_adaptive_orchestrat.Placement.Client.{request_rebalance_decision}
use hiro_adaptive_orchestrat.Placement.Builder.Workload.{build_rebalance_context}
use hiro_adaptive_orchestrat.Rebalance.Writer.{no_options, state_text}
use hiro_adaptive_orchestrat.Rebalance.Settings.{
  Reconciler, positive_or, default_watchdog_stale_threshold,
}
use hiro_adaptive_orchestrat.Rebalance.Dispatch.{
  transition_to, ignore, ends, on_transition, cooldown_of, dispatch_no_op, dispatch_reject,
  dispatch_defer, dispatch_escalate,
}
use hiro_adaptive_orchestrat.Rebalance.Dispatch.Move.{dispatch_move}
use hiro_adaptive_orchestrat.Rebalance.Dispatch.Scale.{dispatch_scale}
use hiro_adaptive_orchestrat.Rebalance.Dispatch.Resource.{dispatch_resource}
use hiro_adaptive_orchestrat.Rebalance.Enact.Retry.{retry_pending_schedule}
use hiro_adaptive_orchestrat.Rebalance.Triggers.{
  TriggerResult, action_retry_pending_schedule, evaluate,
}

-- `RebalanceAction(result.BypassAction)`: triggers.go produces one text.
abbrev bypass_of : String → RebalanceAction
bypass_of text =
    if str_eq text action_retry_pending_schedule
    then RebalanceAction.retry_pending_schedule
    else RebalanceAction.other_action text

-- `t.Sub(u)`, for times within the range of a duration.
abbrev pub elapsed : Time → Time → Duration
elapsed u t = if ltb t u then negsuc (u - t - 1) else pos (t - u)

module _ (r : Reconciler) (key : String) (profile : OrchestrationProfile) where
  abbrev cooldown : Duration
  cooldown = cooldown_of profile

  -- No entry in `actionDispatchers`.
  abbrev no_dispatcher : RebalanceDecisionResponse → Prog (Unit {0})
  no_dispatcher resp = ignore (
      transition_to r key watching
        ("no dispatcher for action "
          <> r.deps.quote (action_text resp.action)
          <> ": "
          <> resp.reason)
        (ends RebalanceAction.no_action RebalanceOutcome.failed cooldown))

  abbrev pub dispatch : RebalanceAction → RebalanceDecisionResponse → Prog (Unit {0})
  dispatch RebalanceAction.no_op resp = dispatch_no_op r key resp cooldown
  dispatch RebalanceAction.reject resp = dispatch_reject r key resp cooldown
  dispatch RebalanceAction.defer resp = dispatch_defer r key resp cooldown
  dispatch RebalanceAction.move resp = dispatch_move r key profile resp cooldown
  dispatch RebalanceAction.adjust_replicas resp = dispatch_scale r key profile resp cooldown
  dispatch RebalanceAction.adjust_resources resp = dispatch_resource r key profile resp cooldown
  dispatch RebalanceAction.escalate resp = dispatch_escalate r key resp cooldown
  dispatch RebalanceAction.no_action resp = no_dispatcher resp
  dispatch RebalanceAction.retry_pending_schedule resp = no_dispatcher resp
  dispatch (RebalanceAction.other_action text) resp = no_dispatcher resp

  -- `dispatchDecision`
  unfoldable pub dispatch_decision : RebalanceDecisionResponse → Prog (Unit {0})
  dispatch_decision resp = dispatch resp.action resp

  -- `failEvaluation`
  unfoldable pub fail_evaluation : String → Prog (Unit {0})
  fail_evaluation reason = ignore (
      transition_to r key watching reason
        (ends RebalanceAction.no_action RebalanceOutcome.failed cooldown))

  abbrev trigger_reason : TriggerResult → String
  trigger_reason result = result.condition <> ": " <> result.reason

  -- What an answer of the agent leads to.
  abbrev pub act_on_answer : Result RebalanceDecisionResponse → Prog (Unit {0})
  act_on_answer (err e) = fail_evaluation ("AI unavailable: " <> e.message)
  act_on_answer (ok resp) = dispatch_decision resp

  abbrev pub ask : Result DecisionRequest → Prog (Unit {0})
  ask (err e) = fail_evaluation ("building AI decision context: " <> e.message)
  ask (ok req) = request_rebalance_decision r.deps r.decision_client req >>= act_on_answer

  -- The consultation, after Evaluating is entered.
  abbrev pub consult : String → RebalancingStatus → Prog (Unit {0})
  consult reason rs =
      build_rebalance_context r.deps profile rs.decision_id reason rs.recent_decisions >>= ask

  -- `evaluateWithAI`
  unfoldable pub evaluate_with_ai : TriggerResult → Prog (Unit {0})
  unfolding fail_evaluation dispatch_decision
  evaluate_with_ai result =
      transition_to r key triggered (trigger_reason result) no_options
      >>= on_transition (λ _.
        transition_to r key evaluating "requesting AI rebalance decision" no_options
        >>= on_transition (consult (trigger_reason result)))

  -- `enact`
  unfoldable pub enact : String → Prog (Result (Unit {0}))
  enact action =
      if str_eq action action_retry_pending_schedule
      then retry_pending_schedule profile
      else ret (err (failure ("unknown bypass action " <> r.deps.quote action)))

  abbrev pub finish_bypass : TriggerResult → Result (Unit {0}) → Prog (Unit {0})
  finish_bypass result (ok _) = ignore (
      transition_to r key watching (trigger_reason result)
        (ends (bypass_of result.bypass_action) RebalanceOutcome.enacted cooldown))
  finish_bypass result (err e) = ignore (
      transition_to r key watching e.message
        (ends (bypass_of result.bypass_action) RebalanceOutcome.failed cooldown))

  -- `enactBypassAction`
  unfoldable pub enact_bypass_action : TriggerResult → Prog (Unit {0})
  unfolding enact
  enact_bypass_action result =
      let action = bypass_of result.bypass_action in
      transition_to r key triggered (trigger_reason result) no_options
      >>= on_transition (λ _.
        transition_to r key evaluating
          "mechanical action determined by trigger, bypassing AI consultation" no_options
        >>= on_transition (λ _.
          transition_to r key decided (trigger_reason result)
            (record no_options { action = action })
          >>= on_transition (λ _.
            transition_to r key enacting ("enacting " <> result.bypass_action)
              (record no_options { action = action })
            >>= on_transition (λ _. enact result.bypass_action >>= finish_bypass result))))

  -- `recoverStuckCycle`
  unfoldable pub recover_stuck_cycle : RebalancingStatus → Prog (Unit {0})
  recover_stuck_cycle rs = op Op.now >>= λ t.
      (if ltb_ℤ (elapsed rs.last_transition_at t)
          (positive_or default_watchdog_stale_threshold r.watchdog_stale_threshold)
        then ret tt
        else ignore (
            transition_to r key watching
              ("watchdog: recovered after being stuck in "
                <> state_text rs.state
                <> " for "
                <> r.deps.seconds (elapsed rs.last_transition_at t)
                <> ", likely an operator restart mid-cycle")
              (ends RebalanceAction.no_action RebalanceOutcome.failed cooldown)))

-- `ctrl.Result{RequeueAfter: d}`, or an error; no requeue is 0.
abbrev pub requeue_after : Duration → Prog (Unit {0}) → Prog (Result Duration)
requeue_after d m = m >>= λ _. ret (ok d)

-- A cycle is under way.
abbrev pub is_in_flight : RebalancingStateType → Bool
is_in_flight none_state = false
is_in_flight watching = false
is_in_flight _ = true

module _ (r : Reconciler) (pressure_threshold : ℤ) (key : String) where
  -- The cooldown gate in front of the agent.
  unfoldable pub consult_unless_cooling :
      OrchestrationProfile → TriggerResult → Prog (Result Duration)
  consult_unless_cooling profile result =
      let rs = profile.status.rebalancing_status in
      let proceed = requeue_after r.detection_interval (evaluate_with_ai r key profile result) in
      if ltb 0 rs.cooldown_until
      then (op Op.now >>= λ t.
          (if ltb t rs.cooldown_until then ret (ok (elapsed t rs.cooldown_until)) else proceed))
      else proceed

  abbrev pub act_on : OrchestrationProfile → Result (Option TriggerResult) → Prog (Result Duration)
  act_on profile (err e) = ret (ok r.detection_interval)
  act_on profile (ok none) = ret (ok r.detection_interval)
  act_on profile (ok (some result)) =
      if is_empty result.bypass_action
      then consult_unless_cooling profile result
      else requeue_after r.detection_interval (enact_bypass_action r key profile result)

  -- What a profile leads to.
  unfoldable pub reconcile_profile : OrchestrationProfile → Prog (Result Duration)
  unfolding consult_unless_cooling
  reconcile_profile profile =
      let rs = profile.status.rebalancing_status in
      if not profile.spec.rebalancing.enabled
      then ret (ok (pos 0))
      else if rs.is_escalated
      then ret (ok (pos 0))
      else if is_in_flight rs.state
      then requeue_after r.detection_interval (recover_stuck_cycle r key profile rs)
      else (evaluate r.deps pressure_threshold profile >>= act_on profile)

  -- `Reconcile`
  unfoldable pub reconcile : Prog (Result Duration)
  unfolding reconcile_profile
  reconcile = op (Op.get_profile key) >>= λ got. elim got [
    | err e ↦ ret (if is_not_found e then ok (pos 0) else err e)
    | ok profile ↦ reconcile_profile profile
  ]

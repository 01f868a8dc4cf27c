-- ===== src/Rebalance/Dispatch/Move.antt =====
-- internal/rebalance/dispatch.go: the Move dispatcher.
use hiro_adaptive_orchestrat.Base.{
  String, ◌<>◌, ◌||◌, is_empty, if◌then◌else◌, pos, ltb_ℤ, Result, ok, err,
}
use hiro_adaptive_orchestrat.Types.{
  Duration, watching, decided, enacting, RebalanceOutcome, RebalancingStatus, OrchestrationProfile,
}
use hiro_adaptive_orchestrat.Io.{Op, RebalanceDecisionResponse, Prog, op, ◌>>=◌}
use hiro_adaptive_orchestrat.Rebalance.Writer.{no_options}
use hiro_adaptive_orchestrat.Rebalance.Settings.{
  Reconciler, positive_or, default_improvement_threshold, default_move_rate_wait_timeout,
}
use hiro_adaptive_orchestrat.Rebalance.Dispatch.{transition_to, ignore, ends, finish, on_transition}
use hiro_adaptive_orchestrat.Rebalance.Enact.{EnactResult}
use hiro_adaptive_orchestrat.Rebalance.Enact.Move.{move_enactor}

module _ (r : Reconciler) (key : String) (profile : OrchestrationProfile)
    (resp : RebalanceDecisionResponse) (cooldown : Duration) where
  -- `dispatchMoveDryRun`
  unfoldable pub dispatch_move_dry_run : Prog (Unit {0})
  dispatch_move_dry_run =
      transition_to r key enacting
        ("dry-run: would enact move of " <> resp.pod_name <> " to " <> resp.target_node)
        (record no_options { action = resp.action })
      >>= on_transition (λ _. ignore (
          transition_to r key watching "dry-run: no side effects applied"
            (record (ends resp.action RebalanceOutcome.enacted cooldown) {
              details =
                  "[dry-run] would move "
                  <> resp.pod_name
                  <> " to "
                  <> resp.target_node
                  <> " (improvement="
                  <> r.deps.fixed2 resp.improvement
                  <> "): "
                  <> resp.reason;
            })))

  -- The enactor's result, or its error, ends the cycle.
  abbrev pub finish_enacted : Result EnactResult → Prog (Unit {0})
  finish_enacted (ok result) = finish r key resp cooldown result.reason result.outcome
  finish_enacted (err e) = finish r key resp cooldown e.message RebalanceOutcome.failed

  abbrev enact_move : RebalancingStatus → Prog (Unit {0})
  enact_move status =
      transition_to r key enacting
        ("enacting move of " <> resp.pod_name <> " to " <> resp.target_node)
        (record no_options { action = resp.action })
      >>= on_transition (λ _.
        move_enactor r.deps profile resp.pod_name resp.target_node resp.reason status.decision_id
          r.move_action_timeout
        >>= finish_enacted)

  -- The wait for a token of the cluster-wide limiter; a failure sets no cooldown.
  abbrev pub throttled : RebalancingStatus → Result (Unit {0}) → Prog (Unit {0})
  throttled status (ok _) = enact_move status
  throttled status (err e) =
      finish r key resp (pos 0) ("cluster-wide move rate limit: " <> e.message)
        RebalanceOutcome.failed

  abbrev decided_move : RebalancingStatus → Prog (Unit {0})
  decided_move status =
      if profile.spec.rebalancing.dry_run
      then dispatch_move_dry_run
      else (op (
            Op.wait_for_token (positive_or default_move_rate_wait_timeout r.move_rate_wait_timeout))
          >>= throttled status)

  -- `dispatchMove`
  unfoldable pub dispatch_move : Prog (Unit {0})
  unfolding dispatch_move_dry_run
  dispatch_move =
      let threshold = positive_or default_improvement_threshold r.improvement_threshold in
      if ltb_ℤ resp.improvement threshold
      then finish r key resp cooldown
          ("improvement "
            <> r.deps.fixed2 resp.improvement
            <> " below threshold "
            <> r.deps.fixed2 threshold
            <> ": "
            <> resp.reason)
          RebalanceOutcome.rejected
      else if is_empty resp.pod_name || is_empty resp.target_node
      then finish r key resp cooldown ("Move response missing podName/targetNode: " <> resp.reason)
          RebalanceOutcome.failed
      else (transition_to r key decided resp.reason (record no_options {
        action = resp.action;
        details =
            "podName="
            <> resp.pod_name
            <> " targetNode="
            <> resp.target_node
            <> " improvement="
            <> r.deps.fixed2 resp.improvement;
      })
          >>= on_transition decided_move)

-- ===== src/Rebalance/Dispatch/Scale.antt =====
-- internal/rebalance/dispatch.go: the AdjustReplicas dispatcher.
use hiro_adaptive_orchestrat.Base.{String, ◌<>◌, Bool, ◌||◌, if◌then◌else◌, pos, leb_ℤ, ltb_ℤ}
use hiro_adaptive_orchestrat.Types.{
  Duration, watching, decided, enacting, RebalanceOutcome, OrchestrationProfile,
}
use hiro_adaptive_orchestrat.Io.{RebalanceDecisionResponse, Prog, ◌>>=◌}
use hiro_adaptive_orchestrat.Rebalance.Writer.{no_options}
use hiro_adaptive_orchestrat.Rebalance.Settings.{
  Reconciler, positive_or, default_improvement_threshold,
}
use hiro_adaptive_orchestrat.Rebalance.Dispatch.{transition_to, ignore, ends, finish, on_transition}
use hiro_adaptive_orchestrat.Rebalance.Dispatch.Move.{finish_enacted}
use hiro_adaptive_orchestrat.Rebalance.Enact.Scale.{
  ReplicaBounds, resolve_replica_bounds, scale_enactor,
}

module _ (r : Reconciler) (key : String) (profile : OrchestrationProfile)
    (resp : RebalanceDecisionResponse) (cooldown : Duration) where
  abbrev replicas_text : String
  replicas_text = r.deps.int resp.target_replicas

  -- `dispatchScaleDryRun`
  unfoldable pub dispatch_scale_dry_run : Prog (Unit {0})
  dispatch_scale_dry_run =
      transition_to r key enacting
        ("dry-run: would enact scale to " <> replicas_text <> " replicas")
        (record no_options { action = resp.action })
      >>= on_transition (λ _. ignore (
          transition_to r key watching "dry-run: no side effects applied"
            (record (ends resp.action RebalanceOutcome.enacted cooldown) {
              details =
                  "[dry-run] would scale to "
                  <> replicas_text
                  <> " replicas (improvement="
                  <> r.deps.fixed2 resp.improvement
                  <> "): "
                  <> resp.reason;
            })))

  abbrev enact_scale : Prog (Unit {0})
  enact_scale =
      transition_to r key enacting ("enacting scale to " <> replicas_text <> " replicas")
        (record no_options { action = resp.action })
      >>= on_transition (λ _.
        scale_enactor r.deps profile resp.target_replicas resp.reason r.scale_action_timeout
        >>= finish_enacted r key profile resp cooldown)

  -- The replica bounds as a text.
  abbrev bounds_text : ReplicaBounds → String
  bounds_text b = r.deps.int b.min <> ", " <> r.deps.int b.max <> "] (" <> b.source <> ")"

  -- Whether the bounds leave the target out.
  abbrev pub out_of_bounds : ReplicaBounds → Bool
  out_of_bounds b = ltb_ℤ resp.target_replicas b.min || ltb_ℤ b.max resp.target_replicas

  unfoldable pub scale_within : ReplicaBounds → Prog (Unit {0})
  unfolding dispatch_scale_dry_run
  scale_within bounds =
      if bounds.keda_managed
      then finish r key resp cooldown
          ("workload is managed by KEDA ScaledObject " <> bounds.keda_owner
            <> ": deferring to its own autoscaling")
          RebalanceOutcome.deferred
      else if out_of_bounds bounds
      then finish r key resp cooldown
          ("targetReplicas "
            <> replicas_text
            <> " outside ["
            <> bounds_text bounds
            <> ": "
            <> resp.reason)
          RebalanceOutcome.rejected
      else (transition_to r key decided resp.reason (record no_options {
        action = resp.action;
        details =
            "targetReplicas="
            <> replicas_text
            <> " improvement="
            <> r.deps.fixed2 resp.improvement
            <> " bounds=["
            <> r.deps.int bounds.min
            <> ","
            <> r.deps.int bounds.max
            <> "] ("
            <> bounds.source
            <> ")";
      })
          >>= on_transition (λ _.
            if profile.spec.rebalancing.dry_run then dispatch_scale_dry_run else enact_scale))

  -- `dispatchScale`
  unfoldable pub dispatch_scale : Prog (Unit {0})
  unfolding scale_within
  dispatch_scale =
      let threshold = positive_or default_improvement_threshold r.improvement_threshold in
      if ltb_ℤ resp.improvement threshold
      then finish r key resp cooldown
          ("improvement "
            <> r.deps.fixed2 resp.improvement
            <> " below threshold "
            <> r.deps.fixed2 threshold
            <> ": "
            <> resp.reason)
          RebalanceOutcome.rejected
      else if leb_ℤ resp.target_replicas (pos 0)
      then finish r key resp cooldown
          ("AdjustReplicas response missing/invalid targetReplicas: " <> resp.reason)
          RebalanceOutcome.failed
      else (resolve_replica_bounds profile r.min_replicas r.max_replicas >>= scale_within)

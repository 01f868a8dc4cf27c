-- ===== src/Rebalance/Dispatch/Resource.antt =====
-- internal/rebalance/dispatch.go: the AdjustResources dispatcher.
use hiro_adaptive_orchestrat.Base.{
  String, ◌<>◌, ◌||◌, ◌&&◌, is_empty, if◌then◌else◌, none, some, ltb_ℤ, Result, ok, err,
}
use hiro_adaptive_orchestrat.Types.{
  Duration, watching, decided, enacting, RebalanceOutcome, OrchestrationProfile,
}
use hiro_adaptive_orchestrat.Io.{RebalanceDecisionResponse, Prog, ◌>>=◌}
use hiro_adaptive_orchestrat.Rebalance.Writer.{no_options}
use hiro_adaptive_orchestrat.Rebalance.Settings.{
  Reconciler, positive_or, default_improvement_threshold,
}
use hiro_adaptive_orchestrat.Rebalance.Dispatch.{transition_to, ignore, ends, finish, on_transition}
use hiro_adaptive_orchestrat.Rebalance.Dispatch.Move.{finish_enacted}
use hiro_adaptive_orchestrat.Rebalance.Enact.Resource.{ResourceState, resolve_resource_state}
use hiro_adaptive_orchestrat.Rebalance.Enact.Resource.Bounds.{
  Targets, resource_bounds, check, parse_target_resources,
}
use hiro_adaptive_orchestrat.Rebalance.Enact.Resource.Resize.{resource_enactor}

module _ (r : Reconciler) (key : String) (profile : OrchestrationProfile)
    (resp : RebalanceDecisionResponse) (cooldown : Duration) where
  abbrev change_text : String
  change_text =
      "container=" <> resp.container_name <> " cpu=" <> resp.target_cpu <> " memory="
      <> resp.target_memory

  abbrev pub give_up : String → Prog (Unit {0})
  give_up reason = finish r key resp cooldown reason RebalanceOutcome.failed

  -- `dispatchResourceDryRun`
  unfoldable pub dispatch_resource_dry_run : Prog (Unit {0})
  dispatch_resource_dry_run =
      transition_to r key enacting ("dry-run: would enact resource adjustment on " <> change_text)
        (record no_options { action = resp.action })
      >>= on_transition (λ _. ignore (
          transition_to r key watching "dry-run: no side effects applied"
            (record (ends resp.action RebalanceOutcome.enacted cooldown) {
              details =
                  "[dry-run] would set "
                  <> change_text
                  <> " (improvement="
                  <> r.deps.fixed2 resp.improvement
                  <> "): "
                  <> resp.reason;
            })))

  abbrev enact_resource : Targets → Prog (Unit {0})
  enact_resource t =
      transition_to r key enacting ("enacting resource adjustment on " <> change_text)
        (record no_options { action = resp.action })
      >>= on_transition (λ _.
        resource_enactor r.deps profile resp.container_name t.cpu t.memory resp.reason
          r.resource_action_timeout
        >>= finish_enacted r key profile resp cooldown)

  abbrev pub decide_resource : Targets → Prog (Unit {0})
  decide_resource t =
      transition_to r key decided resp.reason (record no_options {
        action = resp.action;
        details =
            "container="
            <> resp.container_name
            <> " targetCpu="
            <> resp.target_cpu
            <> " targetMemory="
            <> resp.target_memory
            <> " improvement="
            <> r.deps.fixed2 resp.improvement;
      })
      >>= on_transition (λ _.
        if profile.spec.rebalancing.dry_run then dispatch_resource_dry_run else enact_resource t)

  -- The container's state, and the bounds.
  unfoldable pub judge_state : Targets → Result ResourceState → Prog (Unit {0})
  unfolding dispatch_resource_dry_run
  judge_state t (err e) = give_up e.message
  judge_state t (ok state) =
      if state.found
      then (if state.has_existing_limits
          then elim (check r.deps (resource_bounds r) t.cpu t.memory) [
            | some violated ↦
                finish r key resp cooldown (violated <> ": " <> resp.reason)
                  RebalanceOutcome.rejected
            | none ↦ decide_resource t
          ]
          else finish r key resp cooldown
              ("container "
                <> r.deps.quote resp.container_name
                <> " has no existing CPU/Memory requests or limits — already scales elastically, deferring rather than imposing new constraints")
              RebalanceOutcome.deferred)
      else give_up (
          "container "
          <> r.deps.quote resp.container_name
          <> " not found in workload template: "
          <> resp.reason)

  -- `dispatchResource`
  unfoldable pub dispatch_resource : Prog (Unit {0})
  unfolding judge_state
  dispatch_resource =
      let threshold = positive_or default_improvement_threshold r.improvement_threshold in
      if ltb_ℤ resp.improvement threshold
      then finish r key resp cooldown
          ("improvement "
            <> r.deps.fixed2 resp.improvement
            <> " below threshold "
            <> r.deps.fixed2 threshold
            <> ": "
            <> resp.reason)
          RebalanceOutcome.rejected
      else if is_empty resp.container_name
          || (is_empty resp.target_cpu && is_empty resp.target_memory)
      then give_up (
          "AdjustResources response missing containerName and/or targetCpu/targetMemory: "
          <> resp.reason)
      else elim (parse_target_resources r.deps resp.target_cpu resp.target_memory) [
        | err e ↦ give_up (
            "AdjustResources response has an invalid quantity: " <> e.message <> ": "
            <> resp.reason)
        | ok t ↦ resolve_resource_state r.deps profile resp.container_name >>= judge_state t
      ]

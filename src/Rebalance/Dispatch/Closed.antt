-- ===== src/Rebalance/Dispatch/Closed.antt =====
-- The dispatchers of internal/rebalance/dispatch.go, taken apart once for every property of programs
-- that sequencing keeps: what their transitions and enactors have, they have. The enactors are only
-- run behind the guards, so they are wanted only under what the guards ensure.
use hiro_adaptive_orchestrat.Base.{
  ◌≡◌, refl, ◌||◌, ◌&&◌, Bool, false, String, ◌<>◌, pos, leb_ℤ, ltb_ℤ, is_empty, Option, none, some,
  Result, ok, err,
}
use hiro_adaptive_orchestrat.Types.{
  Duration, RebalancingStateType, RebalanceOutcome, RebalancingStatus, OrchestrationProfile,
}
use hiro_adaptive_orchestrat.Io.{Op, RebalanceDecisionResponse, Prog, op, ◌>>=◌}
use hiro_adaptive_orchestrat.Io.Closed.{Property, IsClosed, split_if}
use hiro_adaptive_orchestrat.Rebalance.Writer.{TransitionOptions}
use hiro_adaptive_orchestrat.Rebalance.Settings.{
  Reconciler, positive_or, default_improvement_threshold,
}
use hiro_adaptive_orchestrat.Rebalance.Dispatch.{transition_to, ignore, finish, on_transition}
use hiro_adaptive_orchestrat.Rebalance.Dispatch.Move.{
  dispatch_move, dispatch_move_dry_run, throttled, finish_enacted,
}
use hiro_adaptive_orchestrat.Rebalance.Dispatch.Scale.{
  dispatch_scale, dispatch_scale_dry_run, out_of_bounds, scale_within,
}
use hiro_adaptive_orchestrat.Rebalance.Dispatch.Resource.{
  dispatch_resource, dispatch_resource_dry_run, decide_resource, judge_state, give_up,
}
use hiro_adaptive_orchestrat.Rebalance.Enact.{EnactResult}
use hiro_adaptive_orchestrat.Rebalance.Enact.Move.{move_enactor}
use hiro_adaptive_orchestrat.Rebalance.Enact.Scale.{
  ReplicaBounds, resolve_replica_bounds, scale_enactor,
}
use hiro_adaptive_orchestrat.Rebalance.Enact.Resource.{ResourceState, resolve_resource_state}
use hiro_adaptive_orchestrat.Rebalance.Enact.Resource.Bounds.{Targets, resource_bounds, check}
use hiro_adaptive_orchestrat.Rebalance.Enact.Resource.Resize.{resource_enactor}

-- The transitions of a profile have the property.
abbrev pub ClosedTransitions : Property → Reconciler → String → Type 0
ClosedTransitions K r key =
    (to : RebalancingStateType) (reason : String) (opts : TransitionOptions)
    → K (Result RebalancingStatus) (transition_to r key to reason opts)

-- The guard on the improvement.
abbrev pub is_below_threshold : Reconciler → RebalanceDecisionResponse → Bool
is_below_threshold r resp =
    ltb_ℤ resp.improvement (positive_or default_improvement_threshold r.improvement_threshold)

-- It lets the answer pass.
abbrev pub IsWorthwhile : Reconciler → RebalanceDecisionResponse → Type 0
IsWorthwhile r resp = is_below_threshold r resp ≡ false

module _ (K : Property) (c : IsClosed K) (r : Reconciler) (key : String)
    (t : ClosedTransitions K r key) where
  pub ignore-Closed : (A : Type 0) (m : Prog (Result A)) → K (Result A) m → K (Unit {0}) (ignore m)
  ignore-Closed A m h = c.bind _ _ m _ h (λ _. c.done _ _)

  pub on_transition-Closed :
      (k : RebalancingStatus → Prog (Unit {0}))
      → ((s : RebalancingStatus) → K (Unit {0}) (k s))
      → (res : Result RebalancingStatus) → K (Unit {0}) (on_transition k res)
  on_transition-Closed k h (ok s) = h s
  on_transition-Closed k h (err e) = c.done _ _

  pub step-Closed :
      (to : RebalancingStateType) (reason : String) (opts : TransitionOptions)
      (k : RebalancingStatus → Prog (Unit {0}))
      → ((s : RebalancingStatus) → K (Unit {0}) (k s))
      → K (Unit {0}) (transition_to r key to reason opts >>= on_transition k)
  step-Closed to reason opts k h = c.bind _ _ _ _ (t to reason opts) (on_transition-Closed k h)

  module _ (profile : OrchestrationProfile) (resp : RebalanceDecisionResponse)
      (cooldown : Duration) where
    pub finish-Closed :
        (cd : Duration) (reason : String) (o : RebalanceOutcome)
        → K (Unit {0}) (finish r key resp cd reason o)
    finish-Closed cd reason o = ignore-Closed _ _ (t _ _ _)

    finish_enacted-Closed :
        (res : Result EnactResult) → K (Unit {0}) (finish_enacted r key profile resp cooldown res)
    finish_enacted-Closed (ok e) = finish-Closed _ _ _
    finish_enacted-Closed (err e) = finish-Closed _ _ _

    dispatch_move_dry_run-Closed : K (Unit {0}) (dispatch_move_dry_run r key profile resp cooldown)
    unfolding dispatch_move_dry_run
    dispatch_move_dry_run-Closed = step-Closed _ _ _ _ (λ _. ignore-Closed _ _ (t _ _ _))

    throttled-Closed :
        (status : RebalancingStatus)
        → K (Result EnactResult) (
            move_enactor r.deps profile resp.pod_name resp.target_node resp.reason
              status.decision_id r.move_action_timeout)
        → (res : Result (Unit {0}))
        → K (Unit {0}) (throttled r key profile resp cooldown status res)
    throttled-Closed status h (ok _) =
        step-Closed _ _ _ _ (λ _. c.bind _ _ _ _ h finish_enacted-Closed)
    throttled-Closed status h (err e) = finish-Closed _ _ _

    -- The limiter is asked and the move enactor runs only for a worthwhile answer that names a pod and a node, and not in a
    -- dry run.
    pub dispatch_move-Closed :
        (profile.spec.rebalancing.dry_run ≡ false
          → IsWorthwhile r resp
          → (d : Duration) → K (Result (Unit {0})) (op (Op.wait_for_token d)))
        → (profile.spec.rebalancing.dry_run ≡ false
            → IsWorthwhile r resp
            → (is_empty resp.pod_name || is_empty resp.target_node) ≡ false
            → (id : String)
            → K (Result EnactResult) (
                move_enactor r.deps profile resp.pod_name resp.target_node resp.reason id
                  r.move_action_timeout))
        → K (Unit {0}) (dispatch_move r key profile resp cooldown)
    unfolding dispatch_move
    dispatch_move-Closed token enactor =
        split_if K _ _ _ _ (λ _. finish-Closed _ _ _)
          λ worthwhile.
            split_if K _ _ _ _ (λ _. finish-Closed _ _ _)
              λ named. step-Closed _ _ _ _ λ status.
                split_if K _ _ _ _ (λ _. dispatch_move_dry_run-Closed)
                  λ real.
                    c.bind _ _ _ _ (token real worthwhile _)
                      (throttled-Closed status (enactor real worthwhile named _))

    dispatch_scale_dry_run-Closed :
        K (Unit {0}) (dispatch_scale_dry_run r key profile resp cooldown)
    unfolding dispatch_scale_dry_run
    dispatch_scale_dry_run-Closed = step-Closed _ _ _ _ (λ _. ignore-Closed _ _ (t _ _ _))

    pub scale_within-Closed :
        (b : ReplicaBounds)
        → (profile.spec.rebalancing.dry_run ≡ false
            → b.keda_managed ≡ false
            → out_of_bounds r key profile resp cooldown b ≡ false
            → K (Result EnactResult) (
                scale_enactor r.deps profile resp.target_replicas resp.reason
                  r.scale_action_timeout))
        → K (Unit {0}) (scale_within r key profile resp cooldown b)
    unfolding scale_within
    scale_within-Closed b enactor =
        split_if K _ b.keda_managed _ _ (λ _. finish-Closed _ _ _)
          λ unmanaged.
            split_if K _ _ _ _ (λ _. finish-Closed _ _ _)
              λ within. step-Closed _ _ _ _ λ _.
                split_if K _ _ _ _ (λ _. dispatch_scale_dry_run-Closed)
                  λ real.
                    step-Closed _ _ _ _
                      (λ _. c.bind _ _ _ _ (enactor real unmanaged within) finish_enacted-Closed)

    -- The bounds are only resolved for a worthwhile answer that asks for at least one replica.
    pub guarded_scale-Closed :
        (IsWorthwhile r resp
          → leb_ℤ resp.target_replicas (pos 0) ≡ false
          → K (Unit {0}) (
              resolve_replica_bounds profile r.min_replicas r.max_replicas
              >>= scale_within r key profile resp cooldown))
        → K (Unit {0}) (dispatch_scale r key profile resp cooldown)
    unfolding dispatch_scale
    guarded_scale-Closed bounded =
        split_if K _ _ _ _ (λ _. finish-Closed _ _ _)
          λ worthwhile. split_if K _ _ _ _ (λ _. finish-Closed _ _ _) (bounded worthwhile)

    -- The scale enactor runs only for a worthwhile answer that asks for at least one replica, and not
    -- in a dry run.
    pub dispatch_scale-Closed :
        K ReplicaBounds (resolve_replica_bounds profile r.min_replicas r.max_replicas)
        → (profile.spec.rebalancing.dry_run ≡ false
            → IsWorthwhile r resp
            → leb_ℤ resp.target_replicas (pos 0) ≡ false
            → K (Result EnactResult) (
                scale_enactor r.deps profile resp.target_replicas resp.reason
                  r.scale_action_timeout))
        → K (Unit {0}) (dispatch_scale r key profile resp cooldown)
    dispatch_scale-Closed bounds enactor = guarded_scale-Closed (λ worthwhile positive.
        c.bind _ _ _ _ bounds
          (λ b. scale_within-Closed b (λ real _ within. enactor real worthwhile positive)))

    dispatch_resource_dry_run-Closed :
        K (Unit {0}) (dispatch_resource_dry_run r key profile resp cooldown)
    unfolding dispatch_resource_dry_run
    dispatch_resource_dry_run-Closed = step-Closed _ _ _ _ (λ _. ignore-Closed _ _ (t _ _ _))

    module _
        (enactor : (targets : Targets)
          → profile.spec.rebalancing.dry_run ≡ false
          → IsWorthwhile r resp
          → check r.deps (resource_bounds r) targets.cpu targets.memory ≡ none
          → K (Result EnactResult) (
              resource_enactor r.deps profile resp.container_name targets.cpu targets.memory
                resp.reason r.resource_action_timeout))
        (worthwhile : IsWorthwhile r resp) where
      decide-Closed :
          (targets : Targets) (violated : Option String)
          → check r.deps (resource_bounds r) targets.cpu targets.memory ≡ violated
          → K (Unit {0}) (elim violated [
            | some v ↦
                finish r key resp cooldown (v <> ": " <> resp.reason) RebalanceOutcome.rejected
            | none ↦ decide_resource r key profile resp cooldown targets
          ])
      decide-Closed targets (some v) e = finish-Closed _ _ _
      decide-Closed targets none e = step-Closed _ _ _ _ λ _.
          split_if K _ _ _ _ (λ _. dispatch_resource_dry_run-Closed)
            λ real.
              step-Closed _ _ _ _
                (λ _. c.bind _ _ _ _ (enactor targets real worthwhile e) finish_enacted-Closed)

      judge_state-Closed :
          (targets : Targets) (res : Result ResourceState)
          → K (Unit {0}) (judge_state r key profile resp cooldown targets res)
      unfolding judge_state
      judge_state-Closed targets (err e) = finish-Closed _ _ _
      judge_state-Closed targets (ok state) =
          split_if K _ state.found _ _
            (λ _.
              split_if K _ state.has_existing_limits _ _ (λ _. decide-Closed targets _ refl)
                (λ _. finish-Closed _ _ _))
            (λ _. finish-Closed _ _ _)

      parsed-Closed :
          K (Result ResourceState) (resolve_resource_state r.deps profile resp.container_name)
          → (parsed : Result Targets)
          → K (Unit {0}) (elim parsed [
            | err e ↦ give_up r key profile resp cooldown (
                "AdjustResources response has an invalid quantity: " <> e.message <> ": "
                <> resp.reason)
            | ok targets ↦
                resolve_resource_state r.deps profile resp.container_name
                >>= judge_state r key profile resp cooldown targets
          ])
      parsed-Closed state (err e) = finish-Closed _ _ _
      parsed-Closed state (ok targets) = c.bind _ _ _ _ state (judge_state-Closed targets)

    -- The resource enactor runs only for a worthwhile answer whose targets pass the bounds, and not in
    -- a dry run.
    pub dispatch_resource-Closed :
        K (Result ResourceState) (resolve_resource_state r.deps profile resp.container_name)
        → ((targets : Targets)
            → profile.spec.rebalancing.dry_run ≡ false
            → IsWorthwhile r resp
            → check r.deps (resource_bounds r) targets.cpu targets.memory ≡ none
            → K (Result EnactResult) (
                resource_enactor r.deps profile resp.container_name targets.cpu targets.memory
                  resp.reason r.resource_action_timeout))
        → K (Unit {0}) (dispatch_resource r key profile resp cooldown)
    unfolding dispatch_resource
    dispatch_resource-Closed state enactor =
        split_if K _ _ _ _ (λ _. finish-Closed _ _ _)
          λ worthwhile.
            split_if K _
              (is_empty resp.container_name
                || (is_empty resp.target_cpu && is_empty resp.target_memory))
              _ _ (λ _. finish-Closed _ _ _) λ named. parsed-Closed enactor worthwhile state _

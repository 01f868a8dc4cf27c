-- ===== src/Rebalance/Reconcile/Cycle/Dispatch.antt =====
-- internal/rebalance/dispatch.go: an undisturbed dispatch of the agent's answer closes the cycle.
use hiro_adaptive_orchestrat.Base.{
  ◌≡◌, refl, ◌||◌, ◌&&◌, true, false, String, ◌<>◌, pos, leb_ℤ, is_empty, Option, none, some,
  Result, ok, err,
}
use hiro_adaptive_orchestrat.Types.{
  Duration, RebalancingStateType, watching, evaluating, decided, enacting, RebalanceOutcome,
  RebalanceAction, RebalancingStatus, OrchestrationProfile,
}
use hiro_adaptive_orchestrat.Io.{Op, Answer, RebalanceDecisionResponse, Prog, op, ◌>>=◌}
use hiro_adaptive_orchestrat.Io.Closed.{Only, Only-IsClosed}
use hiro_adaptive_orchestrat.Io.Effects.{
  LeavesStatus, IsRead-LeavesStatus, IsEnactment-LeavesStatus,
}
use hiro_adaptive_orchestrat.Io.Stored.{Yields-always}
use hiro_adaptive_orchestrat.Rebalance.State.{is_valid_transition}
use hiro_adaptive_orchestrat.Rebalance.Writer.{is_no_outcome}
use hiro_adaptive_orchestrat.Rebalance.Settings.{
  Reconciler, positive_or, default_move_rate_wait_timeout,
}
use hiro_adaptive_orchestrat.Rebalance.Enact.{EnactResult}
use hiro_adaptive_orchestrat.Rebalance.Enact.Closed.{ClosedReads}
use hiro_adaptive_orchestrat.Rebalance.Enact.Closed.Patch.{
  resolve_replica_bounds-Closed, resolve_resource_state-Closed,
}
use hiro_adaptive_orchestrat.Rebalance.Enact.Scale.{ReplicaBounds}
use hiro_adaptive_orchestrat.Rebalance.Enact.Resource.{ResourceState, resolve_resource_state}
use hiro_adaptive_orchestrat.Rebalance.Enact.Resource.Bounds.{Targets, resource_bounds, check}
use hiro_adaptive_orchestrat.Rebalance.Dispatch.{
  finish, cooldown_of, dispatch_no_op, dispatch_reject, dispatch_defer, dispatch_escalate,
}
use hiro_adaptive_orchestrat.Rebalance.Dispatch.Closed.{IsWorthwhile}
use hiro_adaptive_orchestrat.Rebalance.Dispatch.Move.{
  dispatch_move, dispatch_move_dry_run, throttled, finish_enacted,
}
use hiro_adaptive_orchestrat.Rebalance.Dispatch.Scale.{
  dispatch_scale, dispatch_scale_dry_run, out_of_bounds, scale_within,
}
use hiro_adaptive_orchestrat.Rebalance.Dispatch.Resource.{
  dispatch_resource, dispatch_resource_dry_run, decide_resource, judge_state, give_up,
}
use hiro_adaptive_orchestrat.Rebalance.Reconcile.{dispatch, dispatch_decision}
use hiro_adaptive_orchestrat.Rebalance.Reconcile.Closed.{ClosedEnactors}
use hiro_adaptive_orchestrat.Rebalance.Reconcile.Enactors.{enactors_of}
use hiro_adaptive_orchestrat.Rebalance.Reconcile.Cycle.{
  Closing, step-Closing, close-Closing, quiet-Closing, if-Closing,
}
use hiro_adaptive_orchestrat.Rebalance.Reconcile.Cycle.Results.{
  Stated, move_enactor-Stated, scale_enactor-Stated, resource_enactor-Stated,
}

-- One call that writes no status.
abbrev pub quietly : (o : Op) → LeavesStatus o → Only LeavesStatus (Answer o) (op o)
quietly o h = (h, λ x. tt)

abbrev pub quiet_reads : ClosedReads (Only LeavesStatus)
quiet_reads o h = quietly o (IsRead-LeavesStatus o h)

module _ (r : Reconciler) (key : String) (start : OrchestrationProfile) where
  module _ {A : Type 0} where
    -- A program that writes no status, whatever its results.
    pub then-Closing :
        (s : RebalancingStateType) (m : Prog A) (k : A → Prog (Unit {0}))
        → Only LeavesStatus A m
        → ((a : A) → Closing r key start s (k a))
        → Closing r key start s (m >>= k)
    then-Closing s m k quiet next =
        quiet-Closing (λ _. Unit) r key start s m k quiet (Yields-always (λ _. Unit) m (λ _. tt))
          (λ a _. next a)

  module _ (profile : OrchestrationProfile) (resp : RebalanceDecisionResponse)
      (cooldown : Duration) where
    finish-Closing :
        (s : RebalancingStateType) (cd : Duration) (reason : String) (o : RebalanceOutcome)
        → is_valid_transition s watching ≡ true
        → is_no_outcome o ≡ false
        → Closing r key start s (finish r key resp cd reason o)
    finish-Closing s cd reason o valid stated = close-Closing r key start s reason _ valid stated

    finish_enacted-Closing :
        (res : Result EnactResult)
        → Stated res
        → Closing r key start enacting (finish_enacted r key profile resp cooldown res)
    unfolding is_valid_transition
    finish_enacted-Closing (ok e) stated = finish-Closing enacting _ _ _ refl stated
    finish_enacted-Closing (err e) _ = finish-Closing enacting _ _ _ refl refl

    enactors : ClosedEnactors (Only LeavesStatus) r profile resp
    enactors =
        enactors_of (Only LeavesStatus) (Only-IsClosed LeavesStatus) quiet_reads r profile resp
          (λ o h. quietly o (IsEnactment-LeavesStatus o h))

    -- The enactor of a move, from Enacting to the end.
    throttled-Closing :
        (status : RebalancingStatus)
        → profile.spec.rebalancing.dry_run ≡ false
        → IsWorthwhile r resp
        → (is_empty resp.pod_name || is_empty resp.target_node) ≡ false
        → (res : Result (Unit {0}))
        → Closing r key start decided (throttled r key profile resp cooldown status res)
    unfolding is_valid_transition
    throttled-Closing status real worthwhile named (ok _) =
        step-Closing r key start decided enacting _ _ _ refl refl λ _.
          quiet-Closing Stated r key start enacting _ _
            (enactors.moving real worthwhile named status.decision_id)
            (move_enactor-Stated profile r.deps resp.pod_name resp.target_node resp.reason
              status.decision_id r.move_action_timeout)
            finish_enacted-Closing
    throttled-Closing status real worthwhile named (err e) = finish-Closing decided _ _ _ refl refl

    abbrev token_timeout : Duration
    token_timeout = positive_or default_move_rate_wait_timeout r.move_rate_wait_timeout

    dispatch_move-Closing :
        Closing r key start evaluating (dispatch_move r key profile resp cooldown)
    unfolding dispatch_move dispatch_move_dry_run is_valid_transition
    dispatch_move-Closing =
        if-Closing r key start evaluating _ _ _ (λ _. finish-Closing evaluating _ _ _ refl refl)
          λ worthwhile.
            if-Closing r key start evaluating _ _ _ (λ _. finish-Closing evaluating _ _ _ refl refl)
              λ named. step-Closing r key start evaluating decided _ _ _ refl refl λ status.
                if-Closing r key start decided profile.spec.rebalancing.dry_run _ _
                  (λ _.
                    step-Closing r key start decided enacting _ _ _ refl refl
                      λ _. close-Closing r key start enacting _ _ refl refl)
                  λ real.
                    then-Closing decided (op (Op.wait_for_token token_timeout)) _
                      (quietly (Op.wait_for_token token_timeout) refl)
                      (throttled-Closing status real worthwhile named)

    scale_within-Closing :
        (b : ReplicaBounds)
        → IsWorthwhile r resp
        → leb_ℤ resp.target_replicas (pos 0) ≡ false
        → Closing r key start evaluating (scale_within r key profile resp cooldown b)
    unfolding scale_within dispatch_scale_dry_run is_valid_transition
    scale_within-Closing b worthwhile positive =
        if-Closing r key start evaluating b.keda_managed _ _
          (λ _. finish-Closing evaluating _ _ _ refl refl)
          λ _.
            if-Closing r key start evaluating (out_of_bounds r key profile resp cooldown b) _ _
              (λ _. finish-Closing evaluating _ _ _ refl refl)
              λ _. step-Closing r key start evaluating decided _ _ _ refl refl λ _.
                if-Closing r key start decided profile.spec.rebalancing.dry_run _ _
                  (λ _.
                    step-Closing r key start decided enacting _ _ _ refl refl
                      λ _. close-Closing r key start enacting _ _ refl refl)
                  λ real. step-Closing r key start decided enacting _ _ _ refl refl λ _.
                    quiet-Closing Stated r key start enacting _ _
                      (enactors.scaling real worthwhile positive)
                      (scale_enactor-Stated profile r.deps resp.target_replicas resp.reason
                        r.scale_action_timeout)
                      finish_enacted-Closing

    dispatch_scale-Closing :
        Closing r key start evaluating (dispatch_scale r key profile resp cooldown)
    unfolding dispatch_scale is_valid_transition
    dispatch_scale-Closing =
        if-Closing r key start evaluating _ _ _ (λ _. finish-Closing evaluating _ _ _ refl refl)
          λ worthwhile.
            if-Closing r key start evaluating _ _ _ (λ _. finish-Closing evaluating _ _ _ refl refl)
              λ positive.
                then-Closing evaluating _ _
                  (resolve_replica_bounds-Closed (Only LeavesStatus) (Only-IsClosed LeavesStatus)
                    quiet_reads profile r.min_replicas r.max_replicas)
                  (λ b. scale_within-Closing b worthwhile positive)

    module _ (worthwhile : IsWorthwhile r resp) where
      decide-Closing :
          (targets : Targets) (violated : Option String)
          → check r.deps (resource_bounds r) targets.cpu targets.memory ≡ violated
          → Closing r key start evaluating (elim violated [
            | some v ↦
                finish r key resp cooldown (v <> ": " <> resp.reason) RebalanceOutcome.rejected
            | none ↦ decide_resource r key profile resp cooldown targets
          ])
      unfolding dispatch_resource_dry_run is_valid_transition
      decide-Closing targets (some v) e = finish-Closing evaluating _ _ _ refl refl
      decide-Closing targets none e =
          step-Closing r key start evaluating decided _ _ _ refl refl λ _.
            if-Closing r key start decided profile.spec.rebalancing.dry_run _ _
              (λ _.
                step-Closing r key start decided enacting _ _ _ refl refl
                  λ _. close-Closing r key start enacting _ _ refl refl)
              λ real. step-Closing r key start decided enacting _ _ _ refl refl λ _.
                quiet-Closing Stated r key start enacting _ _
                  (enactors.resizing targets real worthwhile e)
                  (resource_enactor-Stated profile r.deps resp.container_name targets.cpu
                    targets.memory resp.reason r.resource_action_timeout)
                  finish_enacted-Closing

      judge_state-Closing :
          (targets : Targets) (res : Result ResourceState)
          → Closing r key start evaluating (judge_state r key profile resp cooldown targets res)
      unfolding judge_state is_valid_transition
      judge_state-Closing targets (err e) = finish-Closing evaluating _ _ _ refl refl
      judge_state-Closing targets (ok state) =
          if-Closing r key start evaluating state.found _ _
            (λ _.
              if-Closing r key start evaluating state.has_existing_limits _ _
                (λ _. decide-Closing targets _ refl)
                (λ _. finish-Closing evaluating _ _ _ refl refl))
            (λ _. finish-Closing evaluating _ _ _ refl refl)

      parsed-Closing :
          (parsed : Result Targets)
          → Closing r key start evaluating (elim parsed [
            | err e ↦ give_up r key profile resp cooldown (
                "AdjustResources response has an invalid quantity: " <> e.message <> ": "
                <> resp.reason)
            | ok targets ↦
                resolve_resource_state r.deps profile resp.container_name
                >>= judge_state r key profile resp cooldown targets
          ])
      unfolding is_valid_transition
      parsed-Closing (err e) = finish-Closing evaluating _ _ _ refl refl
      parsed-Closing (ok targets) =
          then-Closing evaluating _ _
            (resolve_resource_state-Closed (Only LeavesStatus) (Only-IsClosed LeavesStatus)
              quiet_reads r.deps profile resp.container_name)
            (judge_state-Closing targets)

    dispatch_resource-Closing :
        Closing r key start evaluating (dispatch_resource r key profile resp cooldown)
    unfolding dispatch_resource is_valid_transition
    dispatch_resource-Closing =
        if-Closing r key start evaluating _ _ _ (λ _. finish-Closing evaluating _ _ _ refl refl)
          λ worthwhile.
            if-Closing r key start evaluating
              (is_empty resp.container_name
                || (is_empty resp.target_cpu && is_empty resp.target_memory))
              _ _ (λ _. finish-Closing evaluating _ _ _ refl refl) λ _. parsed-Closing worthwhile _

  module _ (profile : OrchestrationProfile) where
    by_action-Closing :
        (act : RebalanceAction) (resp : RebalanceDecisionResponse)
        → Closing r key start evaluating (dispatch r key profile act resp)
    unfolding dispatch_no_op dispatch_reject dispatch_defer dispatch_escalate is_valid_transition
    by_action-Closing RebalanceAction.no_op resp =
        finish-Closing profile resp (cooldown_of profile) evaluating _ _ _ refl refl
    by_action-Closing RebalanceAction.reject resp =
        finish-Closing profile resp (cooldown_of profile) evaluating _ _ _ refl refl
    by_action-Closing RebalanceAction.defer resp =
        finish-Closing profile resp (cooldown_of profile) evaluating _ _ _ refl refl
    by_action-Closing RebalanceAction.escalate resp =
        finish-Closing profile resp (cooldown_of profile) evaluating _ _ _ refl refl
    by_action-Closing RebalanceAction.move resp =
        dispatch_move-Closing profile resp (cooldown_of profile)
    by_action-Closing RebalanceAction.adjust_replicas resp =
        dispatch_scale-Closing profile resp (cooldown_of profile)
    by_action-Closing RebalanceAction.adjust_resources resp =
        dispatch_resource-Closing profile resp (cooldown_of profile)
    by_action-Closing RebalanceAction.no_action resp =
        close-Closing r key start evaluating _ _ refl refl
    by_action-Closing RebalanceAction.retry_pending_schedule resp =
        close-Closing r key start evaluating _ _ refl refl
    by_action-Closing (RebalanceAction.other_action text) resp =
        close-Closing r key start evaluating _ _ refl refl

    -- Whatever the agent answers, its dispatch closes the cycle.
    pub dispatch_decision-Closing :
        (resp : RebalanceDecisionResponse)
        → Closing r key start evaluating (dispatch_decision r key profile resp)
    unfolding dispatch_decision
    dispatch_decision-Closing resp = by_action-Closing resp.action resp

-- ===== src/Rebalance/Reconcile/Safety.antt =====
-- What one reconcile of internal/rebalance may do to the cluster, over every answer of the API
-- server and the agent.
use hiro_adaptive_orchestrat.Base.{clash, ◌≡◌, refl, ℤ, true, false, String, Result}
use hiro_adaptive_orchestrat.Types.{Duration, OrchestrationProfile}
use hiro_adaptive_orchestrat.Io.{Op, Answer, RebalanceDecisionResponse, op}
use hiro_adaptive_orchestrat.Io.Closed.{Only, Only-IsClosed}
use hiro_adaptive_orchestrat.Io.Effects.{
  IsHarmless, IsBookkeeping, IsRead-IsHarmless, IsRead-IsBookkeeping, IsBookkeeping-IsHarmless,
}
use hiro_adaptive_orchestrat.Rebalance.Settings.{Reconciler}
use hiro_adaptive_orchestrat.Rebalance.Writer.Transition.Calls.{transition-Closed}
use hiro_adaptive_orchestrat.Rebalance.Enact.Closed.{ClosedReads}
use hiro_adaptive_orchestrat.Rebalance.Enact.Closed.Move.{retry_pending_schedule-Closed}
use hiro_adaptive_orchestrat.Rebalance.Enact.Retry.{is_unscheduled}
use hiro_adaptive_orchestrat.Rebalance.Dispatch.Closed.{ClosedTransitions, is_below_threshold}
use hiro_adaptive_orchestrat.Rebalance.Reconcile.{dispatch_decision, reconcile_profile}
use hiro_adaptive_orchestrat.Rebalance.Reconcile.Closed.{
  ClosedEnactors, dispatch_decision-Closed, reconcile_profile-Closed, consult_unless_cooling-Closed,
}

-- One call that is allowed.
one : (P : Op → Type 0) (o : Op) → P o → Only P (Answer o) (op o)
one P o h = (h, λ x. tt)

-- In a dry run no enactor is run.
in_dry_run :
    (P : Op → Type 0) (r : Reconciler) (profile : OrchestrationProfile)
    (resp : RebalanceDecisionResponse)
    → profile.spec.rebalancing.dry_run ≡ true
    → ClosedEnactors (Only P) r profile resp
in_dry_run P r profile resp dry = record {
  waiting = λ real _ d. clash _ dry real;
  moving = λ real _ _ id. clash _ dry real;
  scaling = λ real _ _. clash _ dry real;
  resizing = λ targets real _ _. clash _ dry real;
}

-- For an answer below the threshold no enactor is run.
if_worthless :
    (P : Op → Type 0) (r : Reconciler) (profile : OrchestrationProfile)
    (resp : RebalanceDecisionResponse)
    → is_below_threshold r resp ≡ true
    → ClosedEnactors (Only P) r profile resp
if_worthless P r profile resp below = record {
  waiting = λ _ worthwhile d. clash _ below worthwhile;
  moving = λ _ worthwhile _ id. clash _ below worthwhile;
  scaling = λ _ worthwhile _. clash _ below worthwhile;
  resizing = λ targets _ worthwhile _. clash _ below worthwhile;
}

-- The calls that a dry run is left with: reads, the question to the agent, the writer's own, and the
-- deletion of a pod that is pending on no node.
abbrev pub IsDryRunCall : Op → Type 0
IsDryRunCall (Op.delete_pod pod) = is_unscheduled pod ≡ true
IsDryRunCall o = IsHarmless o

harmless-IsDryRunCall : (o : Op) → IsHarmless o → IsDryRunCall o
harmless-IsDryRunCall (Op.delete_pod pod) h = clash false h refl
harmless-IsDryRunCall _ h = h

bookkeeping-IsDryRunCall : (o : Op) → IsBookkeeping o → IsDryRunCall o
bookkeeping-IsDryRunCall o h = harmless-IsDryRunCall o (IsBookkeeping-IsHarmless o h)

dry_run_reads : ClosedReads (Only IsDryRunCall)
dry_run_reads o h = one IsDryRunCall o (harmless-IsDryRunCall o (IsRead-IsHarmless o h))

module _ (r : Reconciler) (key : String) (profile : OrchestrationProfile) where
  transitions :
      (P : Op → Type 0) → ((o : Op) → IsBookkeeping o → P o) → ClosedTransitions (Only P) r key
  transitions P all to reason opts =
      transition-Closed (Only P) (Only-IsClosed P) (λ o h. one P o (all o h)) r.deps r.writer key to
        reason opts r.retries

  dispatch-Only :
      (P : Op → Type 0)
      → ((o : Op) → IsBookkeeping o → P o)
      → (resp : RebalanceDecisionResponse) → ClosedEnactors (Only P) r profile resp
      → Only P (Unit {0}) (dispatch_decision r key profile resp)
  dispatch-Only P all resp e =
      dispatch_decision-Closed (Only P) (Only-IsClosed P)
        (λ o h. one P o (all o (IsRead-IsBookkeeping o h))) r key (transitions P all) profile resp e

  -- In a dry run, whatever the agent answers, dispatching its decision makes no call but reads and
  -- the writer's own: the agent is not asked, no token of the limiter is taken, no pod is evicted,
  -- deleted or resized, no workload is updated and no intent is stored, over every answer of the
  -- cluster.
  pub dispatch_decision-dry_run :
      (resp : RebalanceDecisionResponse)
      → profile.spec.rebalancing.dry_run ≡ true
      → Only IsBookkeeping (Unit {0}) (dispatch_decision r key profile resp)
  dispatch_decision-dry_run resp dry =
      dispatch-Only IsBookkeeping (λ o h. h) resp (in_dry_run _ r profile resp dry)

  -- An answer whose improvement is below the threshold leads to no call but reads and the writer's
  -- own, whatever its action is, over every answer of the cluster: no token of the limiter is taken.
  pub dispatch_decision-below_threshold :
      (resp : RebalanceDecisionResponse)
      → is_below_threshold r resp ≡ true
      → Only IsBookkeeping (Unit {0}) (dispatch_decision r key profile resp)
  dispatch_decision-below_threshold resp below =
      dispatch-Only IsBookkeeping (λ o h. h) resp (if_worthless _ r profile resp below)

  -- A whole reconcile of a profile in a dry run, over every answer of the cluster and the agent,
  -- makes no call but reads, the question to the agent, the writer's own, and deletions of pods that
  -- are pending on no node: the mechanical retry of such pods takes no notice of the dry run.
  pub reconcile_profile-dry_run :
      (threshold : ℤ)
      → profile.spec.rebalancing.dry_run ≡ true
      → Only IsDryRunCall (Result Duration) (reconcile_profile r threshold key profile)
  reconcile_profile-dry_run threshold dry =
      reconcile_profile-Closed (Only IsDryRunCall) (Only-IsClosed IsDryRunCall) dry_run_reads r key
        (transitions IsDryRunCall bookkeeping-IsDryRunCall) threshold profile
        (consult_unless_cooling-Closed (Only IsDryRunCall) (Only-IsClosed IsDryRunCall)
          dry_run_reads r key (transitions IsDryRunCall bookkeeping-IsDryRunCall) threshold profile
          (λ req. one IsDryRunCall (Op.call_agent req) refl)
          (λ resp. in_dry_run _ r profile resp dry))
        (retry_pending_schedule-Closed (Only IsDryRunCall) (Only-IsClosed IsDryRunCall)
          dry_run_reads (λ pod h. one IsDryRunCall (Op.delete_pod pod) h) profile)

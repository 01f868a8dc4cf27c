-- ===== src/Rebalance/Writer/Transition/Calls.antt =====
-- The calls that the writer makes.
use hiro_adaptive_orchestrat.Base.{
  ℕ, zero, suc, refl, String, Result, ok, err, Deps, is_conflict, wrap, ◌<>◌,
}
use hiro_adaptive_orchestrat.Types.{
  RebalancingStateType, OrchestrationProfile, RebalancingStatus, RebalanceOutcome, triggered,
}
use hiro_adaptive_orchestrat.Io.{Op, Answer, Prog, ret, op, ◌>>◌}
use hiro_adaptive_orchestrat.Io.Closed.{Property, split_if, IsClosed}
use hiro_adaptive_orchestrat.Io.Effects.{IsBookkeeping}
use hiro_adaptive_orchestrat.Rebalance.State.{same_state}
use hiro_adaptive_orchestrat.Rebalance.Writer.{StateWriter, TransitionOptions, apply_transition}
use hiro_adaptive_orchestrat.Rebalance.Writer.Transition.{
  after_try, retry_on_conflict, emit_transition, draw_id, persist, transition_from,
  attempt_transition, transition,
}

module _ (K : Property) (c : IsClosed K)
    (one : (o : Op) → IsBookkeeping o → K (Answer o) (op o)) where
  after_try-Closed :
      (A : Type 0) (again : Prog (Result A))
      → K (Result A) again
      → (r : Result A) → K (Result A) (after_try again r)
  after_try-Closed A again h (ok a) = c.done _ _
  after_try-Closed A again h (err e) = split_if K _ (is_conflict e) _ _ (λ _. h) (λ _. c.done _ _)

  retry_on_conflict-Closed :
      (A : Type 0) (retries : ℕ) (body : Prog (Result A))
      → K (Result A) body
      → K (Result A) (retry_on_conflict retries body)
  unfolding retry_on_conflict
  retry_on_conflict-Closed A zero body h = h
  retry_on_conflict-Closed A (suc retries) body h =
      c.bind _ _ _ _ h (after_try-Closed A _ (retry_on_conflict-Closed A retries body h))

  module _ (f : Deps) (w : StateWriter) (name : String) (to : RebalancingStateType)
      (reason : String) (opts : TransitionOptions) where
    emit_transition-Closed :
        (from : RebalancingStateType) (o : RebalanceOutcome) (id : String)
        → K (Unit {0}) (emit_transition w from to o reason id)
    unfolding emit_transition
    emit_transition-Closed from o id =
        split_if K _ w.has_recorder _ _ (λ _. one (Op.emit_event _ _ _) refl) (λ _. c.done _ _)

    written-Closed :
        (from : RebalancingStateType) (u : Result OrchestrationProfile)
        → K (Result RebalancingStatus) (elim u [
          | err e ↦ ret (err e)
          | ok q' ↦ do
            emit_transition w from to opts.outcome reason q'.status.rebalancing_status.decision_id
            ret (ok q'.status.rebalancing_status)
        ])
    written-Closed from (err e) = c.done _ _
    written-Closed from (ok q') =
        c.bind _ _ _ _ (emit_transition-Closed from opts.outcome _) (λ _. c.done _ _)

    persist-Closed :
        (from : RebalancingStateType) (q : OrchestrationProfile)
        → K (Result RebalancingStatus) (persist f w name to reason opts from q)
    unfolding persist
    persist-Closed from q = c.bind _ _ _ _ (one (Op.update_status q) refl) (written-Closed from)

    applied-Closed :
        (p : OrchestrationProfile) (r : Result OrchestrationProfile)
        → K (Result RebalancingStatus) (elim r [
          | err e ↦ ret (err e)
          | ok q ↦ persist f w name to reason opts p.status.rebalancing_status.state q
        ])
    applied-Closed p (err e) = c.done _ _
    applied-Closed p (ok q) = persist-Closed _ q

    draw_id-Closed : K String (draw_id to)
    unfolding draw_id
    draw_id-Closed =
        split_if K _ (same_state to triggered) _ _ (λ _. one Op.new_uuid refl) (λ _. c.done _ _)

    transition_from-Closed :
        (p : OrchestrationProfile)
        → K (Result RebalancingStatus) (transition_from f w name to reason opts p)
    unfolding transition_from
    transition_from-Closed p = c.bind _ _ _ _ (one Op.now refl) (λ t.
        c.bind _ _ _ _ draw_id-Closed
          (λ id. applied-Closed p (apply_transition f w name t id to reason opts p)))

    read-Closed :
        (r : Result OrchestrationProfile)
        → K (Result RebalancingStatus) (elim r [
          | err e ↦ ret (err (wrap ("rebalance writer: fetching profile " <> name) e))
          | ok profile ↦ transition_from f w name to reason opts profile
        ])
    read-Closed (err e) = c.done _ _
    read-Closed (ok p) = transition_from-Closed p

    attempt_transition-Closed :
        K (Result RebalancingStatus) (attempt_transition f w name to reason opts)
    unfolding attempt_transition
    attempt_transition-Closed = c.bind _ _ _ _ (one (Op.read_profile name) refl) read-Closed

    -- The writer only reads, writes a status and emits Events.
    pub transition-Closed :
        (retries : ℕ) → K (Result RebalancingStatus) (transition f w name to reason opts retries)
    unfolding transition
    transition-Closed retries = retry_on_conflict-Closed _ retries _ attempt_transition-Closed

-- ===== src/Rebalance/Writer/Transition/Undisturbed.antt =====
-- A transition against a server that answers the writer with the stored profile and accepts its
-- writes.
use hiro_adaptive_orchestrat.Base.{
  ℕ, zero, suc, ◌≡◌, refl, String, ◌<>◌, false, Result, ok, err, wrap, is_conflict, Error, Deps,
  arith,
}
use hiro_adaptive_orchestrat.Types.{
  Time, RebalancingStateType, RebalanceOutcome, RebalancingStatus, OrchestrationProfile,
}
use hiro_adaptive_orchestrat.Io.{Prog, ret}
use hiro_adaptive_orchestrat.Io.Closed.{Only}
use hiro_adaptive_orchestrat.Io.Effects.{LeavesStatus}
use hiro_adaptive_orchestrat.Io.Stored.{Runs, Runs-bind, Runs_mono, Only-Runs, Yields-always}
use hiro_adaptive_orchestrat.Rebalance.State.{is_valid_transition}
use hiro_adaptive_orchestrat.Rebalance.Writer.{
  StateWriter, TransitionOptions, apply_transition, next_status,
}
use hiro_adaptive_orchestrat.Rebalance.Writer.Steps.{
  with_rebalancing, IsAcceptable, apply_transition_accepts,
}
use hiro_adaptive_orchestrat.Rebalance.Writer.Transition.{
  after_try, retry_on_conflict, emit_transition, draw_id, persist, transition_from,
  attempt_transition, transition,
}

-- A result after which there is no other try.
abbrev IsFinal : {A : Type 0} → Result A → Type 0
IsFinal (ok a) = Unit
IsFinal (err e) = is_conflict e ≡ false

module _ {A : Type 0} (name : String) (Q : OrchestrationProfile → Result A → Type 0) where
  after_try-Runs :
      (again : Prog (Result A)) (p : OrchestrationProfile) (result : Result A)
      → Q p result
      → IsFinal result
      → Runs name (after_try again result) p Q
  after_try-Runs again p (ok a) q final = q
  after_try-Runs again p (err e) q final = rw final q

  retry_on_conflict-Runs :
      (retries : ℕ) (body : Prog (Result A)) (p : OrchestrationProfile)
      → Runs name body p (λ p' result. Q p' result × IsFinal result)
      → Runs name (retry_on_conflict retries body) p Q
  unfolding retry_on_conflict
  retry_on_conflict-Runs zero body p h = Runs_mono name body p _ Q h (λ p' result k. k.0)
  retry_on_conflict-Runs (suc retries) body p h =
      Runs-bind name body (after_try (retry_on_conflict retries body)) p Q (
        Runs_mono name body p _ _ h
          (λ p' result k. after_try-Runs (retry_on_conflict retries body) p' result k.0 k.1))

emit-LeavesStatus :
    (w : StateWriter) (from to : RebalancingStateType) (o : RebalanceOutcome) (reason id : String)
    → Only LeavesStatus (Unit {0}) (emit_transition w from to o reason id)
unfolding emit_transition
emit-LeavesStatus w from to o reason id = ground arith

draw_id-LeavesStatus : (to : RebalancingStateType) → Only LeavesStatus String (draw_id to)
unfolding draw_id
draw_id-LeavesStatus to = ground arith

module _ (f : Deps) (w : StateWriter) (name : String) (to : RebalancingStateType) (reason : String)
    (opts : TransitionOptions) (p : OrchestrationProfile) where
  -- The profile that an accepted transition writes.
  abbrev pub moved : Time → String → OrchestrationProfile
  moved now id = with_rebalancing p (
      next_status f w p.spec.rebalancing.escalation_threshold now id to reason opts
        p.status.rebalancing_status)

  module _ (Q : OrchestrationProfile → Result RebalancingStatus → Type 0) where
    persist-Runs :
        (from : RebalancingStateType) (q : OrchestrationProfile)
        → Q q (ok q.status.rebalancing_status)
        → Runs name (persist f w name to reason opts from q) p Q
    unfolding persist
    persist-Runs from q h x u =
        let rs = q.status.rebalancing_status in
        rw u (
          Runs-bind name (emit_transition w from to opts.outcome reason rs.decision_id)
            (λ _. ret (ok rs)) q Q
            (Only-Runs name (λ _. Unit)
              (emit_transition w from to opts.outcome reason rs.decision_id) q _
              (emit-LeavesStatus w from to opts.outcome reason rs.decision_id)
              (Yields-always (λ _. Unit) _ (λ _. tt)) (λ _ _. h)))

    applied-Runs :
        (from : RebalancingStateType) (q : OrchestrationProfile) (r : Result OrchestrationProfile)
        → r ≡ ok q
        → Q q (ok q.status.rebalancing_status)
        → Runs name
            (elim r [ err e ↦ ret (err e) | ok q' ↦ persist f w name to reason opts from q' ])
            p
            Q
    applied-Runs from q r e h = rw e (persist-Runs from q h)

    module _ (acceptable : IsAcceptable p.status.rebalancing_status.state to opts.outcome)
        (after : (now : Time) (id : String)
          → Q (moved now id) (ok (moved now id).status.rebalancing_status)) where
      transition_from-Runs : Runs name (transition_from f w name to reason opts p) p Q
      unfolding transition_from
      transition_from-Runs now u = Runs-bind name (draw_id to) _ p Q (
          Only-Runs name (λ _. Unit) (draw_id to) p _ (draw_id-LeavesStatus to)
            (Yields-always (λ _. Unit) _ (λ _. tt))
            (λ id _.
              applied-Runs p.status.rebalancing_status.state (moved now id)
                (apply_transition f w name now id to reason opts p)
                ((apply_transition_accepts f w name now id to reason opts p (moved now id)).1
                  (acceptable, refl))
                (after now id)))

    read-Runs :
        (r : Result OrchestrationProfile)
        → r ≡ ok p
        → Runs name (transition_from f w name to reason opts p) p Q
        → Runs name
            (elim r [
              | err e ↦ ret (err (wrap ("rebalance writer: fetching profile " <> name) e))
              | ok profile ↦ transition_from f w name to reason opts profile
            ])
            p
            Q
    read-Runs r e h = rw e h

  module _ (Q : OrchestrationProfile → Result RebalancingStatus → Type 0) where
    -- An acceptable transition is made at the first try.
    pub transition-Runs :
        (retries : ℕ)
        → IsAcceptable p.status.rebalancing_status.state to opts.outcome
        → ((now : Time) (id : String)
            → Q (moved now id) (ok (moved now id).status.rebalancing_status))
        → Runs name (transition f w name to reason opts retries) p Q
    unfolding transition attempt_transition
    transition-Runs retries acceptable after =
        retry_on_conflict-Runs name Q retries (attempt_transition f w name to reason opts) p (λ x u.
          read-Runs (λ p' result. Q p' result × IsFinal result) x (u refl)
            (transition_from-Runs (λ p' result. Q p' result × IsFinal result) acceptable
              (λ now id. (after now id, tt))))

    refused-Runs :
        (now : Time) (id : String) (r : Result OrchestrationProfile)
        → is_valid_transition p.status.rebalancing_status.state to ≡ false
        → r ≡ apply_transition f w name now id to reason opts p
        → ((e : Error) → Q p (err e))
        → Runs name
            (elim r [
              | err e ↦ ret (err e)
              | ok q ↦ persist f w name to reason opts p.status.rebalancing_status.state q
            ])
            p
            (λ p' result. Q p' result × IsFinal result)
    unfolding apply_transition
    refused-Runs now id r invalid e h = rw (e, invalid) (h _, refl)

    -- A transition that the table does not allow changes nothing.
    pub transition-refused :
        (retries : ℕ)
        → is_valid_transition p.status.rebalancing_status.state to ≡ false
        → ((e : Error) → Q p (err e))
        → Runs name (transition f w name to reason opts retries) p Q
    unfolding transition attempt_transition transition_from
    transition-refused retries invalid h =
        retry_on_conflict-Runs name Q retries (attempt_transition f w name to reason opts) p (λ x u.
          read-Runs (λ p' result. Q p' result × IsFinal result) x (u refl)
            (λ now v. Runs-bind name (draw_id to) _ p _ (
              Only-Runs name (λ _. Unit) (draw_id to) p _ (draw_id-LeavesStatus to)
                (Yields-always (λ _. Unit) _ (λ _. tt))
                (λ id _. refused-Runs now id _ invalid refl h))))

-- ===== src/Rebalance/Reconcile/Cycle/Rests.antt =====
-- internal/rebalance/reconciler.go: an undisturbed reconcile leaves no cycle in flight.
use hiro_adaptive_orchestrat.Base.{
  ◌≡◌, refl, ◌⊎◌, inl, inr, not, Bool, pos, ltb, ltb_ℤ, ℤ, true, false, String, is_empty, str_eq,
  Option, none, some, Result, ok, err, is_not_found, if◌then◌else◌, arith,
}
use hiro_adaptive_orchestrat.Types.{
  Duration, RebalancingStateType, watching, triggered, evaluating, decided, enacting,
  RebalancingStatus, OrchestrationProfile,
}
use hiro_adaptive_orchestrat.Io.{Op, RebalanceDecisionResponse, Prog, ret, op, ◌>>=◌}
use hiro_adaptive_orchestrat.Io.Closed.{Only, Only-IsClosed, split_if}
use hiro_adaptive_orchestrat.Io.Effects.{LeavesStatus}
use hiro_adaptive_orchestrat.Io.Stored.{Runs, Runs-bind, Runs_mono, Only-Runs, Yields-always}
use hiro_adaptive_orchestrat.Placement.Types.{DecisionRequest}
use hiro_adaptive_orchestrat.Placement.Client.Closed.{
  build_rebalance_context-Closed, request_rebalance_decision-Closed,
}
use hiro_adaptive_orchestrat.Rebalance.State.{is_valid_transition}
use hiro_adaptive_orchestrat.Rebalance.Writer.Transition.Undisturbed.{transition-refused}
use hiro_adaptive_orchestrat.Rebalance.Writer.{TransitionOptions}
use hiro_adaptive_orchestrat.Rebalance.Settings.{
  Reconciler, positive_or, default_watchdog_stale_threshold,
}
use hiro_adaptive_orchestrat.Rebalance.Dispatch.{transition_to, ignore}
use hiro_adaptive_orchestrat.Rebalance.Enact.Closed.Move.{retry_pending_schedule-Closed}
use hiro_adaptive_orchestrat.Rebalance.Triggers.{TriggerResult, action_retry_pending_schedule}
use hiro_adaptive_orchestrat.Rebalance.Triggers.Closed.{evaluate-Closed}
use hiro_adaptive_orchestrat.Rebalance.Reconcile.{
  fail_evaluation, evaluate_with_ai, enact, finish_bypass, enact_bypass_action, recover_stuck_cycle,
  elapsed, requeue_after, is_in_flight, consult_unless_cooling, act_on, act_on_answer, ask,
  reconcile_profile, reconcile,
}
use hiro_adaptive_orchestrat.Rebalance.Reconcile.Cycle.{
  HasClosed, Closing, step-Closing, close-Closing,
}
use hiro_adaptive_orchestrat.Rebalance.Reconcile.Cycle.Dispatch.{
  quietly, quiet_reads, then-Closing, dispatch_decision-Closing,
}

module _ (r : Reconciler) (key : String) (start : OrchestrationProfile)
    (profile : OrchestrationProfile) where
  fail_evaluation-Closing :
      (reason : String) → Closing r key start evaluating (fail_evaluation r key profile reason)
  unfolding fail_evaluation is_valid_transition
  fail_evaluation-Closing reason = close-Closing r key start evaluating _ _ refl refl

  act_on_answer-Closing :
      (answered : Result RebalanceDecisionResponse)
      → Closing r key start evaluating (act_on_answer r key profile answered)
  act_on_answer-Closing (err e) = fail_evaluation-Closing _
  act_on_answer-Closing (ok resp) = dispatch_decision-Closing r key start profile resp

  ask-Closing :
      (built : Result DecisionRequest) → Closing r key start evaluating (ask r key profile built)
  ask-Closing (err e) = fail_evaluation-Closing _
  ask-Closing (ok req) =
      then-Closing r key start evaluating _ _
        (request_rebalance_decision-Closed (Only LeavesStatus) (Only-IsClosed LeavesStatus)
          quiet_reads r.deps r.decision_client (λ q. quietly (Op.call_agent q) refl) req)
        act_on_answer-Closing

  evaluate_with_ai-Closing :
      (rest : RebalancingStateType) (result : TriggerResult)
      → is_in_flight rest ≡ false
      → Closing r key start rest (evaluate_with_ai r key profile result)
  unfolding evaluate_with_ai is_valid_transition
  evaluate_with_ai-Closing rest result h =
      step-Closing r key start rest triggered _ _ _ (ground arith) refl λ _.
        step-Closing r key start triggered evaluating _ _ _ refl refl λ rs.
          then-Closing r key start evaluating _ _
            (build_rebalance_context-Closed (Only LeavesStatus) (Only-IsClosed LeavesStatus)
              quiet_reads r.deps profile _ _ _)
            ask-Closing

  finish_bypass-Closing :
      (result : TriggerResult) (res : Result (Unit {0}))
      → Closing r key start enacting (finish_bypass r key profile result res)
  unfolding is_valid_transition
  finish_bypass-Closing result (ok _) = close-Closing r key start enacting _ _ refl refl
  finish_bypass-Closing result (err e) = close-Closing r key start enacting _ _ refl refl

  enact-LeavesStatus :
      (action : String) → Only LeavesStatus (Result (Unit {0})) (enact r key profile action)
  unfolding enact
  enact-LeavesStatus action =
      split_if (Only LeavesStatus) _ (str_eq action action_retry_pending_schedule) _ _
        (λ _.
          retry_pending_schedule-Closed (Only LeavesStatus) (Only-IsClosed LeavesStatus) quiet_reads
            (λ pod _. quietly (Op.delete_pod pod) refl) profile)
        (λ _. tt)

  enact_bypass_action-Closing :
      (rest : RebalancingStateType) (result : TriggerResult)
      → is_in_flight rest ≡ false
      → Closing r key start rest (enact_bypass_action r key profile result)
  unfolding enact_bypass_action is_valid_transition
  enact_bypass_action-Closing rest result h =
      step-Closing r key start rest triggered _ _ _ (ground arith) refl λ _.
        step-Closing r key start triggered evaluating _ _ _ refl refl λ _.
          step-Closing r key start evaluating decided _ _ _ refl refl λ _.
            step-Closing r key start decided enacting _ _ _ refl refl λ _.
              then-Closing r key start enacting _ _ (enact-LeavesStatus _)
                (finish_bypass-Closing result)

-- A cycle that began at `p` has closed, or nothing was written.
abbrev pub Settled : Reconciler → String → OrchestrationProfile → OrchestrationProfile → Type 0
Settled r key p p' = (p' ≡ p) ⊎ HasClosed r key p p'

-- Every undisturbed run of the program from `p` settles.
pub record Settles (r : Reconciler) (key : String) (p : OrchestrationProfile) (A : Type 0)
    (m : Prog A) : Type 0 where
  pub runs : Runs key m p (λ p' _. Settled r key p p')

module _ (r : Reconciler) (key : String) (p : OrchestrationProfile)
    (rests : is_in_flight p.status.rebalancing_status.state ≡ false) where
  done-Settles : (A : Type 0) (a : A) → Settles r key p A (ret a)
  done-Settles A a = record { runs = inl refl }

  quiet-Settles :
      (A B : Type 0) (m : Prog A) (k : A → Prog B)
      → Only LeavesStatus A m
      → ((a : A) → Settles r key p B (k a))
      → Settles r key p B (m >>= k)
  quiet-Settles A B m k quiet next = record {
    runs = Runs-bind key m k p _ (
        Only-Runs key (λ _. Unit) m p _ quiet (Yields-always (λ _. Unit) m (λ _. tt))
          (λ a _. (next a).runs));
  }

  requeue-Settles :
      (d : Duration) (m : Prog (Unit {0}))
      → Settles r key p (Unit {0}) m
      → Settles r key p (Result Duration) (requeue_after d m)
  requeue-Settles d m s = record { runs = Runs-bind key m (λ _. ret (ok d)) p _ s.runs }

  -- A cycle from here to its end, and the requeue after it.
  cycle-Settles :
      (d : Duration) (m : Prog (Unit {0}))
      → Closing r key p p.status.rebalancing_status.state m
      → Settles r key p (Result Duration) (requeue_after d m)
  cycle-Settles d m c = requeue-Settles d m (record {
    runs =
        Runs_mono key m p _ _ (c.runs p (record { state = refl; history = refl; spec = refl }))
          (λ p' _ closed. inr closed);
  })

  if-Settles :
      (A : Type 0) (b : Bool) (m n : Prog A)
      → (b ≡ true → Settles r key p A m)
      → (b ≡ false → Settles r key p A n)
      → Settles r key p A (if b then m else n)
  if-Settles A b m n hm hn = split_if (Settles r key p) A b m n hm hn

  not_from_rest : is_valid_transition p.status.rebalancing_status.state watching ≡ false
  unfolding is_valid_transition
  not_from_rest = ground arith

  -- Nothing goes from rest to Watching.
  refused-Settles :
      (reason : String) (opts : TransitionOptions)
      → Settles r key p (Unit {0}) (ignore (transition_to r key watching reason opts))
  refused-Settles reason opts = record {
    runs =
        Runs-bind key (transition_to r key watching reason opts) (λ _. ret tt) p _
          (transition-refused r.deps r.writer key watching reason opts p _ r.retries not_from_rest
            (λ e. inl refl));
  }

  -- The watchdog writes nothing to a profile that is at rest already.
  recover-Settles :
      (profile : OrchestrationProfile) (rs : RebalancingStatus)
      → Settles r key p (Unit {0}) (recover_stuck_cycle r key profile rs)
  unfolding recover_stuck_cycle
  recover-Settles profile rs = quiet-Settles _ _ (op Op.now) _ (quietly Op.now refl) λ t.
      if-Settles _
        (ltb_ℤ (elapsed rs.last_transition_at t)
          (positive_or default_watchdog_stale_threshold r.watchdog_stale_threshold))
        _ _ (λ _. done-Settles _ _) (λ _. refused-Settles _ _)

  module _ (threshold : ℤ) (profile : OrchestrationProfile) where
    consult-Settles :
        (result : TriggerResult)
        → Settles r key p (Result Duration) (consult_unless_cooling r threshold key profile result)
    unfolding consult_unless_cooling
    consult-Settles result =
        let rs = profile.status.rebalancing_status in
        let cycle = cycle-Settles r.detection_interval (evaluate_with_ai r key profile result) (
          evaluate_with_ai-Closing r key p profile p.status.rebalancing_status.state result
            rests) in
        if-Settles _ (ltb 0 rs.cooldown_until) _ _
          (λ _. quiet-Settles _ _ (op Op.now) _ (quietly Op.now refl) λ now.
            if-Settles _ (ltb now rs.cooldown_until) _ _ (λ _. done-Settles _ _) (λ _. cycle))
          (λ _. cycle)

    act_on-Settles :
        (found : Result (Option TriggerResult))
        → Settles r key p (Result Duration) (act_on r threshold key profile found)
    act_on-Settles (err e) = done-Settles _ _
    act_on-Settles (ok none) = done-Settles _ _
    act_on-Settles (ok (some result)) =
        if-Settles _ (is_empty result.bypass_action) _ _ (λ _. consult-Settles result)
          (λ _. cycle-Settles r.detection_interval (enact_bypass_action r key profile result) (
            enact_bypass_action-Closing r key p profile p.status.rebalancing_status.state result
              rests))

    reconcile_profile-Settles :
        Settles r key p (Result Duration) (reconcile_profile r threshold key profile)
    unfolding reconcile_profile
    reconcile_profile-Settles =
        let rs = profile.status.rebalancing_status in
        if-Settles _ (not profile.spec.rebalancing.enabled) _ _ (λ _. done-Settles _ _)
          λ _.
            if-Settles _ rs.is_escalated _ _ (λ _. done-Settles _ _)
              λ _.
                if-Settles _ (is_in_flight rs.state) _ _
                  (λ _. requeue-Settles r.detection_interval _ (recover-Settles profile rs))
                  λ _.
                    quiet-Settles _ _ _ _
                      (evaluate-Closed (Only LeavesStatus) (Only-IsClosed LeavesStatus) quiet_reads
                        r.deps threshold profile)
                      act_on-Settles

  at_rest :
      (p' : OrchestrationProfile)
      → Settled r key p p'
      → (is_in_flight p'.status.rebalancing_status.state ≡ false) × Settled r key p p'
  at_rest p' (inl same) = (rw same rests, inl same)
  at_rest p' (inr closed) = (rw closed.state refl, inr closed)

  got-Settles :
      (threshold : ℤ) (got : Result OrchestrationProfile)
      → Settles r key p (Result Duration) (elim got [
        | err e ↦ ret (if is_not_found e then ok (pos 0) else err e)
        | ok profile ↦ reconcile_profile r threshold key profile
      ])
  got-Settles threshold (err e) = done-Settles _ _
  got-Settles threshold (ok profile) = reconcile_profile-Settles threshold profile

  reconcile-quiet : (threshold : ℤ) → Settles r key p (Result Duration) (reconcile r threshold key)
  unfolding reconcile
  reconcile-quiet threshold =
      quiet-Settles _ _ (op (Op.get_profile key)) _ (quietly (Op.get_profile key) refl)
        (got-Settles threshold)

-- While no one else writes the profile's status and the server accepts the writes, a reconcile of
-- a profile that is at rest leaves it at rest, whatever the cached profile is that it starts from,
-- and whatever the agent, the cluster, the limiter and the clock answer. Either nothing was
-- written, or a whole cycle has closed: the profile is Watching with its spec as it was, and its
-- history has one record more in front, trimmed to its length, with an outcome and under the id
-- of the cycle.
pub reconcile-settles :
    (r : Reconciler) (threshold : ℤ) (key : String) (p : OrchestrationProfile)
    → is_in_flight p.status.rebalancing_status.state ≡ false
    → Runs key
        (reconcile r threshold key)
        p
        (λ p' _. (is_in_flight p'.status.rebalancing_status.state ≡ false) × Settled r key p p')
reconcile-settles r threshold key p rests =
    Runs_mono key (reconcile r threshold key) p _ _ (reconcile-quiet r key p rests threshold).runs
      (λ p' _. at_rest r key p rests p')

-- ===== src/Rebalance/Reconcile/Recovery.antt =====
-- internal/rebalance/reconciler.go: the watchdog ends a cycle that is stuck.
use hiro_adaptive_orchestrat.Base.{
  ℕ, zero, suc, ◌≡◌, ◌≢◌, refl, sym, ap, ◌∙◌, inr, ◌<>◌, String, Bool, true, false, not, ltb_ℤ,
  List, [], ◌∷◌, ◌++◌, ℤ, Result, ok, err, if◌then◌else◌, arith,
}
use hiro_adaptive_orchestrat.Types.{
  RebalancingStateType, watching, RebalanceOutcome, RebalanceAction, RebalancingStatus,
  OrchestrationProfile,
}
use hiro_adaptive_orchestrat.Io.{Op, Prog, ret, call, ◌>>=◌, ◌>>◌}
use hiro_adaptive_orchestrat.Io.World.{World, run, run-bind}
use hiro_adaptive_orchestrat.Rebalance.State.{is_valid_transition}
use hiro_adaptive_orchestrat.Rebalance.Writer.{
  TransitionOptions, state_text, apply_transition, next_status, start_cycle, enter_state,
  close_cycle,
}
use hiro_adaptive_orchestrat.Rebalance.Writer.Steps.{with_rebalancing, apply_transition_accepts}
use hiro_adaptive_orchestrat.Rebalance.Writer.Transition.{
  after_try, retry_on_conflict, emit_transition, draw_id, persist, transition_from,
  attempt_transition, transition,
}
use hiro_adaptive_orchestrat.Rebalance.Settings.{
  Reconciler, positive_or, default_watchdog_stale_threshold,
}
use hiro_adaptive_orchestrat.Rebalance.Dispatch.{transition_to, ignore, ends, cooldown_of}
use hiro_adaptive_orchestrat.Rebalance.Reconcile.{
  elapsed, is_in_flight, recover_stuck_cycle, reconcile_profile,
}

-- The state that a call writes, if it writes one.
abbrev state_written : Op → List RebalancingStateType
state_written (Op.update_status q) = q.status.rebalancing_status.state ∷ []
state_written _ = []

-- The states that a program writes in a world, in their order.
abbrev pub written : {A : Type 0} → World → Prog A → List RebalancingStateType
written w (ret a) = []
written w (call o k) = state_written o ++ written w (k (w o))

append_assoc : (xs ys zs : List RebalancingStateType) → (xs ++ ys) ++ zs ≡ xs ++ (ys ++ zs)
append_assoc [] ys zs = refl
append_assoc (x ∷ xs) ys zs = ap (λ rest. x ∷ rest) (append_assoc xs ys zs)

module _ {A B : Type 0} (w : World) where
  written-bind :
      (m : Prog A) (f : A → Prog B) → written w (m >>= f) ≡ written w m ++ written w (f (run w m))
  written-bind (ret a) f = refl
  written-bind (call o k) f =
      ap (λ rest. state_written o ++ rest) (written-bind (k (w o)) f)
      ∙ sym (append_assoc (state_written o) (written w (k (w o))) _)

-- A program that writes the state Watching once, and ends without an error.
abbrev Closes : {A : Type 0} → World → Prog (Result A) → Type 0
Closes {A} w m = (written w m ≡ watching ∷ []) × ((a : A) × (run w m ≡ ok a))

module _ {A : Type 0} (w : World) (body : Prog (Result A)) (closes : Closes w body) where
  -- No second try is needed.
  retried-Closes : (retries : ℕ) → Closes w (retry_on_conflict retries body)
  unfolding retry_on_conflict
  retried-Closes zero = closes
  retried-Closes (suc retries) = (
    rw (written-bind w body (after_try (retry_on_conflict retries body)), closes.0, closes.1.1)
        refl,
    (
      closes.1.0,
      rw (run-bind w body (after_try (retry_on_conflict retries body)), closes.1.1) refl,
    ),
  )

in_flight_ends :
    (s : RebalancingStateType) → is_in_flight s ≡ true → is_valid_transition s watching ≡ true
unfolding is_valid_transition
in_flight_ends s h = ground arith

module _ (w : World) (r : Reconciler) (key reason : String) (opts : TransitionOptions)
    (stated : opts.outcome ≢ RebalanceOutcome.no_outcome)
    (answer : OrchestrationProfile → OrchestrationProfile)
    (accepts : (q : OrchestrationProfile) → w (Op.update_status q) ≡ ok (answer q)) where
  emit-written :
      (from : RebalancingStateType) (o : RebalanceOutcome) (id : String)
      → written w (emit_transition r.writer from watching o reason id) ≡ []
  unfolding emit_transition
  emit-written from o id = ground arith

  emitted-written :
      (from : RebalancingStateType) (o : RebalanceOutcome) (id : String)
      (result : Result RebalancingStatus)
      → written w (emit_transition r.writer from watching o reason id >> ret result) ≡ []
  emitted-written from o id result =
      rw
        (
          written-bind w (emit_transition r.writer from watching o reason id) (λ done. ret result),
          emit-written from o id,
        )
        refl

  persist-Closes :
      (from : RebalancingStateType) (q : OrchestrationProfile)
      → q.status.rebalancing_status.state ≡ watching
      → Closes w (persist r.deps r.writer key watching reason opts from q)
  unfolding persist
  persist-Closes from q h =
      let rs = (answer q).status.rebalancing_status in
      (
        rw (accepts q) (
            ap (λ rest. q.status.rebalancing_status.state ∷ rest)
              (emitted-written from opts.outcome rs.decision_id (ok rs))
            ∙ ap (λ s. s ∷ []) h),
        (
          rs,
          rw (accepts q) (
              run-bind w (emit_transition r.writer from watching opts.outcome reason rs.decision_id)
                (λ done. ret (ok rs))),
        ),
      )

  closing_state :
      (p : OrchestrationProfile)
      → (next_status r.deps r.writer p.spec.rebalancing.escalation_threshold
          (w Op.now)
          ""
          watching
          reason
          opts
          p.status.rebalancing_status).state
        ≡ watching
  unfolding next_status start_cycle enter_state close_cycle
  closing_state p = refl

  applied-Closes :
      (from : RebalancingStateType) (q : OrchestrationProfile)
      (applied : Result OrchestrationProfile)
      → applied ≡ ok q
      → q.status.rebalancing_status.state ≡ watching
      → Closes w (elim applied [
        | err e ↦ ret (err e)
        | ok q' ↦ persist r.deps r.writer key watching reason opts from q'
      ])
  applied-Closes from q applied e h = rw e (persist-Closes from q h)

  from-Closes :
      (p : OrchestrationProfile)
      → is_in_flight p.status.rebalancing_status.state ≡ true
      → Closes w (transition_from r.deps r.writer key watching reason opts p)
  unfolding transition_from draw_id
  from-Closes p flying =
      applied-Closes p.status.rebalancing_status.state
        (with_rebalancing p (
          next_status r.deps r.writer p.spec.rebalancing.escalation_threshold (w Op.now) "" watching
            reason opts p.status.rebalancing_status))
        (apply_transition r.deps r.writer key (w Op.now) "" watching reason opts p)
        ((apply_transition_accepts r.deps r.writer key (w Op.now) "" watching reason opts p _).1
          ((in_flight_ends p.status.rebalancing_status.state flying, inr stated), refl))
        (closing_state p)

  attempt-Closes :
      (p : OrchestrationProfile)
      → w (Op.read_profile key) ≡ ok p
      → is_in_flight p.status.rebalancing_status.state ≡ true
      → Closes w (attempt_transition r.deps r.writer key watching reason opts)
  unfolding attempt_transition
  attempt-Closes p read flying = rw read (from-Closes p flying)

  transition-Closes :
      (p : OrchestrationProfile)
      → w (Op.read_profile key) ≡ ok p
      → is_in_flight p.status.rebalancing_status.state ≡ true
      → Closes w (transition r.deps r.writer key watching reason opts r.retries)
  unfolding transition
  transition-Closes p read flying = retried-Closes w _ (attempt-Closes p read flying) r.retries

module _ {A : Type 0} where
  else_branch : (b : Bool) (x y : A) → b ≡ false → (if b then x else y) ≡ y
  else_branch b x y h = ground arith

  third_branch :
      (a b c : Bool) (x y z u : A)
      → a ≡ false
      → b ≡ false
      → c ≡ true
      → (if a then x else if b then y else if c then z else u) ≡ z
  third_branch a b c x y z u ha hb hc = ground arith

failed_stated : RebalanceOutcome.failed ≢ RebalanceOutcome.no_outcome
failed_stated = ground arith

module _ (w : World) (r : Reconciler) (threshold : ℤ) (key : String)
    (profile : OrchestrationProfile) where
  abbrev rs : RebalancingStatus
  rs = profile.status.rebalancing_status

  -- The cycle has been in its state for less than the watchdog's threshold.
  abbrev pub is_fresh : Bool
  is_fresh =
      ltb_ℤ (elapsed rs.last_transition_at (w Op.now))
        (positive_or default_watchdog_stale_threshold r.watchdog_stale_threshold)

  abbrev stuck_reason : String
  stuck_reason =
      "watchdog: recovered after being stuck in "
      <> state_text rs.state
      <> " for "
      <> r.deps.seconds (elapsed rs.last_transition_at (w Op.now))
      <> ", likely an operator restart mid-cycle"

  abbrev close : Prog (Result RebalancingStatus)
  close =
      transition_to r key watching stuck_reason
        (ends RebalanceAction.no_action RebalanceOutcome.failed (cooldown_of profile))

  module _ (answer : OrchestrationProfile → OrchestrationProfile)
      (accepts : (q : OrchestrationProfile) → w (Op.update_status q) ≡ ok (answer q))
      (p : OrchestrationProfile) (read : w (Op.read_profile key) ≡ ok p)
      (flying : is_in_flight p.status.rebalancing_status.state ≡ true)
      (stale : is_fresh ≡ false) where
    recovered : written w (recover_stuck_cycle r key profile rs) ≡ watching ∷ []
    unfolding recover_stuck_cycle
    recovered =
        ap (written w) (else_branch is_fresh (ret tt) (ignore close) stale)
        ∙ (written-bind w close (λ done. ret tt)
            ∙ ap (λ states. states ++ [])
                (transition-Closes w r key stuck_reason
                  (ends RebalanceAction.no_action RebalanceOutcome.failed (cooldown_of profile))
                  failed_stated answer accepts p read flying).0)

    -- In a world that answers each call in one way, where the server accepts writes: a reconcile of a
    -- profile whose cycle is in flight, for at least the watchdog's threshold, and that is enabled and
    -- not escalated, writes the state Watching, once, and no other state; so a cycle that is stuck
    -- comes to rest. The profile that the writer reads is in flight too.
    pub reconcile_profile-recovers :
        profile.spec.rebalancing.enabled ≡ true
        → rs.is_escalated ≡ false
        → is_in_flight rs.state ≡ true
        → written w (reconcile_profile r threshold key profile) ≡ watching ∷ []
    unfolding reconcile_profile
    reconcile_profile-recovers enabled calm stuck =
        ap (written w) (
          third_branch (not profile.spec.rebalancing.enabled) rs.is_escalated
            (is_in_flight rs.state) _ _ _ _ (ap not enabled) calm stuck)
        ∙ (written-bind w (recover_stuck_cycle r key profile rs)
              (λ done. ret (ok r.detection_interval))
            ∙ ap (λ states. states ++ []) recovered)

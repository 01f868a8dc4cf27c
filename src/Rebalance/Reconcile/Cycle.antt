-- ===== src/Rebalance/Reconcile/Cycle.antt =====
-- internal/rebalance: a cycle that no other writer disturbs, from one transition to the next.
pub mod Results
pub mod Dispatch
pub mod Rests
use hiro_adaptive_orchestrat.Base.{
  ◌≡◌, ◌≢◌, refl, sym, ap, ◌∙◌, ◌∷◌, take, inl, inr, String, Bool, true, false, List, Result, ok,
  err, if◌then◌else◌, arith,
}
use hiro_adaptive_orchestrat.Types.{
  Time, RebalancingStateType, watching, triggered, RebalanceOutcome, RebalanceDecision,
  RebalancingStatus, OrchestrationProfile,
}
use hiro_adaptive_orchestrat.Io.{Prog, ret, ◌>>=◌}
use hiro_adaptive_orchestrat.Io.Closed.{Only}
use hiro_adaptive_orchestrat.Io.Effects.{LeavesStatus}
use hiro_adaptive_orchestrat.Io.Stored.{Runs, Runs-bind, Runs_mono, Only-Runs, Yields}
use hiro_adaptive_orchestrat.Rebalance.State.{is_valid_transition, same_state}
use hiro_adaptive_orchestrat.Rebalance.Writer.{TransitionOptions, is_no_outcome}
use hiro_adaptive_orchestrat.Rebalance.Writer.Cycle.{
  closing_record, next_status_within, next_status_same_cycle, next_status_closing,
}
use hiro_adaptive_orchestrat.Rebalance.Writer.Transition.Undisturbed.{moved, transition-Runs}
use hiro_adaptive_orchestrat.Rebalance.Settings.{Reconciler}
use hiro_adaptive_orchestrat.Rebalance.Dispatch.{transition_to, ignore, on_transition}

not_empty : (o : RebalanceOutcome) → is_no_outcome o ≡ false → o ≢ RebalanceOutcome.no_outcome
not_empty o h = ground arith

not_watching : (s : RebalancingStateType) → same_state s watching ≡ false → s ≢ watching
not_watching s h = ground arith

watching_not_triggered : watching ≢ triggered
watching_not_triggered = ground arith

-- Promotion keeps an outcome stated.
promoted_outcome :
    (promoted : Bool) (o : RebalanceOutcome)
    → is_no_outcome o ≡ false
    → is_no_outcome (if promoted then RebalanceOutcome.escalated else o) ≡ false
promoted_outcome promoted o h = ground arith

module _ (r : Reconciler) (key : String) (start : OrchestrationProfile) where
  -- The stored profile is in the state `s` of a cycle that began at `start`.
  pub record IsUnderWay (s : RebalancingStateType) (p : OrchestrationProfile) : Type 0 where
    pub state : p.status.rebalancing_status.state ≡ s
    pub history :
        p.status.rebalancing_status.recent_decisions
        ≡ start.status.rebalancing_status.recent_decisions
    pub spec : p.spec ≡ start.spec

  -- The cycle has come back to Watching: its outcome stands in front of the history, which
  -- is trimmed to its length, under the cycle's id, and the spec is as it was.
  pub record HasClosed (p : OrchestrationProfile) : Type 0 where
    pub state : p.status.rebalancing_status.state ≡ watching
    pub last : RebalanceDecision
    pub history :
        p.status.rebalancing_status.recent_decisions
        ≡ take r.writer.max_recent_decisions
            (last ∷ start.status.rebalancing_status.recent_decisions)
    pub id : last.decision_id ≡ p.status.rebalancing_status.decision_id
    pub outcome : is_no_outcome last.outcome ≡ false
    pub spec : p.spec ≡ start.spec

  -- From the state `s`, every undisturbed run of the program closes the cycle.
  pub record Closing (s : RebalancingStateType) (m : Prog (Unit {0})) : Type 0 where
    pub runs : (p : OrchestrationProfile) → IsUnderWay s p → Runs key m p (λ p' _. HasClosed p')

  -- A transition within the cycle.
  moved-IsUnderWay :
      (to : RebalancingStateType) (reason : String) (opts : TransitionOptions) (now : Time)
      (id : String) (p : OrchestrationProfile) (s : RebalancingStateType)
      → IsUnderWay s p
      → same_state to watching ≡ false
      → IsUnderWay to (moved r.deps r.writer key to reason opts p now id)
  moved-IsUnderWay to reason opts now id p s under h =
      let within =
        next_status_within r.deps r.writer p.spec.rebalancing.escalation_threshold now id to reason
          opts p.status.rebalancing_status (not_watching to h) in
      record { state = within.0; history = within.5 ∙ under.history; spec = under.spec }

  -- The transition that ends it.
  moved-HasClosed :
      (reason : String) (opts : TransitionOptions) (now : Time) (id : String)
      (p : OrchestrationProfile) (s : RebalancingStateType)
      → IsUnderWay s p
      → is_no_outcome opts.outcome ≡ false
      → HasClosed (moved r.deps r.writer key watching reason opts p now id)
  moved-HasClosed reason opts now id p s under stated =
      let rs = p.status.rebalancing_status in
      let threshold = p.spec.rebalancing.escalation_threshold in
      let closing =
        next_status_closing r.deps r.writer threshold now id watching reason opts rs refl in
      record {
        state = closing.0;
        last = closing_record now reason opts threshold rs;
        history =
            closing.1
            ∙ ap
                (λ before.
                  take r.writer.max_recent_decisions
                    (closing_record now reason opts threshold rs ∷ before))
                under.history;
        id =
            sym
              (next_status_same_cycle r.deps r.writer threshold now id watching reason opts rs
                watching_not_triggered).0;
        outcome = promoted_outcome _ opts.outcome stated;
        spec = under.spec;
      }

  -- One transition within the cycle, and what follows it.
  pub step-Closing :
      (from to : RebalancingStateType) (reason : String) (opts : TransitionOptions)
      (k : RebalancingStatus → Prog (Unit {0}))
      → is_valid_transition from to ≡ true
      → same_state to watching ≡ false
      → ((status : RebalancingStatus) → Closing to (k status))
      → Closing from (transition_to r key to reason opts >>= on_transition k)
  step-Closing from to reason opts k valid inner next = record {
    runs = λ p under. Runs-bind key (transition_to r key to reason opts) (on_transition k) p _ (
        transition-Runs r.deps r.writer key to reason opts p _ r.retries
          (rw under.state valid, inl (not_watching to inner))
          (λ now id. (next _).runs _ (moved-IsUnderWay to reason opts now id p from under inner)));
  }

  -- The last transition.
  pub close-Closing :
      (from : RebalancingStateType) (reason : String) (opts : TransitionOptions)
      → is_valid_transition from watching ≡ true
      → is_no_outcome opts.outcome ≡ false
      → Closing from (ignore (transition_to r key watching reason opts))
  close-Closing from reason opts valid stated = record {
    runs = λ p under.
        Runs-bind key (transition_to r key watching reason opts) (λ _. ret tt) p _
          (transition-Runs r.deps r.writer key watching reason opts p _ r.retries
            (rw under.state valid, inr (not_empty opts.outcome stated))
            (λ now id. moved-HasClosed reason opts now id p from under stated));
  }

module _ {A : Type 0} (P : A → Type 0) (r : Reconciler) (key : String)
    (start : OrchestrationProfile) where
  -- A program that writes no status, and what follows its results.
  pub quiet-Closing :
      (s : RebalancingStateType) (m : Prog A) (k : A → Prog (Unit {0}))
      → Only LeavesStatus A m
      → Yields P m
      → ((a : A) → P a → Closing r key start s (k a))
      → Closing r key start s (m >>= k)
  quiet-Closing s m k quiet yields next = record {
    runs = λ p under.
        Runs-bind key m k p _ (Only-Runs key P m p _ quiet yields (λ a h. (next a h).runs p under));
  }

module _ (r : Reconciler) (key : String) (start : OrchestrationProfile)
    (s : RebalancingStateType) where
  -- A test hands each branch its outcome.
  pub if-Closing :
      (b : Bool) (m n : Prog (Unit {0}))
      → (b ≡ true → Closing r key start s m)
      → (b ≡ false → Closing r key start s n)
      → Closing r key start s (if b then m else n)
  if-Closing true m n hm hn = hm refl
  if-Closing false m n hm hn = hn refl

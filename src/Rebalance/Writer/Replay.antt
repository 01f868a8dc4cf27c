-- ===== src/Rebalance/Writer/Replay.antt =====
-- Any sequence of requests to the writer of internal/rebalance/writer.go, accepted or refused.
use hiro_adaptive_orchestrat.Base.{
  ◌≤◌, ◌≡◌, sym, subst, ◌⊎◌, ◌||◌, true, false, String, List, [], ◌∷◌, ℤ, pos, arith, length,
  length-take, leb_ℤ, ltb_ℤ, max_int32, ok, err, Deps, Bool-cases, inl, inr,
}
use hiro_adaptive_orchestrat.Types.{
  Time, RebalancingStateType, watching, RebalanceOutcome, RebalancingStatus, OrchestrationProfile,
}
use hiro_adaptive_orchestrat.Rebalance.State.{same_state}
use hiro_adaptive_orchestrat.Rebalance.Writer.{
  StateWriter, TransitionOptions, next_status, apply_transition, effective_threshold, next_streak,
  promotes,
}
use hiro_adaptive_orchestrat.Rebalance.Writer.Cycle.{prepend_decision-take}

pub record Request : Type 0 where
  pub now : Time
  pub id : String
  pub to : RebalancingStateType
  pub reason : String
  pub opts : TransitionOptions

-- What the writer guarantees of the status it keeps, for a profile's threshold.
pub record IsSound (w : StateWriter) (threshold : ℤ) (rs : RebalancingStatus) : Type 0 where
  pub bounded : length rs.recent_decisions ≤ w.max_recent_decisions
  pub counted : (rs.is_escalated || leb_ℤ (pos 0) rs.consecutive_failures) ≡ true
  pub below :
      (rs.is_escalated || ltb_ℤ rs.consecutive_failures (effective_threshold threshold)) ≡ true

-- A streak below the threshold that is not promoted stays below it, and never wraps around.
next_streak_below :
    (threshold : ℤ) (o : RebalanceOutcome) (n : ℤ)
    → leb_ℤ threshold (pos max_int32) ≡ true
    → leb_ℤ (pos 0) n ≡ true
    → ltb_ℤ n (effective_threshold threshold) ≡ true
    → promotes threshold o (next_streak o n) ≡ false
    → (leb_ℤ (pos 0) (next_streak o n) ≡ true)
      × (ltb_ℤ (next_streak o n) (effective_threshold threshold) ≡ true)
unfolding promotes next_streak effective_threshold
next_streak_below threshold o n small low high kept = ground arith

module _ (f : Deps) (w : StateWriter) (threshold : ℤ) (now : Time) (id : String)
    (to : RebalancingStateType) (reason : String) (opts : TransitionOptions)
    (rs : RebalancingStatus) where
  -- The flag stays once it is set.
  pub next_status_stays_escalated :
      rs.is_escalated ≡ true
      → (next_status f w threshold now id to reason opts rs).is_escalated ≡ true
  unfolding next_status
  next_status_stays_escalated h = ground arith

  bounded-next_status :
      length rs.recent_decisions ≤ w.max_recent_decisions
      → length (next_status f w threshold now id to reason opts rs).recent_decisions
        ≤ w.max_recent_decisions
  unfolding next_status
  bounded-next_status h = elim (Bool-cases (same_state to watching)) [
    | inl e ↦ rw (e, prepend_decision-take) (omega (arith, length-take {0}))
    | inr e ↦ rw e (ground arith)
  ]

  -- The streak and the flag after a transition, and whether it promoted the outcome.
  streak-next_status :
      (next_status f w threshold now id to reason opts rs).is_escalated ≡ false
      → (rs.is_escalated ≡ false)
        × (((next_status f w threshold now id to reason opts rs).consecutive_failures
              ≡ rs.consecutive_failures)
            ⊎ (((next_status f w threshold now id to reason opts rs).consecutive_failures
                  ≡ next_streak opts.outcome rs.consecutive_failures)
                × (promotes threshold opts.outcome
                      (next_streak opts.outcome rs.consecutive_failures)
                    ≡ false)))
  unfolding next_status
  streak-next_status h = ground arith

  next_status-IsSound :
      leb_ℤ threshold (pos max_int32) ≡ true
      → IsSound w threshold rs
      → IsSound w threshold (next_status f w threshold now id to reason opts rs)
  next_status-IsSound small h = record {
    bounded = bounded-next_status h.bounded;
    counted = ground (
      arith,
      streak-next_status,
      h.counted,
      h.below,
      next_streak_below threshold opts.outcome rs.consecutive_failures,
    );
    below = ground (
      arith,
      streak-next_status,
      h.counted,
      h.below,
      next_streak_below threshold opts.outcome rs.consecutive_failures,
    );
  }

module _ (f : Deps) (w : StateWriter) (name : String) where
  -- The profile after a request: unchanged if the request is refused.
  pub answer : Request → OrchestrationProfile → OrchestrationProfile
  answer r p = elim (apply_transition f w name r.now r.id r.to r.reason r.opts p) [
    | ok q ↦ q
    | err e ↦ p
  ]

  unfoldable pub replay : List Request → OrchestrationProfile → OrchestrationProfile
  unfolding answer
  replay [] p = p
  replay (r ∷ rs) p = replay rs (answer r p)

  abbrev ProfileIsSound : OrchestrationProfile → Type 0
  ProfileIsSound p = IsSound w p.spec.rebalancing.escalation_threshold p.status.rebalancing_status

  answer_spec : (r : Request) (p : OrchestrationProfile) → (answer r p).spec ≡ p.spec
  unfolding answer apply_transition
  answer_spec r p = ground arith

  answer-IsSound :
      (r : Request) (p : OrchestrationProfile)
      → leb_ℤ p.spec.rebalancing.escalation_threshold (pos max_int32) ≡ true
      → ProfileIsSound p
      → ProfileIsSound (answer r p)
  unfolding answer apply_transition
  answer-IsSound r p small h = ground (
    arith,
    next_status-IsSound f w p.spec.rebalancing.escalation_threshold r.now r.id r.to r.reason r.opts
        p.status.rebalancing_status,
  )

  -- Whatever is asked of the writer, in whatever order, it keeps a sound status: the history never
  -- outgrows its length, and while the profile is not escalated the streak is not negative and lies
  -- below the threshold in force, so that the int32 never wraps around before the engine pauses.
  -- The threshold is an int32.
  pub replay-IsSound :
      (rs : List Request) (p : OrchestrationProfile)
      → leb_ℤ p.spec.rebalancing.escalation_threshold (pos max_int32) ≡ true
      → IsSound w p.spec.rebalancing.escalation_threshold p.status.rebalancing_status
      → let q = replay rs p in
        IsSound w q.spec.rebalancing.escalation_threshold q.status.rebalancing_status
  unfolding replay
  replay-IsSound [] p small h = h
  replay-IsSound (r ∷ rs) p small h =
      replay-IsSound rs (answer r p)
        (subst (λ s. leb_ℤ s.rebalancing.escalation_threshold (pos max_int32) ≡ true)
          (sym (answer_spec r p)) small)
        (answer-IsSound r p small h)

  answer_stays_escalated :
      (r : Request) (p : OrchestrationProfile)
      → p.status.rebalancing_status.is_escalated ≡ true
      → (answer r p).status.rebalancing_status.is_escalated ≡ true
  unfolding answer apply_transition
  answer_stays_escalated r p h = ground (
    arith,
    next_status_stays_escalated f w p.spec.rebalancing.escalation_threshold r.now r.id r.to r.reason
        r.opts p.status.rebalancing_status,
  )

  -- No sequence of requests clears the escalation flag.
  pub replay_stays_escalated :
      (rs : List Request) (p : OrchestrationProfile)
      → p.status.rebalancing_status.is_escalated ≡ true
      → (replay rs p).status.rebalancing_status.is_escalated ≡ true
  unfolding replay
  replay_stays_escalated [] p h = h
  replay_stays_escalated (r ∷ rs) p h =
      replay_stays_escalated rs (answer r p) (answer_stays_escalated r p h)

-- ===== src/Rebalance/Writer/Cycle.antt =====
-- What a transition of internal/rebalance/writer.go changes in the status: a fresh cycle, a step
-- within one, and its end.
use hiro_adaptive_orchestrat.Base.{
  ◌≡◌, refl, sym, take_all, ◌≢◌, String, List, ◌∷◌, ℤ, arith, length, take, ltb, if◌then◌else◌,
  is_empty, Deps, Bool-cases, inl, inr,
}
use hiro_adaptive_orchestrat.Types.{
  Time, RebalancingStateType, watching, triggered, RebalanceOutcome, RebalancingStatus,
  RebalanceDecision,
}
use hiro_adaptive_orchestrat.Rebalance.Writer.{
  StateWriter, TransitionOptions, next_status, prepend_decision, next_streak, promotes,
  is_no_action,
}

-- Trimming by a comparison, as the code does it, is `take`.
pub prepend_decision-take :
    (w : StateWriter) (existing : List RebalanceDecision) (d : RebalanceDecision)
    → prepend_decision w existing d ≡ take w.max_recent_decisions (d ∷ existing)
unfolding prepend_decision
prepend_decision-take w existing d =
    let longer = ltb w.max_recent_decisions (length (d ∷ existing)) in
    elim (Bool-cases longer) [
      | inl h ↦ rw h
      | inr h ↦ rw h (sym (take_all _ (d ∷ existing) (ground arith)))
    ]

-- The record that the end of a cycle leaves in the history.
abbrev pub closing_record :
    Time → String → TransitionOptions → ℤ → RebalancingStatus → RebalanceDecision
closing_record now reason opts threshold rs = record {
  decision_id = rs.decision_id;
  outcome =
      if promotes threshold opts.outcome (next_streak opts.outcome rs.consecutive_failures)
      then RebalanceOutcome.escalated
      else opts.outcome;
  action = if is_no_action opts.action then rs.action else opts.action;
  reason = reason;
  details = if is_empty opts.details then rs.details else opts.details;
  started_at = rs.started_at;
  last_transition_at = now;
}

module _ (f : Deps) (w : StateWriter) (threshold : ℤ) (now : Time) (id : String)
    (to : RebalancingStateType) (reason : String) (opts : TransitionOptions)
    (rs : RebalancingStatus) where
  abbrev after : RebalancingStatus
  after = next_status f w threshold now id to reason opts rs

  -- A transition that does not end the cycle leaves the streak, the escalation, the cooldown and
  -- the history alone.
  pub next_status_within :
      to ≢ watching
      → (after.state ≡ to)
        × (after.consecutive_failures ≡ rs.consecutive_failures)
        × (after.is_escalated ≡ rs.is_escalated)
        × (after.escalated_reason ≡ rs.escalated_reason)
        × (after.cooldown_until ≡ rs.cooldown_until)
        × (after.recent_decisions ≡ rs.recent_decisions)
  unfolding next_status
  next_status_within h = ground arith

  -- A transition that starts no cycle, one that ends it included, leaves the cycle's id and start
  -- time alone, and keeps its action and its details unless the request gives others.
  pub next_status_same_cycle :
      to ≢ triggered
      → (after.decision_id ≡ rs.decision_id)
        × (after.started_at ≡ rs.started_at)
        × (after.action ≡ (if is_no_action opts.action then rs.action else opts.action))
        × (after.details ≡ (if is_empty opts.details then rs.details else opts.details))
  unfolding next_status
  next_status_same_cycle h = (ground arith, ground arith, ground arith, ground arith)

  -- The end of a cycle puts one record in front of the history, with the id and the start time of
  -- the cycle that ends and the outcome after promotion, and trims the history to its length.
  pub next_status_closing :
      to ≡ watching
      → (after.state ≡ watching)
        × (after.recent_decisions
            ≡ take w.max_recent_decisions
                (closing_record now reason opts threshold rs ∷ rs.recent_decisions))
  unfolding next_status
  next_status_closing h = rw h (refl, prepend_decision-take w rs.recent_decisions _)

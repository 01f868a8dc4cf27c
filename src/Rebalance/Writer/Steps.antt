-- ===== src/Rebalance/Writer/Steps.antt =====
-- One transition of internal/rebalance/writer.go: when it is accepted and what it changes.
use hiro_adaptive_orchestrat.Base.{◌≡◌, ◌≢◌, ◌↔◌, ◌⊎◌, true, String, arith, ok, Deps}
use hiro_adaptive_orchestrat.Types.{
  Time, RebalancingStateType, watching, RebalanceOutcome, RebalancingStatus, OrchestrationProfile,
}
use hiro_adaptive_orchestrat.Rebalance.State.{is_valid_transition}
use hiro_adaptive_orchestrat.Rebalance.Writer.{
  StateWriter, TransitionOptions, next_status, apply_transition,
}

-- The profile with another rebalancing status.
abbrev pub with_rebalancing : OrchestrationProfile → RebalancingStatus → OrchestrationProfile
with_rebalancing p rs = record p { status = record (p.status) { rebalancing_status = rs } }

-- What a request for a transition must meet to be accepted.
abbrev pub IsAcceptable : RebalancingStateType → RebalancingStateType → RebalanceOutcome → Type 0
IsAcceptable from to outcome =
    (is_valid_transition from to ≡ true)
    × ((to ≢ watching) ⊎ (outcome ≢ RebalanceOutcome.no_outcome))

module _ (f : Deps) (w : StateWriter) (name : String) (now : Time) (id : String)
    (to : RebalancingStateType) (reason : String) (opts : TransitionOptions)
    (p : OrchestrationProfile) where
  abbrev before : RebalancingStatus
  before = p.status.rebalancing_status

  abbrev after : RebalancingStatus
  after = next_status f w p.spec.rebalancing.escalation_threshold now id to reason opts before

  -- A transition is accepted exactly when the table allows it from the state that was read and, if
  -- it ends the cycle, it states an outcome. The profile to write is then the one read, with
  -- nothing but its rebalancing status changed.
  pub apply_transition_accepts :
      (q : OrchestrationProfile)
      → (apply_transition f w name now id to reason opts p ≡ ok q)
        ↔ (IsAcceptable before.state to opts.outcome × (q ≡ with_rebalancing p after))
  unfolding apply_transition
  apply_transition_accepts q = (λ h. ground arith, λ h. ground arith)

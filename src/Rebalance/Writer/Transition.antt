-- ===== src/Rebalance/Writer/Transition.antt =====
-- `Transition` of internal/rebalance/writer.go with its calls: the uncached read, the write to the
-- status subresource, the Event, and the retries on a conflict.
pub mod Lawful
pub mod Calls
pub mod Undisturbed
use hiro_adaptive_orchestrat.Base.{
  ℕ, zero, suc, String, ◌<>◌, Bool, true, false, if◌then◌else◌, Result, ok, err, Error, wrap,
  is_conflict, Deps,
}
use hiro_adaptive_orchestrat.Types.{
  RebalancingStateType, triggered, RebalanceOutcome, RebalancingStatus, OrchestrationProfile,
}
use hiro_adaptive_orchestrat.Io.{Op, Prog, ret, call, op, ◌>>=◌, ◌>>◌}
use hiro_adaptive_orchestrat.Rebalance.State.{same_state}
use hiro_adaptive_orchestrat.Rebalance.Writer.{
  StateWriter, TransitionOptions, apply_transition, empty_as_none, state_text,
}

-- A result after a try: on a conflict the program goes on with `again`.
abbrev pub after_try : {A : Type 0} → Prog (Result A) → Result A → Prog (Result A)
after_try again (ok a) = ret (ok a)
after_try again (err e) = if is_conflict e then again else ret (err e)

-- `retry.RetryOnConflict`, as it is documented: the body runs again while it ends in a conflict, at
-- most as often as the backoff has steps. `retries` counts the steps after the first.
unfoldable pub retry_on_conflict : {A : Type 0} → ℕ → Prog (Result A) → Prog (Result A)
retry_on_conflict zero body = body
retry_on_conflict (suc retries) body = body >>= after_try (retry_on_conflict retries body)

-- The outcomes that `emitEvent` shows as a warning.
abbrev pub is_warning : RebalanceOutcome → Bool
is_warning RebalanceOutcome.failed = true
is_warning RebalanceOutcome.rejected = true
is_warning RebalanceOutcome.deferred = true
is_warning RebalanceOutcome.escalated = true
is_warning _ = false

abbrev pub event_reason_rebalance_transition : String
event_reason_rebalance_transition = "RebalanceTransition"

-- `emitEvent`
unfoldable pub emit_transition :
    StateWriter
    → RebalancingStateType
    → RebalancingStateType
    → RebalanceOutcome
    → String
    → String
    → Prog (Unit {0})
emit_transition w from to o reason id =
    if w.has_recorder
    then op (
        Op.emit_event (is_warning o) event_reason_rebalance_transition (
          empty_as_none from
          <> " -> "
          <> state_text to
          <> ": "
          <> reason
          <> " (decisionId="
          <> id
          <> ")"))
    else ret tt

-- An id is drawn only for a fresh cycle.
unfoldable pub draw_id : RebalancingStateType → Prog String
draw_id to = if same_state to triggered then op Op.new_uuid else ret ""

module _ (f : Deps) (w : StateWriter) (name : String) (to : RebalancingStateType) (reason : String)
    (opts : TransitionOptions) where
  -- The write, and what follows it. The server's answer replaces the profile.
  unfoldable pub persist :
      RebalancingStateType → OrchestrationProfile → Prog (Result RebalancingStatus)
  unfolding emit_transition
  persist from q = do
    u ← op (Op.update_status q)
    elim u [
      | err e ↦ ret (err e)
      | ok q' ↦ do
        emit_transition w from to opts.outcome reason q'.status.rebalancing_status.decision_id
        ret (ok q'.status.rebalancing_status)
    ]

  -- What a read leads to. The clock is read and the id is drawn before the checks rather than after
  -- them: a refused transition uses neither.
  unfoldable pub transition_from : OrchestrationProfile → Prog (Result RebalancingStatus)
  unfolding persist draw_id
  transition_from profile = do
    t ← op Op.now
    id ← draw_id to
    elim (apply_transition f w name t id to reason opts profile) [
      | err e ↦ ret (err e)
      | ok q ↦ persist profile.status.rebalancing_status.state q
    ]

  -- The closure that is retried.
  unfoldable pub attempt_transition : Prog (Result RebalancingStatus)
  unfolding transition_from
  attempt_transition = do
    r ← op (Op.read_profile name)
    elim r [
      | err e ↦ ret (err (wrap ("rebalance writer: fetching profile " <> name) e))
      | ok profile ↦ transition_from profile
    ]

  -- `Transition`
  unfoldable pub transition : ℕ → Prog (Result RebalancingStatus)
  unfolding retry_on_conflict attempt_transition
  transition retries = retry_on_conflict retries attempt_transition

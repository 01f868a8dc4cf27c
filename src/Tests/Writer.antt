-- ===== src/Tests/Writer.antt =====
-- Runs of the writer of internal/rebalance, and the theorems on it, at concrete data.
use hiro_adaptive_orchestrat.Base.{
  ◌≡◌, ◌≢◌, ◌≤◌, ◌+◌, ◌↔◌, refl, pos, arith, true, [], ◌∷◌, length, ok,
}
use hiro_adaptive_orchestrat.Types.{watching, triggered, evaluating, enacting, RebalanceOutcome}
use hiro_adaptive_orchestrat.Rebalance.State.{is_valid_transition}
use hiro_adaptive_orchestrat.Rebalance.State.Rank.{rank, IsPath, IsPath-rests}
use hiro_adaptive_orchestrat.Rebalance.Writer.{
  no_options, apply_transition, next_status, promotes, effective_threshold, next_streak,
}
use hiro_adaptive_orchestrat.Rebalance.Writer.Steps.{IsAcceptable, apply_transition_accepts}
use hiro_adaptive_orchestrat.Rebalance.Writer.Replay.{
  IsSound, replay, replay-IsSound, replay_stays_escalated,
}
use hiro_adaptive_orchestrat.Tests.Data.{
  deps, writer, status, profile, with_status, paused, request, failing_cycle, last_status,
}

-- The third failure in a row escalates.
third_failure : (last_status (replay deps writer "shop" failing_cycle profile)).is_escalated ≡ true
unfolding replay apply_transition next_status is_valid_transition promotes effective_threshold
    next_streak
third_failure = refl

-- A request that the table forbids changes nothing.
refused :
    replay deps writer "shop" (request 10 enacting RebalanceOutcome.no_outcome ∷ []) profile
    ≡ profile
unfolding replay apply_transition next_status is_valid_transition
refused = refl

apply_transition_accepts_example :
    (apply_transition deps writer "shop" 10 "d2" triggered "r" no_options profile ≡ ok profile) ↔ (
      IsAcceptable watching triggered RebalanceOutcome.no_outcome
      × (profile
          ≡ with_status (next_status deps writer (pos 3) 10 "d2" triggered "r" no_options status)))
apply_transition_accepts_example =
    apply_transition_accepts deps writer "shop" 10 "d2" triggered "r" no_options profile profile

triggered-watching : triggered ≢ watching
triggered-watching = ground arith

evaluating-watching : evaluating ≢ watching
evaluating-watching = ground arith

status-IsSound : IsSound writer (pos 3) status
unfolding effective_threshold
status-IsSound = record { bounded = ground arith; counted = refl; below = refl }

replay-IsSound_example :
    let q = replay deps writer "shop" failing_cycle profile in
    IsSound writer q.spec.rebalancing.escalation_threshold q.status.rebalancing_status
replay-IsSound_example = replay-IsSound deps writer "shop" failing_cycle profile refl status-IsSound

replay_stays_escalated_example :
    (last_status (replay deps writer "shop" failing_cycle paused)).is_escalated ≡ true
replay_stays_escalated_example = replay_stays_escalated deps writer "shop" failing_cycle paused refl

cycle-IsPath : IsPath watching (triggered ∷ evaluating ∷ [])
unfolding is_valid_transition
cycle-IsPath = (refl, (refl, tt))

IsPath-rests_example : rank watching + length (triggered ∷ evaluating ∷ []) ≤ 4
IsPath-rests_example =
    IsPath-rests watching (triggered ∷ evaluating ∷ []) cycle-IsPath
      (triggered-watching, (evaluating-watching, tt))

-- ===== src/Rebalance/Dispatch.antt =====
-- internal/rebalance/dispatch.go: from the agent's answer to the end of the cycle, for the actions
-- that need nothing enacted. The others are in the children.
pub mod Move
pub mod Scale
pub mod Resource
pub mod Closed
pub mod Allowed
pub mod Bounds
pub mod Cooldown
use hiro_adaptive_orchestrat.Base.{String, ◌<>◌, ℤ, pos, mul_int64, Result, Error, ok, err}
use hiro_adaptive_orchestrat.Types.{
  Duration, RebalancingStateType, watching, RebalanceOutcome, RebalanceAction, RebalancingStatus,
  OrchestrationProfile,
}
use hiro_adaptive_orchestrat.Io.{RebalanceDecisionResponse, Prog, ret, ◌>>=◌, ◌>>◌}
use hiro_adaptive_orchestrat.Rebalance.Writer.{TransitionOptions, no_options}
use hiro_adaptive_orchestrat.Rebalance.Writer.Transition.{transition}
use hiro_adaptive_orchestrat.Rebalance.Settings.{Reconciler, second}

-- `r.Writer.Transition`
abbrev pub transition_to :
    Reconciler
    → String
    → RebalancingStateType
    → String
    → TransitionOptions
    → Prog (Result RebalancingStatus)
transition_to r key to reason opts = transition r.deps r.writer key to reason opts r.retries

-- A last transition, whose error is only logged.
abbrev pub ignore : {A : Type 0} → Prog (Result A) → Prog (Unit {0})
ignore m = m >>= λ _. ret tt

-- After a transition within the cycle: an error is logged, and the dispatcher returns.
abbrev pub on_transition :
    (RebalancingStatus → Prog (Unit {0})) → Result RebalancingStatus → Prog (Unit {0})
on_transition k (ok status) = k status
on_transition k (err e) = ret tt

-- `time.Duration(CooldownSeconds) * time.Second`
abbrev pub cooldown_of : OrchestrationProfile → Duration
cooldown_of profile = mul_int64 profile.spec.rebalancing.cooldown_seconds second

abbrev pub ends : RebalanceAction → RebalanceOutcome → Duration → TransitionOptions
ends action outcome cooldown = record no_options {
  action = action;
  outcome = outcome;
  cooldown = cooldown;
}

-- What the dispatchers share: the engine, the profile's key, the profile as it was read, the
-- agent's answer and the cooldown.
module _ (r : Reconciler) (key : String) (resp : RebalanceDecisionResponse)
    (cooldown : Duration) where
  -- Back to Watching with an outcome.
  abbrev pub finish : String → RebalanceOutcome → Prog (Unit {0})
  finish reason outcome =
      ignore (transition_to r key watching reason (ends resp.action outcome cooldown))

  unfoldable pub dispatch_no_op : Prog (Unit {0})
  dispatch_no_op = finish resp.reason RebalanceOutcome.no_op

  unfoldable pub dispatch_reject : Prog (Unit {0})
  dispatch_reject = finish resp.reason RebalanceOutcome.rejected

  unfoldable pub dispatch_defer : Prog (Unit {0})
  dispatch_defer = finish resp.reason RebalanceOutcome.deferred

  unfoldable pub dispatch_escalate : Prog (Unit {0})
  dispatch_escalate = finish resp.reason RebalanceOutcome.escalated

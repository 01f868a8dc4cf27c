-- ===== src/Rebalance/Writer.antt =====
-- internal/rebalance/writer.go: the one component that changes `status.rebalancingStatus`. What
-- `Transition` does to a profile between its read and its write is a function; the calls around
-- it are in Rebalance/Writer/Transition.antt.
pub mod Steps
pub mod Cycle
pub mod Replay
pub mod Transition
use hiro_adaptive_orchestrat.Base.{
  ℕ, String, ◌<>◌, Bool, true, false, not, ◌&&◌, List, ◌∷◌, ℤ, pos, negsuc, ◌+◌, ◌-◌, leb_ℤ, ltb_ℤ,
  inc_int32, take, length, ltb, if◌then◌else◌, is_empty, Result, ok, err, failure, Deps,
}
use hiro_adaptive_orchestrat.Types.{
  Time, Duration, RebalancingStateType, none_state, watching, triggered, evaluating, decided,
  enacting, RebalanceOutcome, RebalanceAction, RebalanceDecision, RebalancingStatus,
  OrchestrationProfile,
}
use hiro_adaptive_orchestrat.Rebalance.State.{same_state, is_valid_transition}

pub record TransitionOptions : Type 0 where
  pub action : RebalanceAction
  pub details : String
  pub outcome : RebalanceOutcome
  pub cooldown : Duration

-- `TransitionOptions{}`
abbrev pub no_options : TransitionOptions
no_options = record {
  action = RebalanceAction.no_action;
  details = "";
  outcome = RebalanceOutcome.no_outcome;
  cooldown = pos 0;
}

-- The writer's own settings: whether it has an event recorder, and the length of the history.
pub record StateWriter : Type 0 where
  pub has_recorder : Bool
  pub max_recent_decisions : ℕ

abbrev pub default_max_recent_decisions : ℕ
default_max_recent_decisions = 10

abbrev pub default_escalation_threshold : ℤ
default_escalation_threshold = pos 3

-- `NewStateWriter`
unfoldable pub new_state_writer : Bool → ℤ → StateWriter
new_state_writer has_recorder (pos n) = record {
  has_recorder = has_recorder;
  max_recent_decisions = if ltb 0 n then n else default_max_recent_decisions;
}
new_state_writer has_recorder (negsuc n) = record {
  has_recorder = has_recorder;
  max_recent_decisions = default_max_recent_decisions;
}

-- `now.Add(d)`
abbrev pub add_duration : Time → Duration → Time
add_duration t (pos n) = t + n
add_duration t (negsuc n) = t - (n + 1)

abbrev pub is_no_action : RebalanceAction → Bool
is_no_action RebalanceAction.no_action = true
is_no_action _ = false

abbrev pub is_no_outcome : RebalanceOutcome → Bool
is_no_outcome RebalanceOutcome.no_outcome = true
is_no_outcome _ = false

abbrev pub is_escalated_outcome : RebalanceOutcome → Bool
is_escalated_outcome RebalanceOutcome.escalated = true
is_escalated_outcome _ = false

-- The outcomes that lengthen the streak.
abbrev pub counts_as_failure : RebalanceOutcome → Bool
counts_as_failure RebalanceOutcome.failed = true
counts_as_failure RebalanceOutcome.deferred = true
counts_as_failure _ = false

-- The text of a state.
abbrev pub state_text : RebalancingStateType → String
state_text none_state = ""
state_text watching = "Watching"
state_text triggered = "Triggered"
state_text evaluating = "Evaluating"
state_text decided = "Decided"
state_text enacting = "Enacting"

-- `emptyAsNone`, as a text.
abbrev pub empty_as_none : RebalancingStateType → String
empty_as_none s = if same_state s none_state then "None" else state_text s

-- `prependDecision`
unfoldable pub prepend_decision :
    StateWriter → List RebalanceDecision → RebalanceDecision → List RebalanceDecision
prepend_decision w existing next =
    let updated = next ∷ existing in
    if ltb w.max_recent_decisions (length updated)
    then take w.max_recent_decisions updated
    else updated

-- Lines 145 to 152: a fresh cycle gets an id, and loses what the last one left.
unfoldable pub start_cycle :
    Time → String → RebalancingStateType → RebalancingStatus → RebalancingStatus
start_cycle now id to rs =
    if same_state to triggered
    then record rs {
      decision_id = id;
      started_at = now;
      action = RebalanceAction.no_action;
      details = "";
    }
    else rs

-- Lines 154 to 162.
unfoldable pub enter_state :
    Time → RebalancingStateType → String → TransitionOptions → RebalancingStatus → RebalancingStatus
enter_state now to reason opts rs = record rs {
  state = to;
  reason = reason;
  last_transition_at = now;
  action = if is_no_action opts.action then rs.action else opts.action;
  details = if is_empty opts.details then rs.details else opts.details;
}

-- The threshold in force: the profile's, or the default.
unfoldable pub effective_threshold : ℤ → ℤ
effective_threshold threshold =
    if leb_ℤ threshold (pos 0) then default_escalation_threshold else threshold

unfoldable pub next_streak : RebalanceOutcome → ℤ → ℤ
next_streak outcome streak = if counts_as_failure outcome then inc_int32 streak else pos 0

-- The streak reaches the threshold, and the outcome is not an escalation already.
unfoldable pub promotes : ℤ → RebalanceOutcome → ℤ → Bool
promotes threshold outcome streak =
    not (is_escalated_outcome outcome) && leb_ℤ (effective_threshold threshold) streak

-- Lines 172 to 209: the streak, the escalation, the cooldown and the history.
unfoldable pub close_cycle :
    Deps
    → StateWriter
    → ℤ
    → Time
    → String
    → TransitionOptions
    → RebalancingStatus
    → RebalancingStatus
close_cycle f w threshold now reason opts rs =
    let streak = next_streak opts.outcome rs.consecutive_failures in
    let promoted = promotes threshold opts.outcome streak in
    let decision : RebalanceDecision = record {
      decision_id = rs.decision_id;
      outcome = if promoted then RebalanceOutcome.escalated else opts.outcome;
      action = rs.action;
      reason = reason;
      details = rs.details;
      started_at = rs.started_at;
      last_transition_at = now;
    } in
    record rs {
      consecutive_failures = streak;
      is_escalated =
          if promoted
          then true
          else if is_escalated_outcome opts.outcome
          then true
          else rs.is_escalated;
      escalated_reason =
          if promoted
          then f.int streak <> " consecutive Failed/Deferred outcomes, latest: " <> reason
          else if is_escalated_outcome opts.outcome
          then reason
          else rs.escalated_reason;
      cooldown_until =
          if ltb_ℤ (pos 0) opts.cooldown then add_duration now opts.cooldown else rs.cooldown_until;
      recent_decisions = prepend_decision w rs.recent_decisions decision;
    }

-- The status that the transition writes, from the one that it read.
unfoldable pub next_status :
    Deps
    → StateWriter
    → ℤ
    → Time
    → String
    → RebalancingStateType
    → String
    → TransitionOptions
    → RebalancingStatus
    → RebalancingStatus
unfolding start_cycle enter_state close_cycle
next_status f w threshold now id to reason opts rs =
    let entered = enter_state now to reason opts (start_cycle now id to rs) in
    if same_state to watching then close_cycle f w threshold now reason opts entered else entered

-- Lines 136 to 210: the profile to write, or the refusal.
unfoldable pub apply_transition :
    Deps
    → StateWriter
    → String
    → Time
    → String
    → RebalancingStateType
    → String
    → TransitionOptions
    → OrchestrationProfile
    → Result OrchestrationProfile
apply_transition f w name now id to reason opts profile =
    let rs = profile.status.rebalancing_status in
    let threshold = profile.spec.rebalancing.escalation_threshold in
    if not (is_valid_transition rs.state to)
    then err (
        failure (
          "rebalance writer: invalid transition "
          <> f.quote (empty_as_none rs.state)
          <> " -> "
          <> f.quote (state_text to)
          <> " for profile "
          <> name))
    else if same_state to watching && is_no_outcome opts.outcome
    then err (
        failure (
          "rebalance writer: transition to Watching for profile " <> name
          <> " requires an Outcome"))
    else ok (record profile {
      status = record (profile.status) {
        rebalancing_status = next_status f w threshold now id to reason opts rs;
      };
    })

-- ===== src/Migrate/Migrated.antt =====
-- cmd/migrate-rebalance-status/main.go: the object that the tool writes, field by field.
use hiro_adaptive_orchestrat.Base.{◌≡◌, refl, ◌∷◌}
use hiro_adaptive_orchestrat.Types.{Time, watching, RebalanceOutcome, RebalancingStatus}
use hiro_adaptive_orchestrat.Migrate.{StoredState, StoredProfile, migrated_at}

-- A rebalancing status that is Watching since a time, with the cycle that it showed in its history.
pub record IsClosedAt (now : Time) (o : RebalanceOutcome) (old new : RebalancingStatus)
    : Type 0 where
  pub state : new.state ≡ watching
  pub time : new.last_transition_at ≡ now
  pub history :
      new.recent_decisions
      ≡ record {
        decision_id = old.decision_id;
        outcome = o;
        action = old.action;
        reason = old.reason;
        details = old.details;
        started_at = old.started_at;
        last_transition_at = old.last_transition_at;
      }
        ∷ old.recent_decisions
  pub reason : new.reason ≡ old.reason
  pub decision_id : new.decision_id ≡ old.decision_id
  pub action : new.action ≡ old.action
  pub details : new.details ≡ old.details
  pub started_at : new.started_at ≡ old.started_at
  pub cooldown_until : new.cooldown_until ≡ old.cooldown_until
  pub consecutive_failures : new.consecutive_failures ≡ old.consecutive_failures
  pub is_escalated : new.is_escalated ≡ old.is_escalated
  pub escalated_reason : new.escalated_reason ≡ old.escalated_reason

-- What is written for what was read: Watching, at the time of the try, with one record more in front
-- of the history, and all else as it was.
pub record IsMigrated (now : Time) (o : RebalanceOutcome) (stored w : StoredProfile) : Type 0 where
  pub stored_state : w.state ≡ StoredState.current watching
  pub name : w.profile.name ≡ stored.profile.name
  pub namespace : w.profile.namespace ≡ stored.profile.namespace
  pub spec : w.profile.spec ≡ stored.profile.spec
  pub status : w.profile.status.status ≡ stored.profile.status.status
  pub status_reason : w.profile.status.reason ≡ stored.profile.status.reason
  pub placement : w.profile.status.placement_status ≡ stored.profile.status.placement_status
  pub updated : w.profile.status.last_updated_time ≡ stored.profile.status.last_updated_time
  pub cycle :
      IsClosedAt now o stored.profile.status.rebalancing_status w.profile.status.rebalancing_status

pub migrated_at-IsMigrated :
    (now : Time) (o : RebalanceOutcome) (stored : StoredProfile)
    → IsMigrated now o stored (migrated_at now o stored)
unfolding migrated_at
migrated_at-IsMigrated now o stored = record {
  stored_state = refl;
  name = refl;
  namespace = refl;
  spec = refl;
  status = refl;
  status_reason = refl;
  placement = refl;
  updated = refl;
  cycle = record {
    state = refl;
    time = refl;
    history = refl;
    reason = refl;
    decision_id = refl;
    action = refl;
    details = refl;
    started_at = refl;
    cooldown_until = refl;
    consecutive_failures = refl;
    is_escalated = refl;
    escalated_reason = refl;
  };
}

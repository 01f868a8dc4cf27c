-- ===== src/Migrate.antt =====
-- cmd/migrate-rebalance-status/main.go: the one-time tool that moves profiles with a state of the
-- older API to Watching. What the API server answers in each try is an argument; the flags, the
-- client and the log lines are left out.
pub mod Migrated
pub mod Writes
pub mod Rerun
use hiro_adaptive_orchestrat.Base.{
  ℕ, ◌+◌, ltb, String, ◌<>◌, Bool, true, false, if◌then◌else◌, List, [], ◌∷◌, ◌++◌, Result, ok, err,
  Error, wrap, is_conflict,
}
use hiro_adaptive_orchestrat.Types.{
  Time, RebalancingStateType, watching, RebalanceOutcome, RebalanceDecision, RebalancingStatus,
  OrchestrationProfile,
}
use hiro_adaptive_orchestrat.Rebalance.Writer.Steps.{with_rebalancing}

-- The states that only the older API had.
pub data LegacyState : Type 0 where
  enacted no_op rejected deferred failed : LegacyState

-- The state of an object as it is stored.
pub data StoredState : Type 0 where
  legacy : LegacyState → StoredState
  current : RebalancingStateType → StoredState

-- An object as it is stored: its state, and the profile with all the other fields. The field of
-- `profile` for the state says nothing while the state is a legacy one.
pub record StoredProfile : Type 0 where
  pub state : StoredState
  pub profile : OrchestrationProfile

-- `legacyOutcomes`
unfoldable pub legacy_outcome : LegacyState → RebalanceOutcome
legacy_outcome LegacyState.enacted = RebalanceOutcome.enacted
legacy_outcome LegacyState.no_op = RebalanceOutcome.no_op
legacy_outcome LegacyState.rejected = RebalanceOutcome.rejected
legacy_outcome LegacyState.deferred = RebalanceOutcome.deferred
legacy_outcome LegacyState.failed = RebalanceOutcome.failed

-- The record that is put in front of the history.
abbrev pub closing_decision : RebalanceOutcome → RebalancingStatus → RebalanceDecision
closing_decision outcome rs = record {
  decision_id = rs.decision_id;
  outcome = outcome;
  action = rs.action;
  reason = rs.reason;
  details = rs.details;
  started_at = rs.started_at;
  last_transition_at = rs.last_transition_at;
}

-- The object that is written.
unfoldable pub migrated_at : Time → RebalanceOutcome → StoredProfile → StoredProfile
migrated_at now outcome stored =
    let rs = stored.profile.status.rebalancing_status in
    record {
      state = StoredState.current watching;
      profile = with_rebalancing stored.profile (record rs {
        recent_decisions = closing_decision outcome rs ∷ rs.recent_decisions;
        state = watching;
        last_transition_at = now;
      });
    }

-- What the server and the clock answer in one try: to the read, and to the write if there is one.
pub record Try : Type 0 where
  pub read : Result StoredProfile
  pub now : Time
  pub answer : Result (Unit {0})

-- A result, and the writes that were asked for, in their order.
pub record Outcome : Type 0 where
  pub result : Result (Unit {0})
  pub writes : List StoredProfile

-- An object that was read: nothing is done for one that has been migrated by now.
abbrev pub try_stored : RebalanceOutcome → Try → StoredProfile → StoredState → Outcome
try_stored o t stored (StoredState.current s) = record { result = ok tt; writes = [] }
try_stored o t stored (StoredState.legacy l) = record {
  result = t.answer;
  writes = migrated_at t.now o stored ∷ [];
}

abbrev pub try_read : String → RebalanceOutcome → Try → Result StoredProfile → Outcome
try_read name o t (err e) = record {
  result = err (wrap ("fetching profile " <> name) e);
  writes = [];
}
try_read name o t (ok stored) = try_stored o t stored stored.state

-- After a try: another one on a conflict, whose writes follow.
abbrev pub again_on_conflict : Result (Unit {0}) → Outcome → Outcome → Outcome
again_on_conflict (ok _) done next = done
again_on_conflict (err e) done next =
    if is_conflict e
    then record { result = next.result; writes = done.writes ++ next.writes }
    else done

-- `migrateProfile`, with its first try and those that the backoff allows after it.
unfoldable pub migrate_profile : String → RebalanceOutcome → Try → List Try → Outcome
unfolding migrated_at
migrate_profile name o t [] = try_read name o t t.read
migrate_profile name o t (t' ∷ ts) =
    again_on_conflict (try_read name o t t.read).result (try_read name o t t.read)
      (migrate_profile name o t' ts)

-- An object of the listing, with the answers of the tries for it.
pub record Listed : Type 0 where
  pub stored : StoredProfile
  pub first : Try
  pub others : List Try

-- `migrated`, `skipped` and `failed`, and the writes so far.
pub record Progress : Type 0 where
  pub migrated : ℕ
  pub skipped : ℕ
  pub failed : ℕ
  pub writes : List StoredProfile

abbrev pub nothing_done : Progress
nothing_done = record { migrated = 0; skipped = 0; failed = 0; writes = [] }

abbrev pub count_result : Result (Unit {0}) → List StoredProfile → Progress → Progress
count_result (ok _) written p = record p { migrated = p.migrated + 1; writes = p.writes ++ written }
count_result (err e) written p = record p { failed = p.failed + 1; writes = p.writes ++ written }

-- The body of the loop.
abbrev pub migrate_one : Bool → Listed → StoredState → Progress → Progress
migrate_one dry_run l (StoredState.current s) p = record p { skipped = p.skipped + 1 }
migrate_one dry_run l (StoredState.legacy s) p =
    if dry_run
    then record p { migrated = p.migrated + 1 }
    else (let o = migrate_profile l.stored.profile.name (legacy_outcome s) l.first l.others in
        count_result o.result o.writes p)

-- The loop over the listing.
unfoldable pub migrate_all : Bool → List Listed → Progress → Progress
unfolding legacy_outcome migrate_profile
migrate_all dry_run [] p = p
migrate_all dry_run (l ∷ ls) p = migrate_all dry_run ls (migrate_one dry_run l l.stored.state p)

-- `main` after the listing: whether it exits with 0, and what was done.
abbrev pub run_migration : Bool → Result (List Listed) → Bool × Progress
run_migration dry_run (err e) = (false, nothing_done)
run_migration dry_run (ok ls) =
    let p = migrate_all dry_run ls nothing_done in (if ltb 0 p.failed then false else true, p)

-- ===== src/Tests/Operator.antt =====
-- The theorems on the start of the operator, the gauges and the migration, and on an undisturbed
-- cycle of the engine, at concrete data.
use hiro_adaptive_orchestrat.Base.{
  ℕ, ◌+◌, ◌≡◌, refl, not, ◌&&◌, true, false, is_empty, if◌then◌else◌, str_eq, List, [], ◌∷◌, map,
  All, some, pos, ok, err, failure,
}
use hiro_adaptive_orchestrat.Types.{watching}
use hiro_adaptive_orchestrat.Io.{Op}
use hiro_adaptive_orchestrat.Io.Stored.{Runs}
use hiro_adaptive_orchestrat.Io.World.{World, run}
use hiro_adaptive_orchestrat.Rebalance.Reconcile.{is_in_flight, reconcile}
use hiro_adaptive_orchestrat.Rebalance.Reconcile.Cycle.Rests.{Settled, reconcile-settles}
use hiro_adaptive_orchestrat.Command.{Parsers, Environ, start}
use hiro_adaptive_orchestrat.Command.Environment.{is_ok, variables, all_readable, start-readable}
use hiro_adaptive_orchestrat.Command.Defaults.{start_plainly, start-plainly}
use hiro_adaptive_orchestrat.Metrics.{StateCounts, collect}
use hiro_adaptive_orchestrat.Metrics.Gauges.{Shows, collect-Shows}
use hiro_adaptive_orchestrat.Migrate.{
  LegacyState, StoredState, StoredProfile, Listed, nothing_done, migrate_all,
}
use hiro_adaptive_orchestrat.Migrate.Writes.{IsMigration, handled, migrate_all-IsMigration}
use hiro_adaptive_orchestrat.Migrate.Rerun.{undisturbed, after, rewritten, migrate_all-rerun}
use hiro_adaptive_orchestrat.Tests.Data.{deps, engine, profile, flying, paused}
use hiro_adaptive_orchestrat.Tests.Server.{world}

reconcile-settles_example : Runs "shop" (reconcile engine (pos 9) "shop") profile (λ p' _.
    (is_in_flight p'.status.rebalancing_status.state ≡ false) × Settled engine "shop" profile p')
reconcile-settles_example = reconcile-settles engine (pos 9) "shop" profile refl

abbrev parsers : Parsers
parsers = record {
  duration = λ v. if str_eq v "5s" then ok (pos 5000000000) else err (failure "no duration");
  float = λ v. err (failure "no float");
  int = λ v. if str_eq v "4" then ok (pos 4) else err (failure "no integer");
  quantity = λ v. err (failure "no quantity");
}

-- The agent's URL, a timeout and a bound.
abbrev environ : Environ
environ name =
    if str_eq name "DECISION_AGENT_URL"
    then "http://agent"
    else if str_eq name "REBALANCE_DECISION_TIMEOUT"
    then "5s"
    else if str_eq name "REBALANCE_MAX_REPLICAS"
    then "4"
    else ""

start-readable_example :
    is_ok (start parsers deps 4 environ)
    ≡ (not (is_empty (environ "DECISION_AGENT_URL")) && all_readable parsers environ variables)
start-readable_example = start-readable parsers environ deps 4

environ_readable : all_readable parsers environ variables ≡ true
environ_readable = refl

start-plainly_example : start parsers deps 4 environ ≡ start_plainly parsers deps 4 environ
start-plainly_example = start-plainly parsers deps 4 environ

abbrev listing_world : World
listing_world Op.list_profiles = ok (profile ∷ flying ∷ paused ∷ [])
listing_world o = world o

collect-Shows_example :
    (c : StateCounts) × (run listing_world collect ≡ some c)
    × Shows (profile ∷ flying ∷ paused ∷ []) c
collect-Shows_example = collect-Shows listing_world (profile ∷ flying ∷ paused ∷ []) refl

-- A profile that the older API has left at Failed, and one that is on the new model.
abbrev old : StoredProfile
old = record { state = StoredState.legacy LegacyState.failed; profile = profile }

abbrev new : StoredProfile
new = record { state = StoredState.current watching; profile = profile }

abbrev listing : List Listed
listing =
    record {
      stored = old;
      first = record { read = err (failure "timeout"); now = 20; answer = ok tt };
      others = record { read = ok old; now = 21; answer = ok tt } ∷ [];
    }
    ∷ undisturbed 22 new
    ∷ []

migrate_all-IsMigration_example :
    All (IsMigration listing) (migrate_all false listing nothing_done).writes
    × ◌≡◌ {A = ℕ} 0 0
    × (handled (migrate_all false listing nothing_done) ≡ 2)
migrate_all-IsMigration_example = migrate_all-IsMigration false listing

migrate_all-rerun_example :
    ((migrate_all false (map (undisturbed 20) (old ∷ new ∷ [])) nothing_done).writes
      ≡ rewritten 20 (old ∷ new ∷ []))
    × ((migrate_all false (map (undisturbed 20) (old ∷ new ∷ [])) nothing_done).failed ≡ 0)
    × ((migrate_all false (map (undisturbed 20) (old ∷ new ∷ [])) nothing_done).migrated
          + (migrate_all false (map (undisturbed 20) (old ∷ new ∷ [])) nothing_done).skipped
        ≡ 2)
    × (migrate_all false (map (undisturbed 30) (map (after 20) (old ∷ new ∷ []))) nothing_done
        ≡ record { migrated = 0; skipped = 2; failed = 0; writes = [] })
migrate_all-rerun_example = migrate_all-rerun 20 30 (old ∷ new ∷ [])

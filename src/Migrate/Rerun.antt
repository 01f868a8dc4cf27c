-- ===== src/Migrate/Rerun.antt =====
-- cmd/migrate-rebalance-status/main.go: the tool is safe to run again.
use hiro_adaptive_orchestrat.Base.{
  ℕ, ◌+◌, ◌≡◌, refl, ap, ◌∙◌, Bool, true, false, if◌then◌else◌, List, [], ◌∷◌, ◌++◌, map, length,
  ok, arith,
}
use mathlib.Core.List.{append-nil, append_assoc}
use hiro_adaptive_orchestrat.Types.{Time}
use hiro_adaptive_orchestrat.Migrate.{
  StoredState, StoredProfile, legacy_outcome, migrated_at, migrate_profile, Listed, Progress,
  nothing_done, migrate_one, migrate_all,
}

-- An object that nobody else writes, on a server that accepts the tool's writes.
abbrev pub undisturbed : Time → StoredProfile → Listed
undisturbed now stored = record {
  stored = stored;
  first = record { read = ok stored; now = now; answer = ok tt };
  others = [];
}

abbrev pub is_legacy : StoredState → Bool
is_legacy (StoredState.legacy l) = true
is_legacy (StoredState.current s) = false

abbrev by_state : Time → StoredProfile → StoredState → StoredProfile
by_state now stored (StoredState.current s) = stored
by_state now stored (StoredState.legacy l) = migrated_at now (legacy_outcome l) stored

-- What becomes of an object in an undisturbed run.
abbrev pub after : Time → StoredProfile → StoredProfile
after now stored = by_state now stored stored.state

-- The objects with a legacy state, as they are after the run.
abbrev pub rewritten : Time → List StoredProfile → List StoredProfile
rewritten now [] = []
rewritten now (s ∷ ss) =
    if is_legacy s.state then after now s ∷ rewritten now ss else rewritten now ss

abbrev count_legacy : List StoredProfile → ℕ
count_legacy [] = 0
count_legacy (s ∷ ss) = if is_legacy s.state then count_legacy ss + 1 else count_legacy ss

abbrev count_current : List StoredProfile → ℕ
count_current [] = 0
count_current (s ∷ ss) = if is_legacy s.state then count_current ss else count_current ss + 1

-- The progress after a run, from the one before.
abbrev advanced : Time → List StoredProfile → Progress → Progress
advanced now ps p = record {
  migrated = p.migrated + count_legacy ps;
  skipped = p.skipped + count_current ps;
  failed = p.failed;
  writes = p.writes ++ rewritten now ps;
}

module _ (now : Time) where
  one-advanced :
      (s : StoredProfile) (state : StoredState) (ps : List StoredProfile) (p : Progress)
      → s.state ≡ state
      → advanced now ps (migrate_one false (undisturbed now s) state p) ≡ advanced now (s ∷ ps) p
  unfolding migrate_profile
  one-advanced s (StoredState.current c) ps p e = ground arith
  one-advanced s (StoredState.legacy l) ps p e =
      ground (arith, append_assoc p.writes (after now s ∷ []) (rewritten now ps))

  migrate_all-advanced :
      (ps : List StoredProfile) (p : Progress)
      → migrate_all false (map (undisturbed now) ps) p ≡ advanced now ps p
  unfolding migrate_all
  migrate_all-advanced [] p = ground (arith, append-nil p.writes)
  migrate_all-advanced (s ∷ ps) p =
      migrate_all-advanced ps (migrate_one false (undisturbed now s) s.state p)
      ∙ one-advanced s s.state ps p refl

-- The objects of the listing after an undisturbed run.
abbrev pub all_after : Time → List StoredProfile → List StoredProfile
all_after now ps = map (after now) ps

after-current : (now : Time) (s : StoredProfile) → is_legacy (after now s).state ≡ false
unfolding migrated_at
after-current now s = ground arith

settled :
    (now later : Time) (ps : List StoredProfile)
    → (count_legacy (all_after now ps) ≡ 0)
      × (count_current (all_after now ps) ≡ length ps)
      × (rewritten later (all_after now ps) ≡ [])
settled now later [] = (refl, refl, refl)
settled now later (s ∷ ps) = ground (arith, after-current now s, settled now later ps)

accounted : (ps : List StoredProfile) → count_legacy ps + count_current ps ≡ length ps
accounted [] = refl
accounted (s ∷ ps) = ground (arith, accounted ps)

-- Where nobody else writes the profiles and the server accepts the writes, a run writes exactly the
-- profiles with a legacy state, each migrated, in the order of the listing, fails on none and
-- accounts for all. A run on what the first has left skips every profile and writes none.
pub migrate_all-rerun :
    (now later : Time) (ps : List StoredProfile)
    → ((migrate_all false (map (undisturbed now) ps) nothing_done).writes ≡ rewritten now ps)
      × ((migrate_all false (map (undisturbed now) ps) nothing_done).failed ≡ 0)
      × ((migrate_all false (map (undisturbed now) ps) nothing_done).migrated
            + (migrate_all false (map (undisturbed now) ps) nothing_done).skipped
          ≡ length ps)
      × (migrate_all false (map (undisturbed later) (map (after now) ps)) nothing_done
          ≡ record { migrated = 0; skipped = length ps; failed = 0; writes = [] })
migrate_all-rerun now later ps =
    let first = migrate_all-advanced now ps nothing_done in
    let second = migrate_all-advanced later (all_after now ps) nothing_done in
    let left = settled now later ps in
    (
      ap (λ p. p.writes) first,
      ap (λ p. p.failed) first,
      ap (λ p. p.migrated + p.skipped) first ∙ ground (arith, accounted ps),
      second ∙ ground arith,
    )

-- ===== src/Migrate/Writes.antt =====
-- cmd/migrate-rebalance-status/main.go: what the tool writes, whatever the server answers.
use hiro_adaptive_orchestrat.Base.{
  ℕ, ◌+◌, ◌≡◌, refl, ◌∙◌, ◌⊎◌, inl, inr, Bool, true, false, if◌then◌else◌, String, List, [], ◌∷◌,
  ◌++◌, length, All, Result, ok, err, is_conflict, arith,
}
use hiro_adaptive_orchestrat.Types.{RebalanceOutcome}
use hiro_adaptive_orchestrat.Migrate.Migrated.{IsMigrated, migrated_at-IsMigrated}
use hiro_adaptive_orchestrat.Migrate.{
  LegacyState, StoredState, StoredProfile, legacy_outcome, Try, Outcome, try_stored, try_read,
  again_on_conflict, migrate_profile, Listed, Progress, nothing_done, count_result, migrate_one,
  migrate_all,
}

-- A write of an object that a try has read in a legacy state.
abbrev pub FromTry : RebalanceOutcome → StoredProfile → Try → Type 0
FromTry o w t =
    (stored : StoredProfile) × (l : LegacyState) × (t.read ≡ ok stored)
    × (stored.state ≡ StoredState.legacy l)
    × IsMigrated t.now o stored w

-- One of these tries has led to the write.
abbrev pub FromTries : RebalanceOutcome → StoredProfile → List Try → Type 0
FromTries o w [] = ⊥
FromTries o w (t ∷ ts) = FromTry o w t ⊎ FromTries o w ts

-- An object that was listed in a legacy state, whose outcome is recorded.
abbrev pub FromListed : StoredProfile → Listed → Type 0
FromListed w l =
    (s : LegacyState) × (l.stored.state ≡ StoredState.legacy s)
    × FromTries (legacy_outcome s) w (l.first ∷ l.others)

-- The write of one of the objects listed.
abbrev pub IsMigration : List Listed → StoredProfile → Type 0
IsMigration [] w = ⊥
IsMigration (l ∷ ls) w = FromListed w l ⊎ IsMigration ls w

module _ {A : Type 0} (P : A → Type 0) where
  All-append : (xs ys : List A) → All P xs → All P ys → All P (xs ++ ys)
  All-append [] ys hx hy = hy
  All-append (x ∷ xs) ys hx hy = (hx.0, All-append xs ys hx.1 hy)

module _ {A : Type 0} (P Q : A → Type 0) where
  All-mono : (xs : List A) → All P xs → ((a : A) → P a → Q a) → All Q xs
  All-mono [] h f = tt
  All-mono (x ∷ xs) h f = (f x h.0, All-mono xs h.1 f)

module _ {A : Type 0} (P : A → Type 0) where
  split_if : (b : Bool) (x y : A) → P x → P y → P (if b then x else y)
  split_if true x y hx hy = hx
  split_if false x y hx hy = hy

again-All :
    (P : StoredProfile → Type 0) (r : Result (Unit {0})) (done next : Outcome)
    → All P done.writes
    → All P next.writes
    → All P (again_on_conflict r done next).writes
again-All P (ok _) done next hd hn = hd
again-All P (err e) done next hd hn =
    split_if (λ (o : Outcome). All P o.writes) (is_conflict e) _ _
      (All-append P done.writes next.writes hd hn) hd

module _ (name : String) (o : RebalanceOutcome) where
  stored-FromTry :
      (t : Try) (stored : StoredProfile) (state : StoredState)
      → t.read ≡ ok stored
      → stored.state ≡ state
      → All (λ w. FromTry o w t) (try_stored o t stored state).writes
  stored-FromTry t stored (StoredState.current s) e h = tt
  stored-FromTry t stored (StoredState.legacy l) e h =
      ((stored, l, e, h, migrated_at-IsMigrated t.now o stored), tt)

  read-FromTry :
      (t : Try) (r : Result StoredProfile)
      → t.read ≡ r
      → All (λ w. FromTry o w t) (try_read name o t r).writes
  read-FromTry t (err e) h = tt
  read-FromTry t (ok stored) h = stored-FromTry t stored stored.state h refl

  migrate_profile-FromTries :
      (t : Try) (ts : List Try)
      → All (λ w. FromTries o w (t ∷ ts)) (migrate_profile name o t ts).writes
  unfolding migrate_profile
  migrate_profile-FromTries t [] = All-mono _ _ _ (read-FromTry t t.read refl) (λ w h. inl h)
  migrate_profile-FromTries t (t' ∷ ts) =
      again-All (λ w. FromTries o w (t ∷ t' ∷ ts)) (try_read name o t t.read).result
        (try_read name o t t.read) (migrate_profile name o t' ts)
        (All-mono _ _ _ (read-FromTry t t.read refl) (λ w h. inl h))
        (All-mono _ _ _ (migrate_profile-FromTries t' ts) (λ w h. inr h))

count_result-All :
    (P : StoredProfile → Type 0) (r : Result (Unit {0})) (written : List StoredProfile)
    (p : Progress)
    → All P p.writes
    → All P written
    → All P (count_result r written p).writes
count_result-All P (ok _) written p hp hw = All-append P p.writes written hp hw
count_result-All P (err e) written p hp hw = All-append P p.writes written hp hw

-- The objects that are accounted for.
abbrev pub handled : Progress → ℕ
handled p = p.migrated + p.skipped + p.failed

count_result-handled :
    (r : Result (Unit {0})) (written : List StoredProfile) (p : Progress)
    → handled (count_result r written p) ≡ handled p + 1
count_result-handled (ok _) written p = omega arith
count_result-handled (err e) written p = omega arith

migrate_one-handled :
    (dry_run : Bool) (l : Listed) (state : StoredState) (p : Progress)
    → handled (migrate_one dry_run l state p) ≡ handled p + 1
migrate_one-handled dry_run l (StoredState.current s) p = omega arith
migrate_one-handled true l (StoredState.legacy s) p = omega arith
migrate_one-handled false l (StoredState.legacy s) p = count_result-handled _ _ p

migrate_all-handled :
    (dry_run : Bool) (ls : List Listed) (p : Progress)
    → handled (migrate_all dry_run ls p) ≡ handled p + length ls
unfolding migrate_all
migrate_all-handled dry_run [] p = omega arith
migrate_all-handled dry_run (l ∷ ls) p =
    migrate_all-handled dry_run ls (migrate_one dry_run l l.stored.state p)
    ∙ ground (arith, migrate_one-handled dry_run l l.stored.state p)

migrate_one-dry :
    (l : Listed) (state : StoredState) (p : Progress)
    → ((migrate_one true l state p).writes ≡ p.writes)
      × ((migrate_one true l state p).failed ≡ p.failed)
migrate_one-dry l (StoredState.current s) p = (refl, refl)
migrate_one-dry l (StoredState.legacy s) p = (refl, refl)

migrate_all-dry :
    (ls : List Listed) (p : Progress)
    → ((migrate_all true ls p).writes ≡ p.writes) × ((migrate_all true ls p).failed ≡ p.failed)
unfolding migrate_all
migrate_all-dry [] p = (refl, refl)
migrate_all-dry (l ∷ ls) p =
    let rest = migrate_all-dry ls (migrate_one true l l.stored.state p) in
    let one = migrate_one-dry l l.stored.state p in (rest.0 ∙ one.0, rest.1 ∙ one.1)

module _ (P : StoredProfile → Type 0) (dry_run : Bool) where
  migrate_one-All :
      (l : Listed) (state : StoredState) (p : Progress)
      → l.stored.state ≡ state
      → ((w : StoredProfile) → FromListed w l → P w)
      → All P p.writes
      → All P (migrate_one dry_run l state p).writes
  migrate_one-All l (StoredState.current s) p e from h = h
  migrate_one-All l (StoredState.legacy s) p e from h =
      split_if (λ (q : Progress). All P q.writes) dry_run _ _ h
        (count_result-All P _ _ p h (
          All-mono _ _ _
            (migrate_profile-FromTries l.stored.profile.name (legacy_outcome s) l.first l.others)
            (λ w tries. from w (s, e, tries))))

  migrate_all-All :
      (ls : List Listed) (p : Progress)
      → ((w : StoredProfile) → IsMigration ls w → P w)
      → All P p.writes
      → All P (migrate_all dry_run ls p).writes
  unfolding migrate_all
  migrate_all-All [] p from h = h
  migrate_all-All (l ∷ ls) p from h =
      migrate_all-All ls (migrate_one dry_run l l.stored.state p) (λ w m. from w (inr m))
        (migrate_one-All l l.stored.state p refl (λ w m. from w (inl m)) h)

no_writes :
    (dry_run : Bool) (ls : List Listed)
    → (if dry_run
        then length (migrate_all dry_run ls nothing_done).writes
          + (migrate_all dry_run ls nothing_done).failed
        else 0)
      ≡ 0
no_writes true ls = let dry = migrate_all-dry ls nothing_done in rw (dry.0, dry.1) refl
no_writes false ls = refl

-- Whatever the server answers in any try, and whoever else writes: each write of a run is that of
-- an object which was listed in a legacy state and which one of the tries for it has read in a
-- legacy state. It writes what that try has read, with the state Watching, the time of the try and
-- one record more in front of the history, of the cycle that the object showed and with the outcome
-- of the listed state; all other fields are as they were read. A dry run
-- writes nothing and fails on nothing, and the counts add up to the objects listed.
pub migrate_all-IsMigration :
    (dry_run : Bool) (ls : List Listed)
    → All (IsMigration ls) (migrate_all dry_run ls nothing_done).writes
      × ((if dry_run
            then length (migrate_all dry_run ls nothing_done).writes
              + (migrate_all dry_run ls nothing_done).failed
            else 0)
          ≡ 0)
      × (handled (migrate_all dry_run ls nothing_done) ≡ length ls)
migrate_all-IsMigration dry_run ls = (
  migrate_all-All (IsMigration ls) dry_run ls nothing_done (λ w m. m) tt,
  no_writes dry_run ls,
  migrate_all-handled dry_run ls nothing_done ∙ ground arith,
)

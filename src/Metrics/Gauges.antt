-- ===== src/Metrics/Gauges.antt =====
-- internal/metrics/rebalance.go: what the gauges show.
use hiro_adaptive_orchestrat.Base.{
  ℕ, ◌+◌, ◌≡◌, refl, Bool, if◌then◌else◌, List, [], ◌∷◌, length, some, ok, arith,
}
use hiro_adaptive_orchestrat.Types.{
  RebalancingStateType, none_state, watching, triggered, evaluating, decided, enacting,
  OrchestrationProfile,
}
use hiro_adaptive_orchestrat.Io.{Op}
use hiro_adaptive_orchestrat.Io.World.{World, run}
use hiro_adaptive_orchestrat.Rebalance.State.{same_state}
use hiro_adaptive_orchestrat.Metrics.{
  StateCounts, no_counts, count_state, count_escalated, count_profiles, collect,
}

-- The number of profiles that pass a test.
abbrev pub count : (OrchestrationProfile → Bool) → List OrchestrationProfile → ℕ
count test [] = 0
count test (p ∷ ps) = if test p then count test ps + 1 else count test ps

abbrev pub rebalancing_state : OrchestrationProfile → RebalancingStateType
rebalancing_state p = p.status.rebalancing_status.state

-- A profile in this state.
abbrev pub is_in : RebalancingStateType → OrchestrationProfile → Bool
is_in s p = same_state (rebalancing_state p) s

abbrev pub escalates : OrchestrationProfile → Bool
escalates p = p.status.rebalancing_status.is_escalated

-- What the gauges show of these profiles: each state's number, with those in no state yet among the
-- ones at Watching, and the number of those that are escalated.
pub record Shows (ps : List OrchestrationProfile) (c : StateCounts) : Type 0 where
  pub at_rest : c.watching ≡ count (is_in none_state) ps + count (is_in watching) ps
  pub at_triggered : c.triggered ≡ count (is_in triggered) ps
  pub at_evaluating : c.evaluating ≡ count (is_in evaluating) ps
  pub at_decided : c.decided ≡ count (is_in decided) ps
  pub at_enacting : c.enacting ≡ count (is_in enacting) ps
  pub paused : c.escalated ≡ count escalates ps
  pub total : c.watching + c.triggered + c.evaluating + c.decided + c.enacting ≡ length ps

-- The loop adds to what was counted before.
record Adds (ps : List OrchestrationProfile) (c c' : StateCounts) : Type 0 where
  at_rest : c'.watching ≡ c.watching + count (is_in none_state) ps + count (is_in watching) ps
  at_triggered : c'.triggered ≡ c.triggered + count (is_in triggered) ps
  at_evaluating : c'.evaluating ≡ c.evaluating + count (is_in evaluating) ps
  at_decided : c'.decided ≡ c.decided + count (is_in decided) ps
  at_enacting : c'.enacting ≡ c.enacting + count (is_in enacting) ps
  paused : c'.escalated ≡ c.escalated + count escalates ps
  total :
      c'.watching + c'.triggered + c'.evaluating + c'.decided + c'.enacting
      ≡ c.watching + c.triggered + c.evaluating + c.decided + c.enacting + length ps

counted : OrchestrationProfile → StateCounts → StateCounts
counted p c = count_escalated (escalates p) (count_state (rebalancing_state p) c)

module _ (p : OrchestrationProfile) (ps : List OrchestrationProfile) (c c' : StateCounts) where
  one-Adds : Adds ps (counted p c) c' → Adds (p ∷ ps) c c'
  unfolding counted count_state
  one-Adds h = ground arith

count_profiles-Adds :
    (ps : List OrchestrationProfile) (c : StateCounts) → Adds ps c (count_profiles ps c)
unfolding count_profiles counted
count_profiles-Adds [] c = omega arith
count_profiles-Adds (p ∷ ps) c = one-Adds p ps c _ (count_profiles-Adds ps _)

-- In a world whose listing of all profiles succeeds, what is reported shows these profiles: each
-- gauge of a state has the number of profiles in it, where Watching has those in no state too, the
-- other gauge has the number of the escalated ones, and the states' gauges add up to the number of
-- profiles.
pub collect-Shows :
    (w : World) (ps : List OrchestrationProfile)
    → w Op.list_profiles ≡ ok ps
    → (c : StateCounts) × (run w collect ≡ some c) × Shows ps c
unfolding collect
collect-Shows w ps listed = (
  count_profiles ps no_counts,
  rw listed refl,
  let h = count_profiles-Adds ps no_counts in omega arith,
)

-- ===== src/Metrics.antt =====
-- internal/metrics/rebalance.go: the gauges of profiles by their rebalancing state. The float64
-- counts are exact below 2 ^ 53, and are numbers here. The counters are not modelled.
pub mod Gauges
use hiro_adaptive_orchestrat.Base.{
  ℕ, suc, ◌+◌, Bool, if◌then◌else◌, List, [], ◌∷◌, Option, none, some, Result, ok, err,
}
use hiro_adaptive_orchestrat.Types.{
  RebalancingStateType, none_state, watching, triggered, evaluating, decided, enacting,
  OrchestrationProfile,
}
use hiro_adaptive_orchestrat.Io.{Op, Prog, ret, op, ◌>>=◌}

-- The map `counts`, which has these five keys, and `escalated`.
pub record StateCounts : Type 0 where
  pub watching : ℕ
  pub triggered : ℕ
  pub evaluating : ℕ
  pub decided : ℕ
  pub enacting : ℕ
  pub escalated : ℕ

abbrev pub no_counts : StateCounts
no_counts = record {
  watching = 0;
  triggered = 0;
  evaluating = 0;
  decided = 0;
  enacting = 0;
  escalated = 0;
}

-- `counts[state]++`, where an unset state counts as Watching.
unfoldable pub count_state : RebalancingStateType → StateCounts → StateCounts
count_state none_state c = record c { watching = c.watching + 1 }
count_state watching c = record c { watching = c.watching + 1 }
count_state triggered c = record c { triggered = c.triggered + 1 }
count_state evaluating c = record c { evaluating = c.evaluating + 1 }
count_state decided c = record c { decided = c.decided + 1 }
count_state enacting c = record c { enacting = c.enacting + 1 }

abbrev pub count_escalated : Bool → StateCounts → StateCounts
count_escalated escalated c = record c {
  escalated = if escalated then c.escalated + 1 else c.escalated;
}

-- The loop over the profiles.
unfoldable pub count_profiles : List OrchestrationProfile → StateCounts → StateCounts
unfolding count_state
count_profiles [] c = c
count_profiles (p ∷ ps) c =
    let rs = p.status.rebalancing_status in
    count_profiles ps (count_escalated rs.is_escalated (count_state rs.state c))

abbrev counts_of : Result (List OrchestrationProfile) → Option StateCounts
counts_of (err e) = none
counts_of (ok ps) = some (count_profiles ps no_counts)

-- `Collect`: nothing is reported if the listing fails.
unfoldable pub collect : Prog (Option StateCounts)
unfolding count_profiles
collect = op Op.list_profiles >>= λ listed. ret (counts_of listed)

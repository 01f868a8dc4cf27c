-- ===== src/Rebalance/Enact.antt =====
-- What the enactors of internal/rebalance share: the wait loop, the energy gate's part in a timeout
-- (energy_gate.go), and their result.
pub mod Move
pub mod Scale
pub mod Resource
pub mod Retry
pub mod Closed
use hiro_adaptive_orchestrat.Base.{
  ℕ, zero, suc, ◌/◌, String, ◌<>◌, Bool, true, false, not, is_empty, if◌then◌else◌, Option, none,
  some, ℤ, pos, negsuc, Result, ok, err,
}
use hiro_adaptive_orchestrat.Types.{Duration, RebalanceOutcome, OrchestrationProfile}
use hiro_adaptive_orchestrat.Cluster.{EnergyAwareOrchestration}
use hiro_adaptive_orchestrat.Io.{Op, Prog, ret, op, ◌>>=◌, ◌>>◌}
use hiro_adaptive_orchestrat.Utils.{find_eao_for_app}

-- `moveResult` and `scaleResult`.
pub record EnactResult : Type 0 where
  pub outcome : RebalanceOutcome
  pub reason : String

-- How often a wait of this length can poll after its first try, at one poll in two seconds
-- (`moveActionPollInterval`, `scaleActionPollInterval`, `resizeActionPollInterval`).
abbrev pub polls : Duration → ℕ
polls (pos n) = n / 2000000000
polls (negsuc n) = 0

-- `wait.PollUntilContextTimeout` with `immediate`, as it is documented: the condition is tried at
-- once, and again while time is left; `none` is the timeout.
unfoldable pub poll : {A : Type 0} → ℕ → Prog (Option A) → Prog (Option A)
poll zero condition = condition
poll (suc n) condition = condition >>= λ found. elim found [
  | some a ↦ ret (some a)
  | none ↦ op Op.time_left >>= λ more. if more then poll n condition else ret none
]

abbrev closed_reason : EnergyAwareOrchestration → String
closed_reason eao =
    if is_empty eao.decision_reason
    then "energy supply reported insufficient"
    else eao.decision_reason

-- The verdict on a resource: only energy that is reported insufficient explains the timeout.
unfoldable pub explain_timeout : String → Result (Option EnergyAwareOrchestration) → EnactResult
explain_timeout reason (ok (some eao)) = elim (eao.sufficient) [
  | some false ↦ record {
    outcome = RebalanceOutcome.deferred;
    reason = reason <> " (energy gate closed: " <> closed_reason eao <> ")";
  }
  | _ ↦ record { outcome = RebalanceOutcome.failed; reason = reason }
]
explain_timeout reason (ok none) = record { outcome = RebalanceOutcome.failed; reason = reason }
explain_timeout reason (err e) = record { outcome = RebalanceOutcome.failed; reason = reason }

-- `classifyScheduleTimeout`
unfoldable pub classify_schedule_timeout : OrchestrationProfile → String → Prog EnactResult
unfolding explain_timeout
classify_schedule_timeout profile reason =
    if profile.spec.placement.awareness.energy
    then find_eao_for_app profile.spec.application_ref >>= (λ r. ret (explain_timeout reason r))
    else ret (record { outcome = RebalanceOutcome.failed; reason = reason })

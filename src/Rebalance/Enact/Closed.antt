-- ===== src/Rebalance/Enact/Closed.antt =====
-- The enactors of internal/rebalance, taken apart once for every property of programs that
-- sequencing keeps and that reads have: what else an enactor calls is a hypothesis of its lemma.
pub mod Move
pub mod Patch
pub mod Resize
use hiro_adaptive_orchestrat.Base.{
  ◌≡◌, refl, ◌||◌, ◌&&◌, ℕ, zero, suc, Bool, true, false, String, ℤ, pos, is_empty, str_eq,
  if◌then◌else◌, List, [], ◌∷◌, Option, none, some, Result, ok, err, Error,
}
use hiro_adaptive_orchestrat.Types.{
  Duration, ApplicationReference, OrchestrationProfile, RebalanceAction,
}
use hiro_adaptive_orchestrat.Cluster.{Pod, Workload, Autoscaler, EnergyAwareOrchestration}
use hiro_adaptive_orchestrat.Io.{Op, Answer, Prog, ret, op, ◌>>=◌}
use hiro_adaptive_orchestrat.Io.Closed.{Property, IsClosed, split_if, on_ok-Closed}
use hiro_adaptive_orchestrat.Io.Effects.{IsRead}
use hiro_adaptive_orchestrat.Utils.{
  resolve_label_selector, find_pods_for_application, find_eao_for_app, supported_kind,
}
pub use hiro_adaptive_orchestrat.Utils.Closed.{
  ClosedReads, find_pods_for_application-Closed, find_eao_for_app-Closed,
}
use hiro_adaptive_orchestrat.Rebalance.Enact.{poll, polls, classify_schedule_timeout, EnactResult}

module _ (K : Property) (c : IsClosed K) (reads : ClosedReads K) where
  -- One round of a poll.
  poll_round-Closed :
      (A : Type 0) (rest : Prog (Option A))
      → K (Option A) rest
      → (found : Option A)
      → K (Option A) (elim found [
        | some a ↦ ret (some a)
        | none ↦ op Op.time_left >>= λ more. if more then rest else ret none
      ])
  poll_round-Closed A rest h (some a) = c.done _ _
  poll_round-Closed A rest h none =
      c.bind _ _ _ _ (reads _ refl) (λ more. split_if K _ more _ _ (λ _. h) (λ _. c.done _ _))

  pub poll-Closed :
      (A : Type 0) (n : ℕ) (condition : Prog (Option A))
      → K (Option A) condition
      → K (Option A) (poll n condition)
  unfolding poll
  poll-Closed A zero condition h = h
  poll-Closed A (suc n) condition h =
      c.bind _ _ _ _ h (poll_round-Closed A _ (poll-Closed A n condition h))

  pub classify_schedule_timeout-Closed :
      (profile : OrchestrationProfile) (reason : String)
      → K EnactResult (classify_schedule_timeout profile reason)
  unfolding classify_schedule_timeout
  classify_schedule_timeout-Closed profile reason =
      split_if K _ profile.spec.placement.awareness.energy _ _
        (λ _. c.bind _ _ _ _ (find_eao_for_app-Closed K c reads _) (λ r. c.done _ _))
        (λ _. c.done _ _)

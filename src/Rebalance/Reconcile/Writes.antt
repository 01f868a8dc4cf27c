-- ===== src/Rebalance/Reconcile/Writes.antt =====
-- The status writes of one reconcile of internal/rebalance.
use hiro_adaptive_orchestrat.Base.{refl, ℤ, String, []}
use hiro_adaptive_orchestrat.Io.{Op, Answer, op}
use hiro_adaptive_orchestrat.Io.Wp.{Wp}
use hiro_adaptive_orchestrat.Io.Closed.{Property, Keeping, Keeping-IsClosed}
use hiro_adaptive_orchestrat.Io.Effects.{
  LeavesStatus, IsEnactment-LeavesStatus, IsRead-LeavesStatus,
}
use hiro_adaptive_orchestrat.Rebalance.Settings.{Reconciler}
use hiro_adaptive_orchestrat.Rebalance.Writer.Transition.Lawful.{
  Lawful, Lawful-other, transition-Keeps,
}
use hiro_adaptive_orchestrat.Rebalance.Enact.Closed.{ClosedReads}
use hiro_adaptive_orchestrat.Rebalance.Enact.Closed.Move.{retry_pending_schedule-Closed}
use hiro_adaptive_orchestrat.Rebalance.Dispatch.Closed.{ClosedTransitions}
use hiro_adaptive_orchestrat.Rebalance.Reconcile.{reconcile}
use hiro_adaptive_orchestrat.Rebalance.Reconcile.Enactors.{enactors_of}
use hiro_adaptive_orchestrat.Rebalance.Reconcile.Closed.{
  consult_unless_cooling-Closed, reconcile_profile-Closed, reconcile-Closed,
}

module _ (r : Reconciler) (key : String) where
  abbrev K : Property
  K = Keeping (Lawful r.deps r.writer)

  other : (o : Op) → LeavesStatus o → K (Answer o) (op o)
  other o h tr lawful x = Lawful-other r.deps r.writer o x tr h lawful

  reads : ClosedReads K
  reads o h = other o (IsRead-LeavesStatus o h)

  transitions : ClosedTransitions K r key
  transitions to reason opts = transition-Keeps r.deps r.writer key to reason opts r.retries

  -- In every run of a reconcile, whatever its calls are answered, each write of a profile's status
  -- is the profile that was read last after one transition that the writer accepts.
  pub reconcile-Lawful :
      (threshold : ℤ) → Wp (reconcile r threshold key) [] (λ tr _. Lawful r.deps r.writer tr)
  reconcile-Lawful threshold =
      reconcile-Closed K (Keeping-IsClosed (Lawful r.deps r.writer)) reads r key transitions
        threshold
        (λ profile.
          reconcile_profile-Closed K (Keeping-IsClosed (Lawful r.deps r.writer)) reads r key
            transitions threshold profile
            (consult_unless_cooling-Closed K (Keeping-IsClosed (Lawful r.deps r.writer)) reads r key
              transitions threshold profile (λ req. other (Op.call_agent req) refl)
              (λ resp.
                enactors_of K (Keeping-IsClosed (Lawful r.deps r.writer)) reads r profile resp
                  (λ o h. other o (IsEnactment-LeavesStatus o h))))
            (retry_pending_schedule-Closed K (Keeping-IsClosed (Lawful r.deps r.writer)) reads
              (λ pod _. other (Op.delete_pod pod) refl) profile))
        [] tt

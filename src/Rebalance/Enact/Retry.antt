-- ===== src/Rebalance/Enact/Retry.antt =====
-- internal/rebalance/retry_enactor.go: delete the pods that wait for a node.
pub mod Count
use hiro_adaptive_orchestrat.Base.{
  ℕ, zero, suc, ◌<>◌, Bool, true, false, ◌&&◌, is_empty, if◌then◌else◌, List, [], ◌∷◌, Result, ok,
  err, wrap, failure, is_not_found,
}
use hiro_adaptive_orchestrat.Types.{ApplicationReference, OrchestrationProfile}
use hiro_adaptive_orchestrat.Cluster.{Pod, PodPhase}
use hiro_adaptive_orchestrat.Io.{Op, Prog, ret, op, ◌>>=◌}
use hiro_adaptive_orchestrat.Utils.{on_ok, find_pods_for_application, app_text}

abbrev pub is_pending : PodPhase → Bool
is_pending PodPhase.pending_phase = true
is_pending _ = false

-- The pods that are candidates: pending and on no node.
abbrev pub is_unscheduled : Pod → Bool
is_unscheduled pod = is_pending pod.phase && is_empty pod.node_name

-- A deletion that counts: it worked, or the pod was gone already.
abbrev pub after_delete : Pod → Prog (Result ℕ) → Result (Unit {0}) → Prog (Result ℕ)
after_delete pod rest (ok _) = rest
after_delete pod rest (err e) =
    if is_not_found e then rest else ret (err (wrap ("deleting pending pod " <> pod.name) e))

-- The loop over the pods, with the number deleted so far.
unfoldable pub delete_unscheduled : List Pod → ℕ → Prog (Result ℕ)
delete_unscheduled [] deleted = ret (ok deleted)
delete_unscheduled (pod ∷ pods) deleted = elim (is_unscheduled pod) [
  | false ↦ delete_unscheduled pods deleted
  | true ↦ op (Op.delete_pod pod) >>= after_delete pod (delete_unscheduled pods (suc deleted))
]

-- The check after the loop.
abbrev pub some_deleted : ApplicationReference → ℕ → Prog (Result (Unit {0}))
some_deleted ref zero =
    ret (err (failure ("no pending, unscheduled pod found to retry for " <> app_text ref)))
some_deleted ref (suc n) = ret (ok tt)

-- `retryPendingSchedule`
unfoldable pub retry_pending_schedule : OrchestrationProfile → Prog (Result (Unit {0}))
unfolding delete_unscheduled
retry_pending_schedule profile =
    find_pods_for_application profile.spec.application_ref
    >>= on_ok (wrap "finding pods to retry") (λ pods.
      delete_unscheduled pods 0 >>= on_ok (λ e. e) (some_deleted profile.spec.application_ref))

-- ===== src/Rebalance/Enact/Resource/Resize.antt =====
-- internal/rebalance/resource_enactor.go: the enactor, and the resize of running pods.
use hiro_adaptive_orchestrat.Base.{
  ℕ, ◌+◌, ◌-◌, ltb, ◌==◌, String, ◌<>◌, Bool, true, false, if◌then◌else◌, List, [], ◌∷◌, Option,
  none, some, pos, Result, ok, err, wrap, failure, Deps,
}
use hiro_adaptive_orchestrat.Types.{
  Duration, RebalanceOutcome, ApplicationReference, OrchestrationProfile,
}
use hiro_adaptive_orchestrat.Cluster.{Quantity, Container, Pod, Workload}
use hiro_adaptive_orchestrat.Io.{Op, Prog, ret, op, ◌>>=◌}
use hiro_adaptive_orchestrat.Utils.{on_ok, app_text}
use hiro_adaptive_orchestrat.Rebalance.Settings.{positive_or}
use hiro_adaptive_orchestrat.Rebalance.Enact.{EnactResult, poll, polls}
use hiro_adaptive_orchestrat.Rebalance.Enact.Scale.{is_patchable}
use hiro_adaptive_orchestrat.Rebalance.Enact.Resource.{
  default_resource_action_timeout, find_container_by_name, update_container, apply_target_resources,
  resize_rejected_reason, container_resources_converged,
}

-- The pods resized, and those attempted.
pub record Resized : Type 0 where
  pub resized : ℕ
  pub attempted : ℕ

module _ (f : Deps) (name : String) (cpu : Quantity) (memory : Quantity) where
  -- One poll: whether the resize took, once that is known.
  abbrev pub verdict : Result Pod → Option Bool
  verdict (err e) = none
  verdict (ok pod) = elim (resize_rejected_reason pod.conditions) [
    | some reason ↦ some false
    | none ↦
        if container_resources_converged name cpu memory pod.container_statuses
        then some true
        else none
  ]

  -- `awaitResizeConvergence`, of whose results the caller uses the first.
  unfoldable pub await_resize_convergence : ℕ → Pod → Prog Bool
  await_resize_convergence rounds pod =
      poll rounds (op (Op.get_pod pod.namespace pod.name) >>= λ seen. ret (verdict seen))
      >>= λ known. ret (elim known [ some took ↦ took | none ↦ false ])

  abbrev pub count_resized : Bool → Resized → Resized
  count_resized took n = record {
    resized = if took then n.resized + 1 else n.resized;
    attempted = n.attempted + 1;
  }

  -- The request for one pod, and the wait if it is accepted.
  abbrev pub resize_one : ℕ → Pod → Prog Bool
  resize_one rounds pod =
      op (
        Op.resize_pod (record pod {
          containers = update_container name (apply_target_resources cpu memory) pod.containers;
        }))
      >>= λ asked. elim asked [ ok _ ↦ await_resize_convergence rounds pod | err e ↦ ret false ]

  -- The loop over the pods, ended early when the shared time is spent.
  unfoldable pub resize_pods : ℕ → List Pod → Resized → Prog Resized
  resize_pods rounds [] n = ret n
  resize_pods rounds (pod ∷ pods) n = elim (find_container_by_name name pod.containers) [
    | none ↦ resize_pods rounds pods n
    | some c ↦ resize_one rounds pod >>= λ took. op Op.time_left >>= λ more.
        (if more
          then resize_pods rounds pods (count_resized took n)
          else ret (count_resized took n))
  ]

  -- `resizeRunningPods`
  unfoldable pub resize_running_pods :
      String → Option (List (String × String)) → Duration → Prog (Result Resized)
  resize_running_pods namespace none timeout = ret (ok (record { resized = 0; attempted = 0 }))
  resize_running_pods namespace (some selector) timeout = elim (f.as_selector selector) [
    | err e ↦ ret (err (wrap "converting selector" e))
    | ok text ↦
        op (Op.list_selected_pods namespace text)
        >>= on_ok (wrap "listing pods") (λ pods.
          resize_pods (polls timeout) pods (record { resized = 0; attempted = 0 }) >>= λ n.
          ret (ok n))
  ]

  -- What the enactor reports of the pods: it succeeds either way.
  unfoldable pub report : String → Result Resized → EnactResult
  report reason (err e) = record {
    outcome = RebalanceOutcome.enacted;
    reason = "template patched: " <> reason <> " (no running pods resized in place)";
  }
  report reason (ok n) =
      if n.attempted == 0
      then record {
        outcome = RebalanceOutcome.enacted;
        reason = "template patched: " <> reason <> " (no running pods resized in place)";
      }
      else if ltb n.resized n.attempted
      then record {
        outcome = RebalanceOutcome.enacted;
        reason =
            "template patched: "
            <> reason
            <> " (in-place resize unavailable on "
            <> f.int (pos (n.attempted - n.resized))
            <> "/"
            <> f.int (pos n.attempted)
            <> " running pods; effective on next rollout)";
      }
      else record {
        outcome = RebalanceOutcome.enacted;
        reason = "resized " <> f.int (pos n.resized) <> " running pod(s) in place: " <> reason;
      }

  module _ (ref : ApplicationReference) (reason : String) (timeout : Duration) where
    -- After the template is patched.
    abbrev pub patched : Workload → Result (Unit {0}) → Prog (Result EnactResult)
    patched w (err e) =
        ret (err (wrap ("patching " <> ref.kind <> " " <> app_text ref <> " resources") e))
    patched w (ok _) =
        resize_running_pods ref.namespace w.labels timeout >>= λ n. ret (ok (report reason n))

    abbrev pub patch : Workload → Option Container → Prog (Result EnactResult)
    patch w none = ret (
        err (
          failure
            ("container " <> f.quote name <> " not found in " <> ref.kind <> " " <> app_text ref)))
    patch w (some c) =
        op (
          Op.update_workload ref.kind ref.namespace (record w {
            containers = update_container name (apply_target_resources cpu memory) w.containers;
          }))
        >>= patched w

-- `resourceEnactor`. The branches for the two kinds differ in the object's type alone.
unfoldable pub resource_enactor :
    Deps
    → OrchestrationProfile
    → String
    → Quantity
    → Quantity
    → String
    → Duration
    → Prog (Result EnactResult)
resource_enactor f profile name cpu memory reason timeout =
    let ref = profile.spec.application_ref in
    let wait = positive_or default_resource_action_timeout timeout in
    if is_patchable ref.kind
    then (op (Op.get_workload ref.kind ref.namespace ref.name)
        >>= on_ok (wrap ("fetching " <> ref.kind <> " " <> app_text ref)) (λ w.
          patch f name cpu memory ref reason wait w (find_container_by_name name w.containers)))
    else ret (err (failure ("AdjustResources does not support workload kind " <> f.quote ref.kind)))

-- ===== src/Rebalance/Enact/Closed/Resize.antt =====
-- The resource enactor, taken apart for any property of programs that sequencing keeps.
use hiro_adaptive_orchestrat.Base.{
  refl, ℕ, Bool, false, String, if◌then◌else◌, List, [], ◌∷◌, All, Option, none, some, Result, ok,
  err, wrap, Deps,
}
use hiro_adaptive_orchestrat.Types.{Duration, OrchestrationProfile}
use hiro_adaptive_orchestrat.Cluster.{Quantity, Pod, Workload, Container}
use hiro_adaptive_orchestrat.Io.{Op, Prog, ret, op, ◌>>=◌}
use hiro_adaptive_orchestrat.Io.Closed.{Property, IsClosed, split_if, on_ok-Closed}
use hiro_adaptive_orchestrat.Utils.{on_ok}
use hiro_adaptive_orchestrat.Rebalance.Enact.{EnactResult, polls}
use hiro_adaptive_orchestrat.Rebalance.Enact.Closed.{ClosedReads, poll-Closed}
use hiro_adaptive_orchestrat.Rebalance.Enact.Scale.{is_patchable}
use hiro_adaptive_orchestrat.Rebalance.Enact.Resource.{
  find_container_by_name, update_container, apply_target_resources,
}
use hiro_adaptive_orchestrat.Rebalance.Enact.Resource.Resize.{
  Resized, await_resize_convergence, resize_pods, resize_running_pods, resource_enactor, resize_one,
  count_resized, verdict, patch,
}
use hiro_adaptive_orchestrat.Rebalance.Enact.Resource.Resize
use hiro_adaptive_orchestrat.Rebalance.Enact.Closed.Patch.{ClosedAfter, ClosedPatch, with_targets}

abbrev pub with_target_containers : String → Quantity → Quantity → Pod → Pod
with_target_containers name cpu memory pod = record pod {
  containers = update_container name (apply_target_resources cpu memory) pod.containers;
}

-- A listing of pods, and the resize of each of them, have the property.
abbrev pub ClosedListing : Property → Deps → String → Quantity → Quantity → String → Type 0
ClosedListing K f name cpu memory namespace =
    (text : String) (rounds : ℕ)
    → K (Result Resized) (
        op (Op.list_selected_pods namespace text)
        >>= on_ok (wrap "listing pods") (λ pods.
          resize_pods f name cpu memory rounds pods (record { resized = 0; attempted = 0 }) >>= λ n.
          ret (ok n)))

everywhere : (pods : List Pod) → All (λ pod. Unit {0}) pods
everywhere [] = tt
everywhere (pod ∷ pods) = (tt, everywhere pods)

module _ (K : Property) (c : IsClosed K) (reads : ClosedReads K) where
  module _ (f : Deps) (name : String) (cpu : Quantity) (memory : Quantity) (P : Pod → Type 0)
      (resize : (pod : Pod)
        → P pod
        → K
            (Result (Unit {0}))
            (op (Op.resize_pod (with_target_containers name cpu memory pod)))) where
    await_resize_convergence-Closed :
        (rounds : ℕ) (pod : Pod) → K Bool (await_resize_convergence f name cpu memory rounds pod)
    unfolding await_resize_convergence
    await_resize_convergence-Closed rounds pod =
        c.bind _ _ _ _
          (poll-Closed K c reads _ rounds _ (c.bind _ _ _ _ (reads _ refl) (λ _. c.done _ _)))
          (λ _. c.done _ _)

    asked-Closed :
        (rounds : ℕ) (pod : Pod) (asked : Result (Unit {0}))
        → K Bool (elim asked [
          | ok _ ↦ await_resize_convergence f name cpu memory rounds pod
          | err e ↦ ret false
        ])
    asked-Closed rounds pod (ok _) = await_resize_convergence-Closed rounds pod
    asked-Closed rounds pod (err e) = c.done _ _

    pod-Closed :
        (rounds : ℕ) (pod : Pod) (k : Resized → Prog Resized) (n : Resized)
        → P pod
        → ((m : Resized) → K Resized (k m))
        → (found : Option Container)
        → K Resized (elim found [
          | none ↦ k n
          | some _ ↦ resize_one f name cpu memory rounds pod >>= λ took. op Op.time_left >>= λ more.
              (if more
                then k (count_resized f name cpu memory took n)
                else ret (count_resized f name cpu memory took n))
        ])
    pod-Closed rounds pod k n is h none = h n
    pod-Closed rounds pod k n is h (some _) =
        c.bind _ _ _ _ (c.bind _ _ _ _ (resize pod is) (asked-Closed rounds pod)) (λ took.
          c.bind _ _ _ _ (reads _ refl)
            (λ more. split_if K _ more _ _ (λ _. h _) (λ _. c.done _ _)))

    -- The pods of a list are resized.
    pub resize_pods-Closed :
        (rounds : ℕ) (pods : List Pod) (n : Resized)
        → All P pods
        → K Resized (resize_pods f name cpu memory rounds pods n)
    unfolding resize_pods
    resize_pods-Closed rounds [] n all = c.done _ _
    resize_pods-Closed rounds (pod ∷ pods) n all =
        pod-Closed rounds pod (resize_pods f name cpu memory rounds pods) n (all.0)
          (λ m. resize_pods-Closed rounds pods m all.1) (find_container_by_name name pod.containers)

  -- It is enough that each resize has the property.
  pub each_resize :
      (f : Deps) (name : String) (cpu : Quantity) (memory : Quantity) (namespace : String)
      → ((pod : Pod)
          → K (Result (Unit {0})) (op (Op.resize_pod (with_target_containers name cpu memory pod))))
      → ClosedListing K f name cpu memory namespace
  each_resize f name cpu memory namespace resize text rounds = c.bind _ _ _ _ (reads _ refl) (
      on_ok-Closed K c _ _ _ _ (λ pods.
        c.bind _ _ _ _
          (resize_pods-Closed f name cpu memory (λ pod. Unit) (λ pod _. resize pod) rounds pods _
            (everywhere pods))
          (λ _. c.done _ _)))

  module _ (f : Deps) (name : String) (cpu : Quantity) (memory : Quantity)
      (profile : OrchestrationProfile)
      (listing : ClosedListing K f name cpu memory profile.spec.application_ref.namespace)
      (patching : ClosedPatch K profile.spec.application_ref (with_targets name cpu memory)) where
    selected-Closed :
        (timeout : Duration) (selected : Result String)
        → K (Result Resized) (elim selected [
          | err e ↦ ret (err (wrap "converting selector" e))
          | ok text ↦
              op (Op.list_selected_pods profile.spec.application_ref.namespace text)
              >>= on_ok (wrap "listing pods") (λ pods.
                resize_pods f name cpu memory
                  (polls timeout)
                  pods
                  (record { resized = 0; attempted = 0 })
                >>= λ n. ret (ok n))
        ])
    selected-Closed timeout (err e) = c.done _ _
    selected-Closed timeout (ok text) = listing text (polls timeout)

    resize_running_pods-Closed :
        (selector : Option (List (String × String))) (timeout : Duration)
        → K (Result Resized) (
            resize_running_pods f name cpu memory profile.spec.application_ref.namespace selector
              timeout)
    unfolding resize_running_pods
    resize_running_pods-Closed none timeout = c.done _ _
    resize_running_pods-Closed (some selector) timeout =
        selected-Closed timeout (f.as_selector selector)

    resource_patched-Closed :
        (reason : String) (timeout : Duration) (w : Workload) (res : Result (Unit {0}))
        → K
            (Result EnactResult)
            (Resize.patched f name cpu memory profile.spec.application_ref reason timeout w res)
    resource_patched-Closed reason timeout w (err e) = c.done _ _
    resource_patched-Closed reason timeout w (ok _) =
        c.bind _ _ _ _ (resize_running_pods-Closed w.labels timeout) (λ _. c.done _ _)

    patch-Closed :
        (reason : String) (timeout : Duration) (w : Workload) (found : Option Container)
        → ClosedAfter K profile.spec.application_ref
            (with_targets name cpu memory w)
            (patch f name cpu memory profile.spec.application_ref reason timeout w found)
    patch-Closed reason timeout w none = ClosedAfter.stop _
    patch-Closed reason timeout w (some _) =
        ClosedAfter.update _ (resource_patched-Closed reason timeout w)

    -- The resource enactor changes the workload and the pods as they were read, in the one
    -- container alone.
    pub resource_enactor-Closed :
        (reason : String) (timeout : Duration)
        → K (Result EnactResult) (resource_enactor f profile name cpu memory reason timeout)
    unfolding resource_enactor
    resource_enactor-Closed reason timeout =
        split_if K _ (is_patchable profile.spec.application_ref.kind) _ _
          (λ _.
            patching _ _ (λ w. patch-Closed reason _ w (find_container_by_name name w.containers)))
          (λ _. c.done _ _)

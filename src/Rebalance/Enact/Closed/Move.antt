-- ===== src/Rebalance/Enact/Closed/Move.antt =====
-- The move and retry enactors, taken apart for any property of programs that sequencing keeps.
use native.Mathlib.Omega.{arith}
use hiro_adaptive_orchestrat.Base.{
  ◌≡◌, refl, ℕ, Bool, true, false, String, ◌<>◌, str_eq, List, [], ◌∷◌, Option, none, some, Result,
  ok, err, Deps, is_not_found, failure,
}
use hiro_adaptive_orchestrat.Types.{
  Duration, ApplicationReference, OrchestrationProfile, RebalanceAction,
}
use hiro_adaptive_orchestrat.Cluster.{Pod}
use hiro_adaptive_orchestrat.Io.{Op, Prog, ret, op, ◌>>=◌}
use hiro_adaptive_orchestrat.Io.Closed.{Property, IsClosed, split_if, on_ok-Closed}
use hiro_adaptive_orchestrat.Rebalance.Enact.{EnactResult, polls}
use hiro_adaptive_orchestrat.Rebalance.Enact.Closed.{
  ClosedReads, find_pods_for_application-Closed, poll-Closed, classify_schedule_timeout-Closed,
}
use hiro_adaptive_orchestrat.Rebalance.Enact.Move.{
  find_pod_by_name, await_replacement, move_enactor, workload_key, evict_found, await_and_judge,
  evicted,
}
use hiro_adaptive_orchestrat.Rebalance.Enact.Retry.{
  is_unscheduled, delete_unscheduled, retry_pending_schedule, after_delete, some_deleted,
}

-- What is found carries the name asked for.
pub find_pod_by_name-name :
    (name : String) (pods : List Pod) (pod : Pod)
    → find_pod_by_name name pods ≡ some pod
    → str_eq pod.name name ≡ true
unfolding find_pod_by_name
find_pod_by_name-name name [] pod h = ground arith
find_pod_by_name-name name (p ∷ ps) pod h = ground (arith, find_pod_by_name-name name ps pod)

module _ (K : Property) (c : IsClosed K) (reads : ClosedReads K) where
  pub await_replacement-Closed :
      (f : Deps) (profile : OrchestrationProfile) (before : List Pod) (timeout : Duration)
      → K (Result Pod) (await_replacement f profile before timeout)
  unfolding await_replacement
  await_replacement-Closed f profile before timeout =
      c.bind _ _ _ _
        (poll-Closed K c reads _ (polls timeout) _
          (c.bind _ _ _ _ (find_pods_for_application-Closed K c reads _) (λ pods. c.done _ _)))
        go
    where
      go :
          (found : Option Pod)
          → K (Result Pod) (elim found [
            | some p ↦ ret (ok p)
            | none ↦
                ret (
                  err (failure ("no scheduled replacement observed within " <> f.duration timeout)))
          ])
      go (some p) = c.done _ _
      go none = c.done _ _

  module _ (f : Deps) (profile : OrchestrationProfile) (pod_name : String) (target_node : String)
      (reason : String) (id : String)
      (put : K (Unit {0}) (
        op (
          Op.store_put
            (workload_key profile.namespace profile.name)
            pod_name
            RebalanceAction.move
            target_node
            reason
            id)))
      (delete : K (Unit {0}) (op (Op.store_delete (workload_key profile.namespace profile.name))))
      (evict : (pod : Pod)
        → str_eq pod.name pod_name ≡ true
        → K (Result (Unit {0})) (op (Op.evict_pod pod))) where
    await_and_judge-Closed :
        (timeout : Duration) (found : Result Pod)
        → K
            (Result EnactResult)
            (await_and_judge f profile pod_name target_node reason id timeout found)
    await_and_judge-Closed timeout (ok p) = c.bind _ _ _ _ delete (λ _. c.done _ _)
    await_and_judge-Closed timeout (err e) =
        c.bind _ _ _ _ delete
          (λ _. c.bind _ _ _ _ (classify_schedule_timeout-Closed K c reads _ _) (λ _. c.done _ _))

    evicted-Closed :
        (timeout : Duration) (before : List Pod) (pod : Pod) (res : Result (Unit {0}))
        → K
            (Result EnactResult)
            (evicted f profile pod_name target_node reason id timeout before pod res)
    evicted-Closed timeout before pod (ok _) =
        c.bind _ _ _ _ (await_replacement-Closed f profile before timeout)
          (await_and_judge-Closed timeout)
    evicted-Closed timeout before pod (err e) = c.bind _ _ _ _ delete (λ _. c.done _ _)

    evict_found-Closed :
        (timeout : Duration) (before : List Pod) (found : Option Pod)
        → find_pod_by_name pod_name before ≡ found
        → K
            (Result EnactResult)
            (evict_found f profile pod_name target_node reason id timeout before found)
    evict_found-Closed timeout before none h = c.done _ _
    evict_found-Closed timeout before (some pod) h = c.bind _ _ _ _ put (λ _.
        c.bind _ _ _ _ (evict pod (find_pod_by_name-name pod_name before pod h))
          (evicted-Closed timeout before pod))

    -- The move enactor evicts only a pod of the name that it is given.
    pub move_enactor-Closed :
        (timeout : Duration)
        → K (Result EnactResult) (move_enactor f profile pod_name target_node reason id timeout)
    unfolding move_enactor
    move_enactor-Closed timeout =
        c.bind _ _ _ _ (find_pods_for_application-Closed K c reads _)
          (on_ok-Closed K c _ _ _ _ (λ before. evict_found-Closed _ before _ refl))

  module _
      (delete : (pod : Pod)
        → is_unscheduled pod ≡ true
        → K (Result (Unit {0})) (op (Op.delete_pod pod))) where
    after_delete-Closed :
        (pod : Pod) (rest : Prog (Result ℕ))
        → K (Result ℕ) rest
        → (res : Result (Unit {0})) → K (Result ℕ) (after_delete pod rest res)
    after_delete-Closed pod rest h (ok _) = h
    after_delete-Closed pod rest h (err e) =
        split_if K _ (is_not_found e) _ _ (λ _. h) (λ _. c.done _ _)

    delete_one-Closed :
        (pod : Pod) (k : ℕ → Prog (Result ℕ)) (deleted : ℕ)
        → ((n : ℕ) → K (Result ℕ) (k n))
        → (b : Bool) → is_unscheduled pod ≡ b
        → K (Result ℕ) (elim b [
          | false ↦ k deleted
          | true ↦ op (Op.delete_pod pod) >>= after_delete pod (k (ℕ.suc deleted))
        ])
    delete_one-Closed pod k deleted h false e = h deleted
    delete_one-Closed pod k deleted h true e =
        c.bind _ _ _ _ (delete pod e) (after_delete-Closed pod _ (h _))

    delete_unscheduled-Closed :
        (pods : List Pod) (deleted : ℕ) → K (Result ℕ) (delete_unscheduled pods deleted)
    unfolding delete_unscheduled
    delete_unscheduled-Closed [] deleted = c.done _ _
    delete_unscheduled-Closed (pod ∷ pods) deleted =
        delete_one-Closed pod (delete_unscheduled pods) deleted (delete_unscheduled-Closed pods) _
          refl

    some_deleted-Closed :
        (ref : ApplicationReference) (n : ℕ) → K (Result (Unit {0})) (some_deleted ref n)
    some_deleted-Closed ref ℕ.zero = c.done _ _
    some_deleted-Closed ref (ℕ.suc n) = c.done _ _

    -- The retry enactor deletes only pods that are pending and on no node.
    pub retry_pending_schedule-Closed :
        (profile : OrchestrationProfile) → K (Result (Unit {0})) (retry_pending_schedule profile)
    unfolding retry_pending_schedule
    retry_pending_schedule-Closed profile =
        c.bind _ _ _ _ (find_pods_for_application-Closed K c reads _) (
          on_ok-Closed K c _ _ _ _ (λ pods.
            c.bind _ _ _ _ (delete_unscheduled-Closed pods 0)
              (on_ok-Closed K c _ _ _ _ (some_deleted-Closed profile.spec.application_ref))))

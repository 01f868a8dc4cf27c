-- ===== src/Rebalance/Enact/Move.antt =====
-- internal/rebalance/move_enactor.go: evict a pod, with the target node left in the decision store,
-- and wait for its replacement.
pub mod Intent
pub mod Replacement
use hiro_adaptive_orchestrat.Base.{
  ◌*◌, ℕ, String, ◌<>◌, Bool, true, false, not, ◌&&◌, ◌||◌, str_eq, is_empty, if◌then◌else◌, List,
  [], ◌∷◌, Option, none, some, ℤ, pos, Result, Error, ok, err, wrap, failure, is_too_many_requests,
  Deps,
}
use hiro_adaptive_orchestrat.Types.{
  Duration, RebalanceOutcome, RebalanceAction, OrchestrationProfile,
}
use hiro_adaptive_orchestrat.Cluster.{Pod}
use hiro_adaptive_orchestrat.Io.{Op, Prog, ret, op, ◌>>=◌, ◌>>◌}
use hiro_adaptive_orchestrat.Utils.{on_ok, find_pods_for_application, app_text}
use hiro_adaptive_orchestrat.Rebalance.Settings.{positive_or, second}
use hiro_adaptive_orchestrat.Rebalance.Enact.{EnactResult, poll, polls, classify_schedule_timeout}

abbrev pub default_move_action_timeout : Duration
default_move_action_timeout = pos (60 * second)

-- `findPodByName`
unfoldable pub find_pod_by_name : String → List Pod → Option Pod
find_pod_by_name name [] = none
find_pod_by_name name (p ∷ ps) = if str_eq p.name name then some p else find_pod_by_name name ps

-- Whether a pod of that name was there: the map `beforeNames`.
unfoldable pub has_name : String → List Pod → Bool
has_name name [] = false
has_name name (p ∷ ps) = str_eq p.name name || has_name name ps

-- The first pod that is new and scheduled.
unfoldable pub first_replacement : List Pod → List Pod → Option Pod
first_replacement before [] = none
first_replacement before (p ∷ ps) =
    if has_name p.name before || is_empty p.node_name then first_replacement before ps else some p

-- One try of `awaitReplacement`. A listing that fails is tried again.
abbrev seen_replacement : List Pod → Result (List Pod) → Option Pod
seen_replacement before (ok pods) = first_replacement before pods
seen_replacement before (err e) = none

-- `WorkloadKey` of internal/placement-server/decision_store.go
abbrev pub workload_key : String → String → String
workload_key namespace name = namespace <> "/" <> name

module _ (f : Deps) (profile : OrchestrationProfile) where
  -- `awaitReplacement`
  unfoldable pub await_replacement : List Pod → Duration → Prog (Result Pod)
  await_replacement before timeout =
      poll (polls timeout) (
        find_pods_for_application profile.spec.application_ref >>= λ pods.
        ret (seen_replacement before pods))
      >>= λ found. elim found [
        | some p ↦ ret (ok p)
        | none ↦
            ret (err (failure ("no scheduled replacement observed within " <> f.duration timeout)))
      ]

  -- What the replacement's node says of the move.
  unfoldable pub judge_replacement : String → String → Pod → EnactResult
  judge_replacement target_node reason p =
      if str_eq p.node_name target_node
      then record {
        outcome = RebalanceOutcome.enacted;
        reason = "moved to " <> target_node <> ": " <> reason;
      }
      else record {
        outcome = RebalanceOutcome.failed;
        reason =
            "intent not honoured: replacement " <> p.name <> " landed on " <> p.node_name
            <> ", wanted " <> target_node;
      }

  module _ (pod_name : String) (target_node : String) (reason : String) (id : String)
      (timeout : Duration) where
    abbrev key : String
    key = workload_key profile.namespace profile.name

    -- After the eviction: the wait, with the store cleared whatever comes of it.
    abbrev pub await_and_judge : Result Pod → Prog (Result EnactResult)
    await_and_judge (err e) = do
      op (Op.store_delete key)
      classified ← classify_schedule_timeout profile e.message
      ret (ok classified)
    await_and_judge (ok p) = do
      op (Op.store_delete key)
      ret (ok (judge_replacement target_node reason p))

    abbrev refused : Pod → Error → Result EnactResult
    refused pod e =
        if is_too_many_requests e
        then ok (record {
          outcome = RebalanceOutcome.deferred;
          reason = "eviction blocked by PodDisruptionBudget: " <> e.message;
        })
        else err (wrap ("evicting pod " <> pod.name) e)

    abbrev pub evicted : List Pod → Pod → Result (Unit {0}) → Prog (Result EnactResult)
    evicted before pod (ok _) = await_replacement before timeout >>= await_and_judge
    evicted before pod (err e) = do op (Op.store_delete key); ret (refused pod e)

    -- The store entry and the eviction, once the pod is found among those listed.
    abbrev pub evict_found : List Pod → Option Pod → Prog (Result EnactResult)
    evict_found before none = ret (
        err (
          failure (
            "pod "
            <> pod_name
            <> " not found among "
            <> app_text profile.spec.application_ref
            <> "'s current pods")))
    evict_found before (some pod) = do
      op (Op.store_put key pod_name RebalanceAction.move target_node reason id)
      op (Op.evict_pod pod) >>= evicted before pod

-- `moveEnactor`
unfoldable pub move_enactor :
    Deps
    → OrchestrationProfile
    → String
    → String
    → String
    → String
    → Duration
    → Prog (Result EnactResult)
move_enactor f profile pod_name target_node reason id timeout =
    find_pods_for_application profile.spec.application_ref
    >>= on_ok (wrap "listing pods before eviction") (λ before.
      evict_found f profile pod_name target_node reason id
        (positive_or default_move_action_timeout timeout) before (find_pod_by_name pod_name before))

-- ===== src/Rebalance/Reconcile/Cycle/Results.antt =====
-- internal/rebalance: the results of the enactors of move_enactor.go, scale_enactor.go and
-- resource_enactor.go. Each states an outcome, so that the cycle can end with it.
use hiro_adaptive_orchestrat.Base.{
  ◌≡◌, refl, Bool, true, false, if◌then◌else◌, String, List, ℤ, Option, none, some, Result, ok, err,
  Error, Deps, negsuc, Bool-cases, inl, inr, arith,
}
use hiro_adaptive_orchestrat.Types.{Duration, OrchestrationProfile}
use hiro_adaptive_orchestrat.Cluster.{Quantity, Pod, Container, Workload, EnergyAwareOrchestration}
use hiro_adaptive_orchestrat.Io.{Prog, ret, call, ◌>>=◌}
use hiro_adaptive_orchestrat.Io.Stored.{Yields, Yields-bind}
use hiro_adaptive_orchestrat.Utils.{on_ok, find_pods_for_application, find_eao_for_app}
use hiro_adaptive_orchestrat.Rebalance.Writer.{is_no_outcome}
use hiro_adaptive_orchestrat.Rebalance.Settings.{positive_or}
use hiro_adaptive_orchestrat.Rebalance.Enact.{
  EnactResult, polls, explain_timeout, classify_schedule_timeout,
}
use hiro_adaptive_orchestrat.Rebalance.Enact.Move.{
  default_move_action_timeout, find_pod_by_name, await_replacement, judge_replacement,
  await_and_judge, evicted, evict_found, move_enactor,
}
use hiro_adaptive_orchestrat.Rebalance.Enact.Scale.{
  default_scale_action_timeout, is_patchable, await_ready_replicas, scaled, patched, scale_enactor,
}
use hiro_adaptive_orchestrat.Rebalance.Enact.Resource.{
  default_resource_action_timeout, find_container_by_name,
}
use hiro_adaptive_orchestrat.Rebalance.Enact.Resource.Resize
use hiro_adaptive_orchestrat.Rebalance.Enact.Resource.Resize.{
  Resized, report, patch, resize_running_pods, resource_enactor,
}

abbrev pub IsStated : EnactResult → Type 0
IsStated e = is_no_outcome e.outcome ≡ false

-- A result is an error, or states an outcome.
abbrev pub Stated : Result EnactResult → Type 0
Stated (ok e) = IsStated e
Stated (err e) = Unit

module _ {A : Type 0} where
  on_ok-Stated :
      (wrapped : Error → Error) (k : A → Prog (Result EnactResult)) (r : Result A)
      → ((a : A) → Yields Stated (k a))
      → Yields Stated (on_ok wrapped k r)
  on_ok-Stated wrapped k (ok a) h = h a
  on_ok-Stated wrapped k (err e) h = tt

if-Stated :
    (b : Bool) (m n : Prog (Result EnactResult))
    → Yields Stated m
    → Yields Stated n
    → Yields Stated (if b then m else n)
if-Stated true m n hm hn = hm
if-Stated false m n hm hn = hn

Yields-ok : (m : Prog EnactResult) → Yields IsStated m → Yields Stated (m >>= λ e. ret (ok e))
Yields-ok (ret e) h = h
Yields-ok (call o k) h = λ x. Yields-ok (k x) (h x)

explain_timeout-IsStated :
    (reason : String) (r : Result (Option EnergyAwareOrchestration))
    → IsStated (explain_timeout reason r)
unfolding explain_timeout
explain_timeout-IsStated reason r = ground arith

module _ (profile : OrchestrationProfile) where
  classify_schedule_timeout-IsStated :
      (reason : String) → Yields IsStated (classify_schedule_timeout profile reason)
  unfolding classify_schedule_timeout explain_timeout
  classify_schedule_timeout-IsStated reason =
      elim (Bool-cases profile.spec.placement.awareness.energy) [
        | inl on ↦ rw on (
            Yields-bind IsStated (find_eao_for_app profile.spec.application_ref) _
              (explain_timeout-IsStated reason))
        | inr off ↦ rw off refl
      ]

  -- The verdict on a timeout, as a result.
  classified :
      (reason : String)
      → Yields Stated (classify_schedule_timeout profile reason >>= λ e. ret (ok e))
  classified reason =
      Yields-ok (classify_schedule_timeout profile reason)
        (classify_schedule_timeout-IsStated reason)

  module _ (f : Deps) where
    module _ (pod_name target_node reason id : String) (timeout : Duration) where
      await_and_judge-Stated :
          (found : Result Pod)
          → Yields Stated (await_and_judge f profile pod_name target_node reason id timeout found)
      unfolding judge_replacement
      await_and_judge-Stated (err e) = λ x. classified e.message
      await_and_judge-Stated (ok p) = λ x. ground arith

      evicted-Stated :
          (before : List Pod) (pod : Pod) (done : Result (Unit {0}))
          → Yields Stated (evicted f profile pod_name target_node reason id timeout before pod done)
      evicted-Stated before pod (ok _) =
          Yields-bind Stated (await_replacement f profile before timeout) _ await_and_judge-Stated
      evicted-Stated before pod (err e) = λ x. ground arith

      evict_found-Stated :
          (before : List Pod) (found : Option Pod)
          → Yields Stated
              (evict_found f profile pod_name target_node reason id timeout before found)
      evict_found-Stated before none = tt
      evict_found-Stated before (some pod) = λ x. evicted-Stated before pod

    pub move_enactor-Stated :
        (pod_name target_node reason id : String) (timeout : Duration)
        → Yields Stated (move_enactor f profile pod_name target_node reason id timeout)
    unfolding move_enactor
    move_enactor-Stated pod_name target_node reason id timeout =
        Yields-bind Stated (find_pods_for_application profile.spec.application_ref) _ (λ pods.
          on_ok-Stated _ _ pods (λ before.
            evict_found-Stated pod_name target_node reason id
              (positive_or default_move_action_timeout timeout) before
              (find_pod_by_name pod_name before)))

    module _ (target : ℤ) (reason : String) where
      scaled-Stated :
          (wait : Duration) (last : Option ℤ)
          → Yields Stated (scaled f profile target reason wait last)
      scaled-Stated wait none = refl
      scaled-Stated wait (some last) = classified _

      patched-Stated :
          (wait : Duration) (done : Result (Unit {0}))
          → Yields Stated (patched f profile target reason wait done)
      patched-Stated wait (err e) = tt
      patched-Stated wait (ok _) =
          Yields-bind Stated
            (await_ready_replicas profile.spec.application_ref target (polls wait) (negsuc 0)) _
            (scaled-Stated wait)

      pub scale_enactor-Stated :
          (timeout : Duration) → Yields Stated (scale_enactor f profile target reason timeout)
      unfolding scale_enactor
      scale_enactor-Stated timeout =
          if-Stated (is_patchable profile.spec.application_ref.kind) _ _
            (λ got.
              on_ok-Stated _ _ got
                (λ w done. patched-Stated (positive_or default_scale_action_timeout timeout) done))
            tt

    module _ (name : String) (cpu memory : Quantity) (reason : String) where
      report-IsStated : (n : Result Resized) → IsStated (report f name cpu memory reason n)
      unfolding report
      report-IsStated n = ground arith

      resized-Stated :
          (wait : Duration) (w : Workload) (done : Result (Unit {0}))
          → Yields Stated
              (Resize.patched f name cpu memory profile.spec.application_ref reason wait w done)
      resized-Stated wait w (err e) = tt
      resized-Stated wait w (ok _) =
          Yields-bind Stated
            (resize_running_pods f name cpu memory profile.spec.application_ref.namespace w.labels
              wait)
            _ report-IsStated

      patch-Stated :
          (wait : Duration) (w : Workload) (found : Option Container)
          → Yields Stated (patch f name cpu memory profile.spec.application_ref reason wait w found)
      patch-Stated wait w none = tt
      patch-Stated wait w (some c) = resized-Stated wait w

      pub resource_enactor-Stated :
          (timeout : Duration)
          → Yields Stated (resource_enactor f profile name cpu memory reason timeout)
      unfolding resource_enactor
      resource_enactor-Stated timeout =
          if-Stated (is_patchable profile.spec.application_ref.kind) _ _
            (λ got. on_ok-Stated _ _ got (λ w.
              patch-Stated (positive_or default_resource_action_timeout timeout) w
                (find_container_by_name name w.containers)))
            tt

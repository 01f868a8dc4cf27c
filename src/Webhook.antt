-- ===== src/Webhook.antt =====
-- internal/webhook/v1/pod_webhook.go: the defaulting of a pod's scheduler on its creation.
use hiro_adaptive_orchestrat.Base.{
  ◌≡◌, refl, ◌∙◌, String, str_eq, eq_iff, Bool, true, false, not, if◌then◌else◌, Option, none, some,
  Result, ok, err, Deps,
}
use hiro_adaptive_orchestrat.Types.{OrchestrationProfile}
use hiro_adaptive_orchestrat.Cluster.{Pod}
use hiro_adaptive_orchestrat.Io.{Prog, ret, ◌>>=◌}
use hiro_adaptive_orchestrat.Io.World.{World, run, run-bind}
use hiro_adaptive_orchestrat.Placement.Builder.{find_profile_for_pod}
use hiro_adaptive_orchestrat.Placement.Builder.Panics.{is_governed}

-- `PodCustomDefaulter`; its builder may be nil.
pub record PodCustomDefaulter : Type 0 where
  pub has_builder : Bool
  pub scheduler_name : String

module _ (d : Deps) (c : PodCustomDefaulter) where
  -- What a lookup leads to: an error leaves the pod as it is.
  abbrev pub assign : Pod → Result (Option OrchestrationProfile) → Pod
  assign pod (err e) = pod
  assign pod (ok none) = pod
  assign pod (ok (some profile)) = record pod { scheduler_name = c.scheduler_name }

  -- `Default`, which never fails: the pod after it.
  unfoldable pub default_pod : Pod → Prog Pod
  default_pod pod =
      if not c.has_builder
      then ret pod
      else if str_eq pod.scheduler_name c.scheduler_name
      then ret pod
      else find_profile_for_pod d pod >>= (λ found. ret (assign pod found))

  -- Whether the webhook gives the pod its scheduler.
  abbrev pub scheduled : Pod → Bool → Pod
  scheduled pod governed =
      if governed then record pod { scheduler_name = c.scheduler_name } else pod

  assigned :
      (pod : Pod) (found : Result (Option OrchestrationProfile))
      → assign pod found ≡ scheduled pod (is_governed found)
  assigned pod (err e) = refl
  assigned pod (ok none) = refl
  assigned pod (ok (some profile)) = refl

  already :
      (pod : Pod) (governed : Bool)
      → pod.scheduler_name ≡ c.scheduler_name
      → pod ≡ scheduled pod governed
  already pod true h = rw (← h) refl
  already pod false h = refl

  module _ (w : World) (pod : Pod) where
    defaulted :
        (same : Bool)
        → str_eq pod.scheduler_name c.scheduler_name ≡ same
        → run w (
            if same
            then ret pod
            else find_profile_for_pod d pod >>= (λ found. ret (assign pod found)))
          ≡ scheduled pod (is_governed (run w (find_profile_for_pod d pod)))
    defaulted true h = already pod _ ((eq_iff pod.scheduler_name c.scheduler_name).0 h)
    defaulted false h =
        run-bind w (find_profile_for_pod d pod) (λ found. ret (assign pod found)) ∙ assigned pod _

    -- In a world that answers each call in one way, where the webhook has a builder: the pod after it
    -- has the configured scheduler if a profile is found for the pod, and is as it was otherwise, a
    -- lookup that fails included; nothing but the scheduler's name is changed.
    pub default_pod-scheduled :
        c.has_builder ≡ true
        → run w (default_pod pod) ≡ scheduled pod (is_governed (run w (find_profile_for_pod d pod)))
    unfolding default_pod
    default_pod-scheduled h = rw h (defaulted _ refl)

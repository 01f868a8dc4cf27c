-- ===== src/Tests/Outer.antt =====
-- The theorems on the controller of profiles, the webhook, the wake-ups of the engine and the plugin
-- of the scheduler, at concrete data.
use hiro_adaptive_orchestrat.Base.{
  ◌≡◌, refl, not, ◌&&◌, true, false, String, List, [], ◌∷◌, none, some, ℤ, pos, ok,
}
use hiro_adaptive_orchestrat.Io.{Op}
use hiro_adaptive_orchestrat.Io.Wp.{Wp}
use hiro_adaptive_orchestrat.Io.World.{World, run}
use hiro_adaptive_orchestrat.Types.{watching}
use hiro_adaptive_orchestrat.Utils.{resolve_app_from_pod}
use hiro_adaptive_orchestrat.Placement.Builder.{find_profile_for_pod}
use hiro_adaptive_orchestrat.Placement.Builder.Panics.{is_governed}
use hiro_adaptive_orchestrat.Controller.Validation.{FieldError}
use hiro_adaptive_orchestrat.Controller.Reconcile.{reconcile_found}
use hiro_adaptive_orchestrat.Controller.Reconcile.Writes.{Written, reconcile_found-Written}
use hiro_adaptive_orchestrat.Webhook.{
  PodCustomDefaulter, default_pod, scheduled, default_pod-scheduled,
}
use hiro_adaptive_orchestrat.Rebalance.Wakeups.{
  pod_mapper, indexed_under, woken_by_app, pod_mapper-woken,
}
use hiro_adaptive_orchestrat.Plugin.{PlacementClient, CycleState, pre_filter, pre_score}
use hiro_adaptive_orchestrat.Plugin.FailOpen.{
  verdict_against, served, is_blocked, Scored, pre_filter-Justified, pre_score-Scored,
}
use hiro_adaptive_orchestrat.Rebalance.Reconcile.{reconcile_profile}
use hiro_adaptive_orchestrat.Rebalance.Reconcile.Recovery.{written, reconcile_profile-recovers}
use hiro_adaptive_orchestrat.Tests.Data.{deps, profile, engine, flying}
use hiro_adaptive_orchestrat.Tests.Controller.{group_version_error, balanced}
use hiro_adaptive_orchestrat.Tests.Server.{world, job_pod, node}

abbrev aggregate : List FieldError → String
aggregate errors = "invalid"

reconcile_found-Written_example :
    Wp (reconcile_found deps group_version_error aggregate balanced) [] (Written balanced)
reconcile_found-Written_example =
    reconcile_found-Written balanced deps group_version_error aggregate

abbrev defaulter : PodCustomDefaulter
defaulter = record { has_builder = true; scheduler_name = "hiro-scheduler" }

default_pod-scheduled_example :
    run world (default_pod deps defaulter job_pod)
    ≡ scheduled deps defaulter job_pod (is_governed (run world (find_profile_for_pod deps job_pod)))
default_pod-scheduled_example = default_pod-scheduled deps defaulter world job_pod refl

-- A world whose index has the profile.
abbrev indexed_world : World
indexed_world (Op.list_indexed_profiles key) = ok (indexed_under key (profile ∷ []))
indexed_world o = world o

pod_mapper-woken_example :
    run indexed_world (pod_mapper job_pod)
    ≡ woken_by_app (run indexed_world (resolve_app_from_pod job_pod)) (profile ∷ [])
pod_mapper-woken_example = pod_mapper-woken indexed_world (profile ∷ []) (λ key. refl) job_pod

woken : woken_by_app (run indexed_world (resolve_app_from_pod job_pod)) (profile ∷ []) ≡ "shop" ∷ []
unfolding resolve_app_from_pod
woken = refl

abbrev client : PlacementClient
client = record {
  server_url = "http://server";
  score_path = "/score";
  filter_path = "/filter";
  timeout = pos 8000000000;
}

abbrev cycle : CycleState
cycle = record { gate = none; scores = none }

abbrev as_int64 : ℤ → ℤ
as_int64 x = x

pre_filter-Justified_example : Wp (pre_filter deps as_int64 client cycle job_pod) [] (λ past state'.
    ((is_blocked deps as_int64 client state' && not (verdict_against past && served past)) ≡ false)
    × (state'.scores ≡ none))
pre_filter-Justified_example = pre_filter-Justified deps as_int64 client cycle job_pod

pre_score-Scored_example :
    Wp
      (pre_score deps as_int64 client cycle job_pod (some (node "green") ∷ none ∷ []))
      []
      (λ past state'. Scored deps as_int64 client past state' × (state'.gate ≡ none))
pre_score-Scored_example =
    pre_score-Scored deps as_int64 client cycle job_pod (some (node "green") ∷ none ∷ [])

-- A world in which the clock is late, the profile is in flight, and writes are accepted.
abbrev late_world : World
late_world Op.now = 2000000000000
late_world (Op.read_profile name) = ok flying
late_world (Op.update_status q) = ok q
late_world o = world o

reconcile_profile-recovers_example :
    written late_world (reconcile_profile engine (pos 9) "shop" flying) ≡ watching ∷ []
reconcile_profile-recovers_example =
    reconcile_profile-recovers late_world engine (pos 9) "shop" flying (λ q. q) (λ q. refl) flying
      refl refl refl refl refl refl

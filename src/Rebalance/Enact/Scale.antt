-- ===== src/Rebalance/Enact/Scale.antt =====
-- internal/rebalance/scale_enactor.go: set a workload's replica count and wait for as many ready
-- replicas, and the bounds for it.
use hiro_adaptive_orchestrat.Base.{
  ◌*◌, ℕ, String, ◌<>◌, Bool, false, not, ◌&&◌, ◌||◌, str_eq, is_empty, if◌then◌else◌, List, [],
  ◌∷◌, Option, none, some, ℤ, pos, negsuc, leb_ℤ, Result, ok, err, wrap, failure, Deps,
}
use hiro_adaptive_orchestrat.Types.{
  Duration, RebalanceOutcome, ApplicationReference, OrchestrationProfile,
}
use hiro_adaptive_orchestrat.Cluster.{Workload, Autoscaler, OwnerReference}
use hiro_adaptive_orchestrat.Io.{Op, Prog, ret, op, ◌>>=◌}
use hiro_adaptive_orchestrat.Utils.{on_ok, app_text}
use hiro_adaptive_orchestrat.Rebalance.Settings.{
  positive_or, second, default_min_replicas, default_max_replicas,
}
use hiro_adaptive_orchestrat.Rebalance.Enact.{EnactResult, polls, classify_schedule_timeout}

abbrev pub default_scale_action_timeout : Duration
default_scale_action_timeout = pos (60 * second)

-- The two kinds that the enactors know how to patch.
abbrev pub is_patchable : String → Bool
is_patchable kind = str_eq kind "Deployment" || str_eq kind "StatefulSet"

-- `KEDAManaged` is a found owner.
pub record ReplicaBounds : Type 0 where
  pub min : ℤ
  pub max : ℤ
  pub source : String
  pub keda_managed : Bool
  pub keda_owner : String

-- `kedaScaledObjectOwner`
unfoldable pub keda_scaled_object_owner : List OwnerReference → String
keda_scaled_object_owner [] = ""
keda_scaled_object_owner (o ∷ os) =
    if str_eq o.kind "ScaledObject" && str_eq o.api_version "keda.sh/v1alpha1"
    then o.name
    else keda_scaled_object_owner os

abbrev pub targets : ApplicationReference → Autoscaler → Bool
targets ref hpa = str_eq hpa.target_kind ref.kind && str_eq hpa.target_name ref.name

-- The bounds that an autoscaler states: at least 1 where it states no minimum.
unfoldable pub autoscaler_bounds : Autoscaler → ReplicaBounds
autoscaler_bounds hpa =
    let owner = keda_scaled_object_owner hpa.owner_references in
    record {
      min = elim (hpa.min_replicas) [ some lo ↦ lo | none ↦ pos 1 ];
      max = hpa.max_replicas;
      source = "HorizontalPodAutoscaler " <> hpa.name;
      keda_managed = not (is_empty owner);
      keda_owner = owner;
    }

-- The first autoscaler that targets the workload, or the fallback.
unfoldable pub bounds_among : ApplicationReference → ReplicaBounds → List Autoscaler → ReplicaBounds
bounds_among ref fallback [] = fallback
bounds_among ref fallback (hpa ∷ hpas) =
    if targets ref hpa then autoscaler_bounds hpa else bounds_among ref fallback hpas

unfoldable pub fallback_bounds : ℤ → ℤ → ReplicaBounds
fallback_bounds fallback_min fallback_max = record {
  min = positive_or default_min_replicas fallback_min;
  max = positive_or default_max_replicas fallback_max;
  source = "default bounds";
  keda_managed = false;
  keda_owner = "";
}

abbrev pub bounds_of_list :
    ApplicationReference → ReplicaBounds → Result (List Autoscaler) → ReplicaBounds
bounds_of_list ref fallback (ok hpas) = bounds_among ref fallback hpas
bounds_of_list ref fallback (err e) = fallback

-- `resolveReplicaBounds`
unfoldable pub resolve_replica_bounds : OrchestrationProfile → ℤ → ℤ → Prog ReplicaBounds
resolve_replica_bounds profile fallback_min fallback_max =
    op (Op.list_autoscalers profile.spec.application_ref.namespace) >>= λ listed.
    ret (
      bounds_of_list profile.spec.application_ref (fallback_bounds fallback_min fallback_max)
        listed)

-- One poll: the ready replicas seen, kept for the message.
abbrev pub is_target : ℤ → Result Workload → Option (Unit {0})
is_target target (ok w) =
    if leb_ℤ w.ready_replicas target && leb_ℤ target w.ready_replicas then some tt else none
is_target target (err e) = none

abbrev pub seen : ℤ → Result Workload → ℤ
seen last (ok w) = w.ready_replicas
seen last (err e) = last

-- `awaitReadyReplicas`: the last count seen if the time runs out.
unfoldable pub await_ready_replicas : ApplicationReference → ℤ → ℕ → ℤ → Prog (Option ℤ)
await_ready_replicas ref target ℕ.zero last = do
  w ← op (Op.get_workload ref.kind ref.namespace ref.name)
  ret (elim (is_target target w) [ some _ ↦ none | none ↦ some (seen last w) ])
await_ready_replicas ref target (ℕ.suc n) last =
    op (Op.get_workload ref.kind ref.namespace ref.name) >>= λ w. elim (is_target target w) [
      | some _ ↦ ret none
      | none ↦ op Op.time_left >>= λ more.
          (if more
            then await_ready_replicas ref target n (seen last w)
            else ret (some (seen last w)))
    ]

module _ (f : Deps) (profile : OrchestrationProfile) (target : ℤ) (reason : String)
    (timeout : Duration) where
  abbrev ref : ApplicationReference
  ref = profile.spec.application_ref

  -- The end of the wait.
  abbrev pub scaled : Option ℤ → Prog (Result EnactResult)
  scaled none = ret (
      ok (record {
        outcome = RebalanceOutcome.enacted;
        reason = "scaled to " <> f.int target <> " replicas: " <> reason;
      }))
  scaled (some last) =
      classify_schedule_timeout profile (
        "timed out waiting for "
        <> f.int target
        <> " ready replicas (last observed "
        <> f.int last
        <> ") within "
        <> f.duration timeout)
      >>= λ classified. ret (ok classified)

  -- The wait after the patch.
  abbrev pub patched : Result (Unit {0}) → Prog (Result EnactResult)
  patched (err e) = ret (
      err (
        wrap
          ("patching " <> ref.kind <> " " <> app_text ref <> " to " <> f.int target <> " replicas")
          e))
  patched (ok _) = await_ready_replicas ref target (polls timeout) (negsuc 0) >>= scaled

-- `scaleEnactor`. The branches for the two kinds differ in the object's type alone.
unfoldable pub scale_enactor :
    Deps → OrchestrationProfile → ℤ → String → Duration → Prog (Result EnactResult)
scale_enactor f profile target reason timeout =
    let ref = profile.spec.application_ref in
    let wait = positive_or default_scale_action_timeout timeout in
    if is_patchable ref.kind
    then (op (Op.get_workload ref.kind ref.namespace ref.name)
        >>= on_ok (wrap ("fetching " <> ref.kind <> " " <> app_text ref)) (λ w.
          op (Op.update_workload ref.kind ref.namespace (record w { replicas = some target }))
          >>= patched f profile target reason wait))
    else ret (err (failure ("AdjustReplicas does not support workload kind " <> f.quote ref.kind)))

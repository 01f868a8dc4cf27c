-- ===== src/Controller/Status.antt =====
-- internal/controller/op_status.go: the placement status of a profile from the pods observed.
use native.Mathlib.Omega.{arith}
use hiro_adaptive_orchestrat.Base.{
  ℕ, suc, ◌+◌, ◌≤◌, ◌≡◌, refl, ◌↔◌, ltb, ◌==◌, String, str_eq, is_empty, Bool, true, false, not,
  ◌&&◌, ◌||◌, List, [], ◌∷◌, length, if◌then◌else◌,
}
use hiro_adaptive_orchestrat.Types.{
  PodStatus, PlacementStatus, ProfileStatusType, no_pods, partial, active, pending, degraded,
  OrchestrationProfile,
}
use hiro_adaptive_orchestrat.Cluster.{Pod, PodPhase, Condition}

-- `isPodReady`
unfoldable pub has_ready_condition : List Condition → Bool
has_ready_condition [] = false
has_ready_condition (c ∷ cs) =
    (str_eq c.type "Ready" && str_eq c.status "True") || has_ready_condition cs

-- The message of the first condition that says why a pod is not scheduled.
unfoldable pub unscheduled_message : String → List Condition → String
unscheduled_message default [] = default
unscheduled_message default (c ∷ cs) =
    if str_eq c.type "PodScheduled" && (str_eq c.status "False" && not (is_empty c.message))
    then c.message
    else unscheduled_message default cs

-- The reason that is shown for a pod, by its phase.
abbrev pub shown_reason : Pod → PodPhase → String
shown_reason pod PodPhase.pending_phase = unscheduled_message pod.reason pod.conditions
shown_reason pod PodPhase.failed_phase = if is_empty pod.message then pod.reason else pod.message
shown_reason pod _ = pod.reason

unfoldable pub pod_status : Pod → PodStatus
pod_status pod = record {
  id = pod.uid;
  name = pod.name;
  namespace = pod.namespace;
  node_name = pod.node_name;
  status = pod.phase_text;
  reason = shown_reason pod pod.phase;
}

pub record Counts : Type 0 where
  pub ready : ℕ
  pub pending : ℕ
  pub failed : ℕ
  pub pod_statuses : List PodStatus

-- One round of the loop, by the pod's phase.
abbrev pub count_pod : Pod → PodPhase → Counts → Counts
count_pod pod PodPhase.running_phase n =
    if has_ready_condition pod.conditions then record n { ready = n.ready + 1 } else n
count_pod pod PodPhase.pending_phase n = record n { pending = n.pending + 1 }
count_pod pod PodPhase.failed_phase n = record n { failed = n.failed + 1 }
count_pod pod _ n = n

abbrev pub add_status : PodStatus → Counts → Counts
add_status s n = record n { pod_statuses = s ∷ n.pod_statuses }

-- `fetchPodStatuses`: the statuses are in the order of the pods.
unfoldable pub fetch_pod_statuses : List Pod → Counts
unfolding pod_status
fetch_pod_statuses [] = record { ready = 0; pending = 0; failed = 0; pod_statuses = [] }
fetch_pod_statuses (pod ∷ pods) =
    add_status (pod_status pod) (count_pod pod pod.phase (fetch_pod_statuses pods))

-- `buildPlacementStatus`
unfoldable pub build_placement_status : OrchestrationProfile → List Pod → PlacementStatus
unfolding fetch_pod_statuses
build_placement_status profile pods =
    let n = fetch_pod_statuses pods in
    record {
      strategy = profile.spec.placement.strategy;
      observed_pods = length pods;
      ready_pods = n.ready;
      pending_pods = n.pending;
      failed_pods = n.failed;
      pod_statuses = n.pod_statuses;
    }

-- `deriveProfileStatus`
unfoldable pub derive_profile_status : ℕ → ℕ → ℕ → ℕ → ProfileStatusType
derive_profile_status total running failed waiting =
    if total == 0
    then no_pods
    else if ltb 0 failed && (running == 0)
    then degraded
    else if ltb 0 failed || (ltb 0 waiting && ltb 0 running)
    then partial
    else if ltb 0 waiting && (running == 0)
    then pending
    else if running == total
    then active
    else partial

-- The status of a profile for the pods observed.
abbrev pub status_of : OrchestrationProfile → List Pod → ProfileStatusType
status_of profile pods =
    let s = build_placement_status profile pods in
    derive_profile_status s.observed_pods s.ready_pods s.failed_pods s.pending_pods

-- A pod that runs and is ready.
abbrev pub is_up : Pod → PodPhase → Bool
is_up pod PodPhase.running_phase = has_ready_condition pod.conditions
is_up pod _ = false

abbrev pub all_up : List Pod → Bool
all_up [] = true
all_up (pod ∷ pods) = is_up pod pod.phase && all_up pods

count_pod-Fits :
    (pod : Pod) (phase : PodPhase) (pods : List Pod) (n : Counts) (up : Bool)
    → (n.ready + n.pending) + n.failed ≤ length pods
    → length n.pod_statuses ≡ length pods
    → (n.ready == length pods) ≡ up
    → let m = add_status (pod_status pod) (count_pod pod phase n) in
      ((m.ready + m.pending) + m.failed ≤ suc (length pods))
      × ((length m.pod_statuses ≡ suc (length pods))
          × ((m.ready == suc (length pods)) ≡ (is_up pod phase && up)))
count_pod-Fits pod phase pods n up h1 h2 h3 = (ground arith, (ground arith, ground arith))

-- The counts of pods that are ready, pending and failed are together at most the pods observed, each
-- pod has its status, and all are counted as ready exactly if each of them runs and is ready.
pub fetch_pod_statuses-Fits :
    (pods : List Pod)
    → let n = fetch_pod_statuses pods in
      ((n.ready + n.pending) + n.failed ≤ length pods)
      × ((length n.pod_statuses ≡ length pods) × ((n.ready == length pods) ≡ all_up pods))
unfolding fetch_pod_statuses
fetch_pod_statuses-Fits [] = (ground arith, (refl, refl))
fetch_pod_statuses-Fits (pod ∷ pods) =
    let h = fetch_pod_statuses-Fits pods in
    count_pod-Fits pod pod.phase pods (fetch_pod_statuses pods) (all_up pods) h.0 h.1.0 h.1.1

-- What the status derived from counts says, for counts that are together at most the total.
derived :
    (total running failed waiting : ℕ) (up : Bool)
    → (running + waiting) + failed ≤ total
    → (running == total) ≡ up
    → ((derive_profile_status total running failed waiting ≡ active) ↔ ((ltb 0 total && up) ≡ true))
      × ((derive_profile_status total running failed waiting ≡ no_pods) ↔ (total ≡ 0))
unfolding derive_profile_status
derived total running failed waiting up h e =
    ((λ a. ground arith, λ a. ground arith), (λ a. ground arith, λ a. ground arith))

-- The status that the controller computes from the pods of a profile is Active exactly if there are
-- pods and each of them runs and is ready, and NoPods exactly if there are none.
pub status_of-active :
    (profile : OrchestrationProfile) (pods : List Pod)
    → ((status_of profile pods ≡ active) ↔ ((ltb 0 (length pods) && all_up pods) ≡ true))
      × ((status_of profile pods ≡ no_pods) ↔ (length pods ≡ 0))
unfolding build_placement_status
status_of-active profile pods =
    let h = fetch_pod_statuses-Fits pods in derived _ _ _ _ (all_up pods) h.0 h.1.1

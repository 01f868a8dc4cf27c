-- ===== src/Rebalance/Enact/Resource.antt =====
-- internal/rebalance/resource_enactor.go: set a container's CPU and memory in the workload's template
-- and, as far as it goes, in its running pods.
pub mod Bounds
pub mod Converge
pub mod Resize
use hiro_adaptive_orchestrat.Base.{
  ◌*◌, ℕ, zero, suc, ◌+◌, ◌-◌, ltb, ◌==◌, String, ◌<>◌, Bool, true, false, not, ◌&&◌, ◌||◌, str_eq,
  is_empty, if◌then◌else◌, List, [], ◌∷◌, Option, none, some, ℤ, pos, negsuc, leb_ℤ, ltb_ℤ, Result,
  Error, ok, err, wrap, failure, Deps,
}
use hiro_adaptive_orchestrat.Types.{
  Duration, RebalanceOutcome, ApplicationReference, OrchestrationProfile,
}
use hiro_adaptive_orchestrat.Cluster.{
  Quantity, ResourceList, Container, ContainerStatus, Condition, Pod, Workload,
}
use hiro_adaptive_orchestrat.Io.{Op, Prog, ret, op, ◌>>=◌, ◌>>◌}
use hiro_adaptive_orchestrat.Utils.{on_ok, app_text}
use hiro_adaptive_orchestrat.Rebalance.Settings.{positive_or, second}
use hiro_adaptive_orchestrat.Rebalance.Enact.{EnactResult, poll, polls}
use hiro_adaptive_orchestrat.Rebalance.Enact.Scale.{is_patchable}

abbrev pub default_resource_action_timeout : Duration
default_resource_action_timeout = pos (60 * second)

-- `Quantity.IsZero`, and `Cmp(b) == 0`
abbrev pub is_zero : Quantity → Bool
is_zero q = leb_ℤ q (pos 0) && leb_ℤ (pos 0) q

abbrev pub same_quantity : Quantity → Quantity → Bool
same_quantity a b = leb_ℤ a b && leb_ℤ b a

-- `findContainerByName`
unfoldable pub find_container_by_name : String → List Container → Option Container
find_container_by_name name [] = none
find_container_by_name name (c ∷ cs) =
    if str_eq c.name name then some c else find_container_by_name name cs

abbrev is_some {ℓ} : {A : Type ℓ} → Option A → Bool
is_some (some a) = true
is_some none = false

-- `hasCPUOrMemory`
unfoldable pub has_cpu_or_memory : Option ResourceList → Bool
has_cpu_or_memory none = false
has_cpu_or_memory (some list) = is_some list.cpu || is_some list.memory

pub record ResourceState : Type 0 where
  pub found : Bool
  pub has_existing_limits : Bool

unfoldable pub state_of : Option Container → ResourceState
state_of none = record { found = false; has_existing_limits = false }
state_of (some c) = record {
  found = true;
  has_existing_limits = has_cpu_or_memory c.requests || has_cpu_or_memory c.limits;
}

-- `resolveResourceState`, with `fetchPodTemplateContainers`.
unfoldable pub resolve_resource_state :
    Deps → OrchestrationProfile → String → Prog (Result ResourceState)
unfolding state_of
resolve_resource_state f profile name =
    let ref = profile.spec.application_ref in
    if is_patchable ref.kind
    then (op (Op.get_workload ref.kind ref.namespace ref.name)
        >>= on_ok (wrap ("fetching " <> ref.kind <> " " <> app_text ref))
            (λ w. ret (ok (state_of (find_container_by_name name w.containers)))))
    else ret (err (failure ("AdjustResources does not support workload kind " <> f.quote ref.kind)))

-- The entry of a list after the target is put in, unless the target is zero.
abbrev pub put_target : Quantity → Option Quantity → Option Quantity
put_target target old = if is_zero target then old else some target

abbrev pub or_empty : Option ResourceList → ResourceList
or_empty (some list) = list
or_empty none = record { cpu = none; memory = none }

abbrev pub put_targets : Quantity → Quantity → ResourceList → ResourceList
put_targets cpu memory list = record {
  cpu = put_target cpu list.cpu;
  memory = put_target memory list.memory;
}

-- `applyTargetResources`
unfoldable pub apply_target_resources : Quantity → Quantity → Container → Container
apply_target_resources cpu memory c = record c {
  requests = some (put_targets cpu memory (or_empty c.requests));
  limits = some (put_targets cpu memory (or_empty c.limits));
}

-- The first container of the name changed, as the pointer of `findContainerByName` changes it.
unfoldable pub update_container : String → (Container → Container) → List Container → List Container
update_container name change [] = []
update_container name change (c ∷ cs) =
    if str_eq c.name name then change c ∷ cs else c ∷ update_container name change cs

-- `resizeRejectedReason`: the message of the first condition that rejects.
unfoldable pub resize_rejected_reason : List Condition → Option String
resize_rejected_reason [] = none
resize_rejected_reason (c ∷ cs) =
    if (str_eq c.type "PodResizePending" && str_eq c.reason "Infeasible")
      || (str_eq c.type "PodResizeInProgress" && str_eq c.reason "Error")
    then some c.message
    else resize_rejected_reason cs

-- Whether an entry shows the target; a target of zero asks for nothing.
abbrev pub shows : Quantity → Option Quantity → Bool
shows target (some cur) = is_zero target || same_quantity cur target
shows target none = is_zero target

-- `containerResourcesConverged`
unfoldable pub container_resources_converged :
    String → Quantity → Quantity → List ContainerStatus → Bool
container_resources_converged name cpu memory [] = false
container_resources_converged name cpu memory (cs ∷ rest) =
    let later = container_resources_converged name cpu memory rest in
    if str_eq cs.name name
    then elim (cs.resources) [
      | some requests ↦ shows cpu requests.cpu && shows memory requests.memory
      | none ↦ later
    ]
    else later

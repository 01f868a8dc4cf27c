-- ===== src/Rebalance/Enact/Closed/Patch.antt =====
-- The updates of workloads and the scale enactor, taken apart for any property of programs that
-- sequencing keeps.
use hiro_adaptive_orchestrat.Base.{
  refl, ℕ, zero, suc, String, ℤ, if◌then◌else◌, Option, none, some, Result, Error, ok, err, Deps,
}
use hiro_adaptive_orchestrat.Types.{Duration, ApplicationReference, OrchestrationProfile}
use hiro_adaptive_orchestrat.Cluster.{Quantity, Workload}
use hiro_adaptive_orchestrat.Io.{Op, Prog, ret, op, ◌>>=◌}
use hiro_adaptive_orchestrat.Io.Closed.{Property, IsClosed, split_if, on_ok-Closed}
use hiro_adaptive_orchestrat.Utils.{on_ok}
use hiro_adaptive_orchestrat.Rebalance.Enact.{EnactResult}
use hiro_adaptive_orchestrat.Rebalance.Enact.Closed.{ClosedReads, classify_schedule_timeout-Closed}
use hiro_adaptive_orchestrat.Rebalance.Enact.Scale.{
  ReplicaBounds, is_patchable, resolve_replica_bounds, await_ready_replicas, seen, is_target,
  scaled, scale_enactor,
}
use hiro_adaptive_orchestrat.Rebalance.Enact.Scale
use hiro_adaptive_orchestrat.Rebalance.Enact.Resource.{
  ResourceState, resolve_resource_state, update_container, apply_target_resources,
}

-- What an enactor does with a workload that it has read: nothing, or an update first of all.
pub data ClosedAfter (K : Property) (ref : ApplicationReference) (w : Workload)
    : Prog (Result EnactResult) → Type 0 where
  stop : (a : Result EnactResult) → ClosedAfter K ref w (ret a)
  update :
      (k : Result (Unit {0}) → Prog (Result EnactResult))
      → ((res : Result (Unit {0})) → K (Result EnactResult) (k res))
      → ClosedAfter K ref w (op (Op.update_workload ref.kind ref.namespace w) >>= k)

-- A read of the referenced workload, and an update of it with this change, have the property.
abbrev pub ClosedPatch : Property → ApplicationReference → (Workload → Workload) → Type 0
ClosedPatch K ref change =
    (wrapped : Error → Error) (k : Workload → Prog (Result EnactResult))
    → ((w : Workload) → ClosedAfter K ref (change w) (k w))
    → K (Result EnactResult)
        (op (Op.get_workload ref.kind ref.namespace ref.name) >>= on_ok wrapped k)

module _ (K : Property) (c : IsClosed K) where
  after-Closed :
      (ref : ApplicationReference) (w : Workload) (m : Prog (Result EnactResult))
      → K (Result (Unit {0})) (op (Op.update_workload ref.kind ref.namespace w))
      → ClosedAfter K ref w m
      → K (Result EnactResult) m
  after-Closed ref w m u (ClosedAfter.stop a) = c.done _ a
  after-Closed ref w m u (ClosedAfter.update k h) = c.bind _ _ _ k u h

  -- It is enough that each update has it.
  pub each_update :
      (reads : ClosedReads K) (ref : ApplicationReference) (change : Workload → Workload)
      → ((w : Workload)
          → K (Result (Unit {0})) (op (Op.update_workload ref.kind ref.namespace (change w))))
      → ClosedPatch K ref change
  each_update reads ref change u wrapped k h =
      c.bind _ _ _ _ (reads _ refl)
        (on_ok-Closed K c _ _ wrapped k (λ w. after-Closed ref (change w) (k w) (u w) (h w)))

abbrev pub with_replicas : ℤ → Workload → Workload
with_replicas target w = record w { replicas = some target }

abbrev pub with_targets : String → Quantity → Quantity → Workload → Workload
with_targets name cpu memory w = record w {
  containers = update_container name (apply_target_resources cpu memory) w.containers;
}

module _ (K : Property) (c : IsClosed K) (reads : ClosedReads K) where
  pub resolve_replica_bounds-Closed :
      (profile : OrchestrationProfile) (lo : ℤ) (hi : ℤ)
      → K ReplicaBounds (resolve_replica_bounds profile lo hi)
  unfolding resolve_replica_bounds
  resolve_replica_bounds-Closed profile lo hi = c.bind _ _ _ _ (reads _ refl) (λ _. c.done _ _)

  ready_round-Closed :
      (ref : ApplicationReference) (target : ℤ) (last : ℤ) (rest : Prog (Option ℤ))
      → K (Option ℤ) rest
      → (found : Option (Unit {0}))
      → K (Option ℤ) (elim found [
        | some _ ↦ ret none
        | none ↦ op Op.time_left >>= λ more. if more then rest else ret (some last)
      ])
  ready_round-Closed ref target last rest h (some _) = c.done _ _
  ready_round-Closed ref target last rest h none =
      c.bind _ _ _ _ (reads _ refl) (λ more. split_if K _ more _ _ (λ _. h) (λ _. c.done _ _))

  await_ready_replicas-Closed :
      (ref : ApplicationReference) (target : ℤ) (n : ℕ) (last : ℤ)
      → K (Option ℤ) (await_ready_replicas ref target n last)
  unfolding await_ready_replicas
  await_ready_replicas-Closed ref target zero last = c.bind _ _ _ _ (reads _ refl) (λ _. c.done _ _)
  await_ready_replicas-Closed ref target (suc n) last = c.bind _ _ _ _ (reads _ refl) (λ w.
      ready_round-Closed ref target (seen last w) _
        (await_ready_replicas-Closed ref target n (seen last w)) (is_target target w))

  module _ (f : Deps) (profile : OrchestrationProfile) where
    scaled-Closed :
        (target : ℤ) (reason : String) (timeout : Duration) (last : Option ℤ)
        → K (Result EnactResult) (scaled f profile target reason timeout last)
    scaled-Closed target reason timeout none = c.done _ _
    scaled-Closed target reason timeout (some last) =
        c.bind _ _ _ _ (classify_schedule_timeout-Closed K c reads _ _) (λ _. c.done _ _)

    patched-Closed :
        (target : ℤ) (reason : String) (timeout : Duration) (res : Result (Unit {0}))
        → K (Result EnactResult) (Scale.patched f profile target reason timeout res)
    patched-Closed target reason timeout (err e) = c.done _ _
    patched-Closed target reason timeout (ok _) =
        c.bind _ _ _ _ (await_ready_replicas-Closed _ target _ _)
          (scaled-Closed target reason timeout)

    -- The scale enactor changes the workload as it was read, in its replica count alone.
    pub scale_enactor-Closed :
        (target : ℤ) (reason : String) (timeout : Duration)
        → ClosedPatch K profile.spec.application_ref (with_replicas target)
        → K (Result EnactResult) (scale_enactor f profile target reason timeout)
    unfolding scale_enactor
    scale_enactor-Closed target reason timeout patching =
        split_if K _ (is_patchable profile.spec.application_ref.kind) _ _
          (λ _. patching _ _ (λ w. ClosedAfter.update _ (patched-Closed target reason _)))
          (λ _. c.done _ _)

    pub resolve_resource_state-Closed :
        (name : String) → K (Result ResourceState) (resolve_resource_state f profile name)
    unfolding resolve_resource_state
    resolve_resource_state-Closed name =
        split_if K _ (is_patchable profile.spec.application_ref.kind) _ _
          (λ _. c.bind _ _ _ _ (reads _ refl) (on_ok-Closed K c _ _ _ _ (λ w. c.done _ _)))
          (λ _. c.done _ _)

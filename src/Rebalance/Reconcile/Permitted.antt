-- ===== src/Rebalance/Reconcile/Permitted.antt =====
-- The calls that an answer of the agent to internal/rebalance permits.
use hiro_adaptive_orchestrat.Base.{
  ◌≡◌, refl, ◌⊎◌, inl, inr, List, All, leb_ℤ, pos, true, false, String, str_eq, [], ◌∷◌, none, some,
  ok, clash,
}
use hiro_adaptive_orchestrat.Types.{RebalanceAction, ApplicationReference, OrchestrationProfile}
use hiro_adaptive_orchestrat.Cluster.{Pod, Workload}
use hiro_adaptive_orchestrat.Io.{Op, RebalanceDecisionResponse}
use hiro_adaptive_orchestrat.Io.Wp.{Event, Trace}
use hiro_adaptive_orchestrat.Io.Effects.{IsBookkeeping}
use hiro_adaptive_orchestrat.Rebalance.Settings.{Reconciler}
use hiro_adaptive_orchestrat.Rebalance.Enact.Move.{workload_key}
use hiro_adaptive_orchestrat.Rebalance.Enact.Resource.{update_container, apply_target_resources}
use hiro_adaptive_orchestrat.Rebalance.Enact.Resource.Bounds.{Targets, resource_bounds, check}
use hiro_adaptive_orchestrat.Rebalance.Dispatch.Closed.{IsWorthwhile}

abbrev pub IsIn : Pod → List Pod → Type 0
IsIn pod [] = ⊥
IsIn pod (p ∷ ps) = (pod ≡ p) ⊎ IsIn pod ps

later :
    (p : Pod) (ps pods : List Pod)
    → All (λ pod. IsIn pod ps) pods
    → All (λ pod. IsIn pod (p ∷ ps)) pods
later p ps [] h = tt
later p ps (pod ∷ pods) h = (inr (h.0), later p ps pods h.1)

pub each_is_in : (pods : List Pod) → All (λ pod. IsIn pod pods) pods
each_is_in [] = tt
each_is_in (p ∷ ps) = (inl refl, later p ps ps (each_is_in ps))

module _ (r : Reconciler) (profile : OrchestrationProfile) (resp : RebalanceDecisionResponse) where
  -- The guards that all enactments share: no dry run, and enough improvement.
  abbrev pub IsReal : Type 0
  IsReal = (profile.spec.rebalancing.dry_run ≡ false) × IsWorthwhile r resp

  -- Targets within the bounds.
  pub record Within (targets : Targets) : Type 0 where
    pub within : check r.deps (resource_bounds r) targets.cpu targets.memory ≡ none

  -- A workload as it was, but for its replica count or for the answer's container.
  pub data IsPatch (old : Workload) : Workload → Type 0 where
    scaled :
        leb_ℤ resp.target_replicas (pos 0) ≡ false
        → IsPatch old (record old { replicas = some resp.target_replicas })
    resized :
        (targets : Targets)
        → Within targets
        → IsPatch old (record old {
          containers =
              update_container resp.container_name
                (apply_target_resources targets.cpu targets.memory)
                old.containers;
        })

  -- A pod as it was, but for the answer's container.
  pub data IsResized (old : Pod) : Pod → Type 0 where
    resized_pod :
        (targets : Targets)
        → Within targets
        → IsResized old (record old {
          containers =
              update_container resp.container_name
                (apply_target_resources targets.cpu targets.memory)
                old.containers;
        })

  abbrev pub ref : ApplicationReference
  ref = profile.spec.application_ref

  -- The read of the referenced workload.
  abbrev pub read_of : Workload → Event
  read_of w = record { op = Op.get_workload ref.kind ref.namespace ref.name; answer = ok w }

  -- These pods were listed in the workload's namespace.
  abbrev pub WasListed : List Pod → Trace → Type 0
  WasListed pods [] = ⊥
  WasListed pods (e ∷ past) =
      ((text : String) × (e
          ≡ record { op = Op.list_selected_pods ref.namespace text; answer = ok pods }))
      ⊎ WasListed pods past

  -- The calls that the answer permits after others. An update comes right after the read of what it
  -- changes, and a resize is one of a pod that was listed.
  abbrev pub Permits : Trace → Op → Type 0
  Permits past (Op.evict_pod pod) = IsReal × (str_eq pod.name resp.pod_name ≡ true)
  Permits past (Op.update_workload kind namespace w) =
      IsReal
      × ((kind ≡ ref.kind)
          × (namespace ≡ ref.namespace)
          × ((old : Workload) × (before : Trace) × (past ≡ read_of old ∷ before) × IsPatch old w))
  Permits past (Op.resize_pod pod) =
      IsReal
      × ((pods : List Pod) × (old : Pod) × WasListed pods past × IsIn old pods × IsResized old pod)
  Permits past (Op.delete_pod pod) = ⊥
  Permits past (Op.store_put key pod act node reason id) =
      IsReal
      × ((key ≡ workload_key profile.namespace profile.name)
          × ((act ≡ RebalanceAction.move) × (pod ≡ resp.pod_name) × (node ≡ resp.target_node)))
  Permits past (Op.store_delete key) = IsReal × (key ≡ workload_key profile.namespace profile.name)
  Permits past (Op.wait_for_token timeout) = IsReal
  Permits past (Op.call_agent request) = ⊥
  Permits past _ = Unit

  -- Each call was permitted after those before it.
  abbrev pub Permitted : Trace → Type 0
  Permitted [] = Unit
  Permitted (e ∷ past) = Permits past e.op × Permitted past

  pub bookkeeping-Permits : (past : Trace) (o : Op) → IsBookkeeping o → Permits past o
  bookkeeping-Permits past (Op.evict_pod pod) h = clash false h refl
  bookkeeping-Permits past (Op.update_workload kind namespace w) h = clash false h refl
  bookkeeping-Permits past (Op.resize_pod pod) h = clash false h refl
  bookkeeping-Permits past (Op.delete_pod pod) h = clash false h refl
  bookkeeping-Permits past (Op.store_put key pod act node reason id) h = clash false h refl
  bookkeeping-Permits past (Op.store_delete key) h = clash false h refl
  bookkeeping-Permits past (Op.wait_for_token timeout) h = clash false h refl
  bookkeeping-Permits past (Op.call_agent request) h = clash false h refl
  bookkeeping-Permits past _ h = tt

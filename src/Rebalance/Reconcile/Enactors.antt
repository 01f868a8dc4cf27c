-- ===== src/Rebalance/Reconcile/Enactors.antt =====
-- The enactors for any property of programs that sequencing keeps and that both reads and the calls
-- of enactors have.
use hiro_adaptive_orchestrat.Base.{refl, List}
use hiro_adaptive_orchestrat.Types.{OrchestrationProfile, RebalanceAction}
use hiro_adaptive_orchestrat.Cluster.{Container}
use hiro_adaptive_orchestrat.Io.{Op, Answer, RebalanceDecisionResponse, op}
use hiro_adaptive_orchestrat.Io.Closed.{Property, IsClosed}
use hiro_adaptive_orchestrat.Io.Effects.{IsEnactment}
use hiro_adaptive_orchestrat.Rebalance.Settings.{Reconciler}
use hiro_adaptive_orchestrat.Rebalance.Enact.Closed.{ClosedReads}
use hiro_adaptive_orchestrat.Rebalance.Enact.Closed.Move.{move_enactor-Closed}
use hiro_adaptive_orchestrat.Rebalance.Enact.Closed.Patch.{
  each_update, with_replicas, with_targets, scale_enactor-Closed,
}
use hiro_adaptive_orchestrat.Rebalance.Enact.Closed.Resize.{each_resize, resource_enactor-Closed}
use hiro_adaptive_orchestrat.Rebalance.Enact.Move.{workload_key}
use hiro_adaptive_orchestrat.Rebalance.Enact.Resource.{update_container, apply_target_resources}
use hiro_adaptive_orchestrat.Rebalance.Enact.Resource.Bounds.{Targets}
use hiro_adaptive_orchestrat.Rebalance.Reconcile.Closed.{ClosedEnactors}

abbrev changed : Targets → RebalanceDecisionResponse → List Container → List Container
changed targets resp =
    update_container resp.container_name (apply_target_resources targets.cpu targets.memory)

pub enactors_of :
    (K : Property) (c : IsClosed K) (reads : ClosedReads K) (r : Reconciler)
    (profile : OrchestrationProfile) (resp : RebalanceDecisionResponse)
    → ((o : Op) → IsEnactment o → K (Answer o) (op o))
    → ClosedEnactors K r profile resp
enactors_of K c reads r profile resp calls =
    let ref = profile.spec.application_ref in
    record {
      waiting = λ _ _ d. calls (Op.wait_for_token d) refl;
      moving = λ _ _ _ id.
          move_enactor-Closed K c reads r.deps profile resp.pod_name resp.target_node resp.reason id
            (calls
              (Op.store_put (workload_key profile.namespace profile.name) resp.pod_name
                RebalanceAction.move resp.target_node resp.reason id)
              refl)
            (calls (Op.store_delete (workload_key profile.namespace profile.name)) refl)
            (λ pod _. calls (Op.evict_pod pod) refl) r.move_action_timeout;
      scaling = λ _ _ _.
          scale_enactor-Closed K c reads r.deps profile resp.target_replicas resp.reason
            r.scale_action_timeout
            (each_update K c reads ref (with_replicas resp.target_replicas)
              (λ w. calls (Op.update_workload ref.kind ref.namespace _) refl));
      resizing = λ targets _ _ _.
          resource_enactor-Closed K c reads r.deps resp.container_name targets.cpu targets.memory
            profile
            (each_resize K c reads r.deps resp.container_name targets.cpu targets.memory
              ref.namespace (λ pod. calls (Op.resize_pod _) refl))
            (each_update K c reads ref (with_targets resp.container_name targets.cpu targets.memory)
              (λ w. calls (Op.update_workload ref.kind ref.namespace _) refl))
            resp.reason r.resource_action_timeout;
    }

-- ===== src/Placement/Extender/Steering.antt =====
-- internal/placement-server: how a move of the engine steers the default scheduler, from the entry
-- in the decision store to the priorities of the replacement's nodes.
use hiro_adaptive_orchestrat.Base.{
  ◌≡◌, refl, ◌∙◌, ◌<>◌, ◌+◌, ltb, String, eq_iff, is_empty, true, false, List, map, some, ok,
  returned,
}
use hiro_adaptive_orchestrat.Types.{Time, RebalanceAction, OrchestrationProfile}
use hiro_adaptive_orchestrat.Cluster.{Pod, Node}
use hiro_adaptive_orchestrat.Io.World.{World, run}
use hiro_adaptive_orchestrat.Io.Shared.{answered, serve, serve-bind, serve-run}
use hiro_adaptive_orchestrat.Io.Closed.{Only, Only-IsClosed}
use hiro_adaptive_orchestrat.Io.Effects.{IsRead}
use hiro_adaptive_orchestrat.Rebalance.Enact.Move.{workload_key}
use hiro_adaptive_orchestrat.Placement.Types.{DecisionResponse}
use hiro_adaptive_orchestrat.Placement.Store.{
  DecisionStore, DecisionStoreEntry, entry_for, put, delete, lookup,
}
use hiro_adaptive_orchestrat.Placement.Hint.{score_for, has_node, decision_store_response-scores}
use hiro_adaptive_orchestrat.Placement.Builder.{find_profile_for_pod}
use hiro_adaptive_orchestrat.Placement.Builder.Closed.{find_profile_for_pod-Closed}
use hiro_adaptive_orchestrat.Placement.Server.{
  PlacementServer, Reply, consult_found, consult_store, score_after, score,
}
use hiro_adaptive_orchestrat.Placement.Extender.{prioritize_args, handle_extender_prioritize}
use hiro_adaptive_orchestrat.Placement.Extender.Filter.{scheduler_post}
use hiro_adaptive_orchestrat.Placement.Extender.Hinted.{
  hinted, node_scores_to_host_priorities-hinted,
}

module _ (profile : OrchestrationProfile) (s : DecisionStore) (put_at : Time)
    (pod_name target reason id : String) where
  abbrev key : String
  key = workload_key profile.namespace profile.name

  -- The store after the engine's entry.
  abbrev pub intended : DecisionStore
  intended = put s put_at key pod_name RebalanceAction.move target reason id

  abbrev waiting : DecisionStoreEntry
  waiting = entry_for s put_at pod_name RebalanceAction.move target reason id

  lookup-intended :
      (now : Time)
      → ltb (put_at + s.ttl) now ≡ false
      → lookup intended now key ≡ (some waiting, delete intended key)
  unfolding lookup put
  lookup-intended now fresh = rw ((eq_iff key key).1 refl, fresh) refl

  module _ (w : World) (server : PlacementServer) (pod : Pod) (nodes : List Node) (now : Time) where
    abbrev names : List String
    names = map (λ node. node.name) nodes

    abbrev answer : DecisionResponse
    answer = record {
      request_id = pod.uid;
      node_scores = map (score_for target) names;
      reason = "rebalance decision " <> id <> ": " <> reason;
    }

    resolved :
        serve w now intended (find_profile_for_pod server.deps pod)
        ≡ (run w (find_profile_for_pod server.deps pod), intended)
    resolved = serve-run w now intended (find_profile_for_pod server.deps pod) (
        find_profile_for_pod-Closed (Only IsRead) (Only-IsClosed IsRead) (λ o h. (h, λ x. tt))
          server.deps pod)

    module _ (found : run w (find_profile_for_pod server.deps pod) ≡ ok (some profile))
        (named : is_empty target ≡ false) (candidate : has_node target names ≡ true)
        (fresh : ltb (put_at + s.ttl) now ≡ false) where
      -- The store answers for the pod, and has no entry for its workload after that.
      consulted :
          serve w now intended (consult_store server pod nodes pod.uid)
          ≡ (some answer, delete intended key)
      unfolding consult_store consult_found answered
      consulted =
          serve-bind w now intended (find_profile_for_pod server.deps pod) _
          ∙ rw (resolved, found, lookup-intended now fresh)
              (rw (decision_store_response-scores pod.uid names waiting, named, candidate) refl)

      score-intended :
          serve w now intended (score server pod nodes pod.uid)
          ≡ (returned (ok answer), delete intended key)
      unfolding score score_after
      score-intended =
          serve-bind w now intended (consult_store server pod nodes pod.uid) _ ∙ rw consulted refl

      prioritized :
          serve w now intended
            (prioritize_args server (record { pod = some pod; nodes = some nodes }))
          ≡ (returned (Reply.json_reply pod.uid (map (hinted target) nodes)), delete intended key)
      unfolding prioritize_args
      prioritized =
          serve-bind w now intended (score server pod nodes pod.uid) _
          ∙ rw
              (
                score-intended,
                node_scores_to_host_priorities-hinted pod.uid waiting nodes answer (
                    decision_store_response-scores pod.uid names waiting
                    ∙ rw (named, candidate) refl),
              )
              refl

      -- A move that the engine puts into the decision store steers the default scheduler: if the pod is
      -- found to belong to the workload, the entry names a target among the candidates, and its time
      -- to live is not over, then the extender's reply to a request for priorities gives the target the
      -- priority 10 and every other node 0, whatever the agent would say, and the entry is gone.
      pub handle_extender_prioritize-steered :
          serve w now intended (handle_extender_prioritize server (scheduler_post pod nodes))
          ≡ (returned (Reply.json_reply pod.uid (map (hinted target) nodes)), delete intended key)
      unfolding handle_extender_prioritize
      handle_extender_prioritize-steered = prioritized

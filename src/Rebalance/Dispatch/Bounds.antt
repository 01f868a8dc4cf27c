-- ===== src/Rebalance/Dispatch/Bounds.antt =====
-- internal/rebalance/dispatch.go and scale_enactor.go: the replica counts that the AdjustReplicas
-- dispatcher sets, and the autoscalers of the namespace.
use hiro_adaptive_orchestrat.Base.{
  ◌≡◌, refl, ◌⊎◌, inl, inr, false, String, [], ◌∷◌, some, List, Result, clash,
}
use hiro_adaptive_orchestrat.Types.{Duration, ApplicationReference, OrchestrationProfile}
use hiro_adaptive_orchestrat.Cluster.{Workload, Autoscaler}
use hiro_adaptive_orchestrat.Io.{Op, Answer, RebalanceDecisionResponse, op, ◌>>=◌}
use hiro_adaptive_orchestrat.Io.Wp.{Trace, Wp, Wp_mono}
use hiro_adaptive_orchestrat.Io.Closed.{Property, Keeping, Keeping-IsClosed}
use hiro_adaptive_orchestrat.Io.Effects.{IsBookkeeping, IsRead-IsBookkeeping}
use hiro_adaptive_orchestrat.Rebalance.Settings.{Reconciler}
use hiro_adaptive_orchestrat.Rebalance.Writer.Transition.Calls.{transition-Closed}
use hiro_adaptive_orchestrat.Rebalance.Enact.Closed.{ClosedReads}
use hiro_adaptive_orchestrat.Rebalance.Enact.Closed.Patch.{
  each_update, with_replicas, scale_enactor-Closed,
}
use hiro_adaptive_orchestrat.Rebalance.Enact.Scale.{
  fallback_bounds, bounds_of_list, resolve_replica_bounds,
}
use hiro_adaptive_orchestrat.Rebalance.Dispatch.Allowed.{AllowedBy, listed-AllowedBy}
use hiro_adaptive_orchestrat.Rebalance.Dispatch.Scale.{scale_within, dispatch_scale}
use hiro_adaptive_orchestrat.Rebalance.Dispatch.Closed.{
  ClosedTransitions, scale_within-Closed, guarded_scale-Closed,
}

module _ (r : Reconciler) (profile : OrchestrationProfile) (resp : RebalanceDecisionResponse) where
  abbrev ref : ApplicationReference
  ref = profile.spec.application_ref

  -- The autoscalers of the namespace were listed, with this answer.
  abbrev pub WasListed : Result (List Autoscaler) → Trace → Type 0
  WasListed listed [] = ⊥
  WasListed listed (e ∷ past) =
      (e ≡ record { op = Op.list_autoscalers ref.namespace; answer = listed })
      ⊎ WasListed listed past

  -- After some calls: an update of a workload sets the count of the answer, which the autoscalers
  -- listed before allow. No other call of an enactor is made.
  abbrev pub IsBounded : Trace → Op → Type 0
  IsBounded past (Op.update_workload kind namespace w) =
      (w.replicas ≡ some resp.target_replicas)
      × ((listed : Result (List Autoscaler)) × WasListed listed past
          × AllowedBy r ref resp.target_replicas listed)
  IsBounded past o = IsBookkeeping o

  abbrev pub Bounded : Trace → Type 0
  Bounded [] = Unit
  Bounded (e ∷ past) = IsBounded past e.op × Bounded past

  bookkeeping-IsBounded : (past : Trace) (o : Op) → IsBookkeeping o → IsBounded past o
  bookkeeping-IsBounded past (Op.update_workload kind namespace w) h = clash false h refl
  bookkeeping-IsBounded past _ h = h

  abbrev K : Property
  K = Keeping Bounded

  quiet : (o : Op) → IsBookkeeping o → K (Answer o) (op o)
  quiet o h = λ past p x. (bookkeeping-IsBounded past o h, p)

  -- After the listing.
  module _ (listed : Result (List Autoscaler)) where
    abbrev After : Trace → Type 0
    After past = Bounded past × WasListed listed past

    abbrev L : Property
    L = Keeping After

    quietly : (o : Op) → IsBookkeeping o → L (Answer o) (op o)
    quietly o h = λ past p x. ((bookkeeping-IsBounded past o h, p.0), inr p.1)

    reads : ClosedReads L
    reads o h = quietly o (IsRead-IsBookkeeping o h)

    update :
        AllowedBy r ref resp.target_replicas listed
        → (kind namespace : String) (w : Workload)
        → L
            (Result (Unit {0}))
            (op (Op.update_workload kind namespace (with_replicas resp.target_replicas w)))
    update allowed kind namespace w = λ past p x. (((refl, (listed, p.1, allowed)), p.0), inr p.1)

  module _ (key : String) (cooldown : Duration) where
    transitions :
        (P : Trace → Type 0)
        → ((o : Op) → IsBookkeeping o → Keeping P (Answer o) (op o))
        → ClosedTransitions (Keeping P) r key
    transitions P calls to reason opts =
        transition-Closed (Keeping P) (Keeping-IsClosed P) calls r.deps r.writer key to reason opts
          r.retries

    within-Bounded :
        (listed : Result (List Autoscaler))
        → L listed (Unit {0}) (
            scale_within r key profile resp cooldown
              (bounds_of_list ref (fallback_bounds r.min_replicas r.max_replicas) listed))
    within-Bounded listed =
        scale_within-Closed (L listed) (Keeping-IsClosed (After listed)) r key
          (transitions (After listed) (quietly listed)) profile resp cooldown _
          (λ real unmanaged within.
            scale_enactor-Closed (L listed) (Keeping-IsClosed (After listed)) (reads listed) r.deps
              profile resp.target_replicas resp.reason r.scale_action_timeout
              (each_update (L listed) (Keeping-IsClosed (After listed)) (reads listed) ref
                (with_replicas resp.target_replicas)
                (update listed
                  (listed-AllowedBy r ref resp.target_replicas listed (unmanaged, within)) ref.kind
                  ref.namespace)))

    bounded : K (Unit {0}) (
        resolve_replica_bounds profile r.min_replicas r.max_replicas
        >>= scale_within r key profile resp cooldown)
    unfolding resolve_replica_bounds
    bounded = λ past p listed.
        Wp_mono
          (scale_within r key profile resp cooldown
            (bounds_of_list ref (fallback_bounds r.min_replicas r.max_replicas) listed))
          _ _ _ (within-Bounded listed _ ((refl, p), inl refl)) (λ past' _ h. h.0)

    -- Over every answer, the AdjustReplicas dispatcher makes no call but reads, the writer's own and
    -- updates of a workload that set the count of the answer, and that only if the autoscalers of
    -- the namespace, as it has listed them before, allow the count: the first of them that targets
    -- the workload has no KEDA ScaledObject for an owner, and its bounds, 1 for a missing minimum,
    -- include the count; or none targets it, or the listing failed, and the engine's bounds do.
    pub dispatch_scale-Bounded :
        Wp (dispatch_scale r key profile resp cooldown) [] (λ past _. Bounded past)
    dispatch_scale-Bounded =
        guarded_scale-Closed K (Keeping-IsClosed Bounded) r key (transitions Bounded quiet) profile
          resp cooldown (λ _ _. bounded) [] tt

-- ===== src/Rebalance/Reconcile/Permits.antt =====
-- What a decision of the agent may change in the cluster.
use hiro_adaptive_orchestrat.Base.{List}
use hiro_adaptive_orchestrat.Types.{OrchestrationProfile}
use hiro_adaptive_orchestrat.Cluster.{Pod}
use hiro_adaptive_orchestrat.Io.{RebalanceDecisionResponse}
use hiro_adaptive_orchestrat.Io.Wp.{Trace, Wp}
use hiro_adaptive_orchestrat.Io.Closed.{Property, Keeping}
use hiro_adaptive_orchestrat.Rebalance.Settings.{Reconciler}
use hiro_adaptive_orchestrat.Rebalance.Enact.Resource.Bounds.{Targets}
use hiro_adaptive_orchestrat.Rebalance.Reconcile.Permitted.{IsReal, Within, WasListed, Permitted}

module _ (r : Reconciler) (profile : OrchestrationProfile) (resp : RebalanceDecisionResponse) where
  abbrev K : Property
  K = Keeping (Permitted r profile resp)

  -- The resize of pods that were listed.
  module _ (real : (IsReal r profile resp)) (targets : Targets)
      (within : Within r profile resp targets) (pods : List Pod) where
    abbrev After : Trace → Type 0
    After past = Permitted r profile resp past × WasListed r profile resp pods past

    abbrev L : Property
    L = Keeping After

-- ===== src/Placement/Builder/Closed.antt =====
-- The context of a placement, taken apart for every property of programs that sequencing keeps and
-- that reads have.
use hiro_adaptive_orchestrat.Base.{
  refl, Bool, true, false, String, is_empty, List, Option, none, some, Result, ok, err, Exit, Deps,
}
use hiro_adaptive_orchestrat.Types.{OrchestrationProfile}
use hiro_adaptive_orchestrat.Cluster.{Pod, Node, EnergyAwareOrchestration}
use hiro_adaptive_orchestrat.Io.{Op}
use hiro_adaptive_orchestrat.Io.Closed.{Property, IsClosed, split_if, on_ok-Closed}
use hiro_adaptive_orchestrat.Utils.{App, resolve_app_from_pod}
use hiro_adaptive_orchestrat.Utils.Closed.{
  ClosedReads, find_eao_for_app-Closed, resolve_app_from_pod-Closed,
}
use hiro_adaptive_orchestrat.Placement.Types.{EaoProfileContext, DecisionRequest}
use hiro_adaptive_orchestrat.Placement.Builder.{
  profile_of_app, find_profile_for_pod, fetch_eao_for_pod, fetch_eao_profile, energy_of, assemble,
  has_decision, build_governed, build_found, build,
}

module _ (K : Property) (c : IsClosed K) (reads : ClosedReads K) where
  resolved : (pod : Pod) → K App (resolve_app_from_pod pod)
  resolved =
      resolve_app_from_pod-Closed K c
        (λ kind namespace name. reads (Op.get_workload kind namespace name) refl)

  profile_of_app-Closed :
      (d : Deps) (app : App) → K (Result (Option OrchestrationProfile)) (profile_of_app d app)
  unfolding profile_of_app
  profile_of_app-Closed d app =
      split_if K _ (is_empty app.app_name) _ _ (λ _. c.done _ _)
        (λ _.
          c.bind _ _ _ _ (reads (Op.list_indexed_profiles _) refl)
            (on_ok-Closed K c _ _ _ _ (λ found. c.done _ _)))

  pub find_profile_for_pod-Closed :
      (d : Deps) (pod : Pod) → K (Result (Option OrchestrationProfile)) (find_profile_for_pod d pod)
  unfolding find_profile_for_pod
  find_profile_for_pod-Closed d pod = c.bind _ _ _ _ (resolved pod) (profile_of_app-Closed d)

  fetch_eao_for_pod-Closed :
      (pod : Pod) → K (Result (Option EnergyAwareOrchestration)) (fetch_eao_for_pod pod)
  unfolding fetch_eao_for_pod
  fetch_eao_for_pod-Closed pod = c.bind _ _ _ _ (resolved pod) (λ app.
      split_if K _ (is_empty app.app_name) _ _ (λ _. c.done _ _)
        (λ _. find_eao_for_app-Closed K c reads _))

  fetch_eao_profile-Closed :
      (pod : Pod) → K (Result (Option EaoProfileContext)) (fetch_eao_profile pod)
  unfolding fetch_eao_profile
  fetch_eao_profile-Closed pod =
      c.bind _ _ _ _ (fetch_eao_for_pod-Closed pod) (on_ok-Closed K c _ _ _ _ (λ eao. c.done _ _))

  energy_of-Closed : (pod : Pod) (aware : Bool) → K (Option EaoProfileContext) (energy_of pod aware)
  unfolding energy_of
  energy_of-Closed pod true = c.bind _ _ _ _ (fetch_eao_profile-Closed pod) (λ eao. c.done _ _)
  energy_of-Closed pod false = c.done _ _

  module _ (pod : Pod) (nodes : List Node) (id : String) where
    assemble-Closed :
        (profile : OrchestrationProfile) (eao : Option EaoProfileContext)
        → K (Exit (Result DecisionRequest)) (assemble profile pod nodes id eao)
    unfolding assemble
    assemble-Closed profile eao =
        c.bind _ _ _ _ (reads Op.now refl)
          (λ now. split_if K _ (has_decision eao) _ _ (λ _. c.done _ _) (λ _. c.done _ _))

    build_found-Closed :
        (found : Result (Option OrchestrationProfile))
        → K (Exit (Result DecisionRequest)) (build_found pod nodes id found)
    unfolding build_found build_governed
    build_found-Closed (err e) = c.done _ _
    build_found-Closed (ok none) = c.done _ _
    build_found-Closed (ok (some profile)) =
        c.bind _ _ _ _ (energy_of-Closed pod _) (assemble-Closed profile)

    pub build-Closed : (d : Deps) → K (Exit (Result DecisionRequest)) (build d pod nodes id)
    unfolding build
    build-Closed d = c.bind _ _ _ _ (find_profile_for_pod-Closed d pod) build_found-Closed

-- ===== src/Utils/Closed.antt =====
-- The helpers of internal/utils, taken apart for every property of programs that sequencing keeps
-- and that reads have.
use hiro_adaptive_orchestrat.Base.{refl, String, str_eq, List, [], ◌∷◌, Option, Result}
use hiro_adaptive_orchestrat.Types.{ApplicationReference}
use hiro_adaptive_orchestrat.Cluster.{Pod, Workload, EnergyAwareOrchestration, OwnerReference}
use hiro_adaptive_orchestrat.Io.{Op, Answer, op}
use hiro_adaptive_orchestrat.Io.Closed.{Property, IsClosed, split_if, on_ok-Closed}
use hiro_adaptive_orchestrat.Io.Effects.{IsRead}
use hiro_adaptive_orchestrat.Utils.{
  App, resolve_label_selector, find_pods_for_application, find_eao_for_app, supported_kind,
  resolve_owners, resolve_app_from_pod,
}

-- Every read has the property.
abbrev pub ClosedReads : Property → Type 0
ClosedReads K = (o : Op) → IsRead o → K (Answer o) (op o)

module _ (K : Property) (c : IsClosed K) (reads : ClosedReads K) where
  resolve_label_selector-Closed :
      (ref : ApplicationReference)
      → K (Result (List (String × String))) (resolve_label_selector ref)
  unfolding resolve_label_selector
  resolve_label_selector-Closed ref =
      split_if K _ (supported_kind ref.kind) _ _
        (λ _. c.bind _ _ _ _ (reads _ refl) (on_ok-Closed K c _ _ _ _ (λ w. c.done _ _)))
        (λ _. c.done _ _)

  pub find_pods_for_application-Closed :
      (ref : ApplicationReference) → K (Result (List Pod)) (find_pods_for_application ref)
  unfolding find_pods_for_application
  find_pods_for_application-Closed ref = c.bind _ _ _ _ (resolve_label_selector-Closed ref) (
      on_ok-Closed K c _ _ _ _
        (λ labels. c.bind _ _ _ _ (reads _ refl) (on_ok-Closed K c _ _ _ _ (λ pods. c.done _ _))))

  pub find_eao_for_app-Closed :
      (ref : ApplicationReference)
      → K (Result (Option EnergyAwareOrchestration)) (find_eao_for_app ref)
  unfolding find_eao_for_app
  find_eao_for_app-Closed ref =
      c.bind _ _ _ _ (reads _ refl) (on_ok-Closed K c _ _ _ _ (λ eaos. c.done _ _))

module _ (K : Property) (c : IsClosed K)
    (getting : (kind namespace name : String)
      → K (Result Workload) (op (Op.get_workload kind namespace name))) where
  resolve_owners-Closed :
      (namespace : String) (refs : List OwnerReference) → K App (resolve_owners namespace refs)
  unfolding resolve_owners
  resolve_owners-Closed namespace [] = c.done _ _
  resolve_owners-Closed namespace (ref ∷ refs) =
      split_if K _ (str_eq ref.kind "ReplicaSet") _ _
        (λ _. c.bind _ _ _ _ (getting _ _ _) (λ r. c.done _ _))
        (λ _.
          split_if K _ (str_eq ref.kind "StatefulSet") _ _ (λ _. c.done _ _)
            (λ _.
              split_if K _ (str_eq ref.kind "Job") _ _ (λ _. c.done _ _)
                (λ _. resolve_owners-Closed namespace refs)))

  pub resolve_app_from_pod-Closed : (pod : Pod) → K App (resolve_app_from_pod pod)
  unfolding resolve_app_from_pod
  resolve_app_from_pod-Closed pod = resolve_owners-Closed pod.namespace pod.owner_references

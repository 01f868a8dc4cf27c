-- ===== src/Utils.antt =====
-- internal/utils/helpers.go: the pods of an application, and the energy resource about it.
pub mod Closed
use hiro_adaptive_orchestrat.Base.{
  String, ◌<>◌, Bool, ◌&&◌, ◌||◌, str_eq, is_empty, if◌then◌else◌, List, [], ◌∷◌, Option, none,
  some, Result, Error, ok, err, wrap,
}
use hiro_adaptive_orchestrat.Types.{ApplicationReference}
use hiro_adaptive_orchestrat.Cluster.{Pod, Workload, EnergyAwareOrchestration, OwnerReference}
use hiro_adaptive_orchestrat.Io.{Op, Prog, ret, op, ◌>>=◌}

-- What follows a call that may fail: an error ends the program, wrapped or as it is.
abbrev pub on_ok :
    {A B : Type 0} → (Error → Error) → (A → Prog (Result B)) → Result A → Prog (Result B)
on_ok wrapped k (ok a) = k a
on_ok wrapped k (err e) = ret (err (wrapped e))

abbrev pub supported_kind : String → Bool
supported_kind kind =
    str_eq kind "Deployment"
    || str_eq kind "StatefulSet"
    || str_eq kind "Job"
    || str_eq kind "ReplicaSet"

-- The labels of a selector. The server admits no workload without one.
abbrev labels_of : Workload → List (String × String)
labels_of w = elim (w.labels) [ some labels ↦ labels | none ↦ [] ]

-- `ResolveLabelSelector`
unfoldable pub resolve_label_selector :
    ApplicationReference → Prog (Result (List (String × String)))
resolve_label_selector ref =
    if supported_kind ref.kind
    then op (Op.get_workload ref.kind ref.namespace ref.name)
      >>= on_ok (λ e. e) (λ w. ret (ok (labels_of w)))
    else ret (ok [])

-- The labels to list by: the selector's, or the conventional app label.
abbrev pub labels_or_app : ApplicationReference → List (String × String) → List (String × String)
labels_or_app ref [] = ("app", ref.name) ∷ []
labels_or_app ref (l ∷ ls) = l ∷ ls

-- The name of an application in an error.
abbrev pub app_text : ApplicationReference → String
app_text ref = ref.namespace <> "/" <> ref.name

-- `FindPodsForApplication`. The labels are left out of the second error's text.
unfoldable pub find_pods_for_application : ApplicationReference → Prog (Result (List Pod))
unfolding resolve_label_selector
find_pods_for_application ref =
    resolve_label_selector ref
    >>= on_ok (wrap ("resolving label selector for " <> ref.kind <> " " <> app_text ref)) (λ labels.
      op (Op.list_pods ref.namespace (labels_or_app ref labels))
      >>= on_ok (wrap ("listing pods for " <> app_text ref)) (λ pods. ret (ok pods)))

-- Whether the resource is about the application; its own namespace stands in for an empty one.
abbrev pub governs : ApplicationReference → EnergyAwareOrchestration → Bool
governs ref eao =
    str_eq eao.ref_name ref.name
    && (str_eq (if is_empty eao.ref_namespace then eao.namespace else eao.ref_namespace)
          ref.namespace
        && str_eq eao.ref_kind ref.kind)

-- The first that matches.
unfoldable pub first_governing :
    ApplicationReference → List EnergyAwareOrchestration → Option EnergyAwareOrchestration
first_governing ref [] = none
first_governing ref (eao ∷ eaos) = if governs ref eao then some eao else first_governing ref eaos

-- `FindEAOForApp`
unfoldable pub find_eao_for_app :
    ApplicationReference → Prog (Result (Option EnergyAwareOrchestration))
unfolding first_governing
find_eao_for_app ref =
    op Op.list_eaos
    >>= on_ok (wrap "listing EnergyAwareOrchestration resources")
        (λ eaos. ret (ok (first_governing ref eaos)))

-- The top-level workload of a pod: its name, namespace and kind, empty if there is none.
pub record App : Type 0 where
  pub app_name : String
  pub app_namespace : String
  pub app_kind : String

abbrev pub no_app : App
no_app = record { app_name = ""; app_namespace = ""; app_kind = "" }

-- The first Deployment among the owners of a ReplicaSet.
abbrev pub deployment_owner : List OwnerReference → Option String
deployment_owner [] = none
deployment_owner (o ∷ os) = if str_eq o.kind "Deployment" then some o.name else deployment_owner os

abbrev owner_of_replica_set : String → String → Result Workload → App
owner_of_replica_set name namespace (err e) = record {
  app_name = name;
  app_namespace = namespace;
  app_kind = "ReplicaSet";
}
owner_of_replica_set name namespace (ok rs) = elim (deployment_owner rs.owner_references) [
  | some owner ↦ record { app_name = owner; app_namespace = namespace; app_kind = "Deployment" }
  | none ↦ record { app_name = rs.name; app_namespace = namespace; app_kind = "ReplicaSet" }
]

-- The loop of `ResolveAppFromPod` over the owners that are left.
unfoldable pub resolve_owners : String → List OwnerReference → Prog App
resolve_owners namespace [] = ret no_app
resolve_owners namespace (ref ∷ refs) =
    let rest = resolve_owners namespace refs in
    if str_eq ref.kind "ReplicaSet"
    then op (Op.get_workload "ReplicaSet" namespace ref.name)
      >>= (λ r. ret (owner_of_replica_set ref.name namespace r))
    else if str_eq ref.kind "StatefulSet"
    then ret (record { app_name = ref.name; app_namespace = namespace; app_kind = "StatefulSet" })
    else if str_eq ref.kind "Job"
    then ret (record { app_name = ref.name; app_namespace = namespace; app_kind = "Job" })
    else rest

-- `ResolveAppFromPod`
unfoldable pub resolve_app_from_pod : Pod → Prog App
unfolding resolve_owners
resolve_app_from_pod pod = resolve_owners pod.namespace pod.owner_references

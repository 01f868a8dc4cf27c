-- ===== src/Controller/Watchers.antt =====
-- internal/controller/op_watchers.go and op_index.go: the field index of profiles by their
-- application, and the profiles that an event about a pod or a workload leads to.
use hiro_adaptive_orchestrat.Base.{
  String, ◌<>◌, ◌||◌, is_empty, if◌then◌else◌, List, [], ◌∷◌, map, Result, ok, err,
}
use hiro_adaptive_orchestrat.Types.{ApplicationReference, OrchestrationProfile}
use hiro_adaptive_orchestrat.Cluster.{Pod}
use hiro_adaptive_orchestrat.Io.{Op, Prog, ret, op, ◌>>=◌}
use hiro_adaptive_orchestrat.Utils.{resolve_app_from_pod}

-- The key of an application in the index.
abbrev pub index_key : String → String → String
index_key namespace name = namespace <> "/" <> name

-- `profileByAppRefIndexFunc`
abbrev pub index_of_ref : ApplicationReference → List String
index_of_ref ref =
    if is_empty ref.name || is_empty ref.namespace
    then []
    else index_key ref.namespace ref.name ∷ []

unfoldable pub profile_by_app_ref_index_func : OrchestrationProfile → List String
profile_by_app_ref_index_func profile = index_of_ref profile.spec.application_ref

abbrev requests_of : Result (List OrchestrationProfile) → List String
requests_of (err e) = []
requests_of (ok profiles) = map (λ profile. profile.name) profiles

-- `profilesByAppRefIndex`: the names of the profiles to reconcile.
unfoldable pub profiles_by_app_ref_index : String → Prog (List String)
profiles_by_app_ref_index key =
    op (Op.list_indexed_profiles key) >>= (λ found. ret (requests_of found))

-- `appToProfileMapFunc`
unfoldable pub app_to_profile_map_func : String → String → Prog (List String)
unfolding profiles_by_app_ref_index
app_to_profile_map_func namespace name = profiles_by_app_ref_index (index_key namespace name)

-- `podToProfileMapFunc`
unfoldable pub pod_to_profile_map_func : Pod → Prog (List String)
unfolding profiles_by_app_ref_index
pod_to_profile_map_func pod = resolve_app_from_pod pod >>= λ app.
    (if is_empty app.app_name
      then ret []
      else profiles_by_app_ref_index (index_key app.app_namespace app.app_name))

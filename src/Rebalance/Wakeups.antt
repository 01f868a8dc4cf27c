-- ===== src/Rebalance/Wakeups.antt =====
-- internal/rebalance/reconciler.go: the profiles that an event about a pod, an energy resource or a
-- node wakes.
use hiro_adaptive_orchestrat.Base.{
  ◌≡◌, refl, ◌∙◌, String, str_eq, is_empty, Bool, true, false, not, ◌&&◌, ◌||◌, if◌then◌else◌, List,
  [], ◌∷◌, Result, ok, err, arith,
}
use hiro_adaptive_orchestrat.Types.{OrchestrationProfile}
use hiro_adaptive_orchestrat.Cluster.{Pod, Node, Condition, EnergyAwareOrchestration}
use hiro_adaptive_orchestrat.Io.{Op, Prog, ret, op, ◌>>=◌}
use hiro_adaptive_orchestrat.Io.World.{World, run, run-bind}
use hiro_adaptive_orchestrat.Utils.{App, resolve_app_from_pod}
use hiro_adaptive_orchestrat.Controller.Watchers.{index_key, profile_by_app_ref_index_func}
use hiro_adaptive_orchestrat.Controller.Validation.{contains_text}

-- `enabledProfileRequests`: the names of the profiles to reconcile.
unfoldable pub enabled_profile_requests : List OrchestrationProfile → List String
enabled_profile_requests [] = []
enabled_profile_requests (profile ∷ profiles) =
    let rest = enabled_profile_requests profiles in
    if profile.spec.rebalancing.enabled then profile.name ∷ rest else rest

abbrev requests_of : Result (List OrchestrationProfile) → List String
requests_of (err e) = []
requests_of (ok profiles) = enabled_profile_requests profiles

-- `profilesByIndexKey`
unfoldable pub profiles_by_index_key : String → Prog (List String)
profiles_by_index_key key = op (Op.list_indexed_profiles key) >>= (λ found. ret (requests_of found))

-- `allEnabledProfiles`
unfoldable pub all_enabled_profiles : Prog (List String)
all_enabled_profiles = op Op.list_profiles >>= (λ found. ret (requests_of found))

-- `podMapper`, once the workload of the pod is known.
unfoldable pub wake_app : App → Prog (List String)
unfolding profiles_by_index_key
wake_app app =
    if is_empty app.app_name
    then ret []
    else profiles_by_index_key (index_key app.app_namespace app.app_name)

-- `podMapper`
unfoldable pub pod_mapper : Pod → Prog (List String)
unfolding wake_app
pod_mapper pod = resolve_app_from_pod pod >>= wake_app

-- `eaoMapper`
unfoldable pub eao_mapper : EnergyAwareOrchestration → Prog (List String)
unfolding profiles_by_index_key
eao_mapper eao =
    if is_empty eao.ref_name
    then ret []
    else profiles_by_index_key (
        index_key (if is_empty eao.ref_namespace then eao.namespace else eao.ref_namespace)
          eao.ref_name)

-- `nodeMapper`, over the conditions that are left.
unfoldable pub wake_unready : List Condition → Prog (List String)
unfolding all_enabled_profiles
wake_unready [] = ret []
wake_unready (cond ∷ conds) =
    let rest = wake_unready conds in
    if str_eq cond.type "Ready" && not (str_eq cond.status "True")
    then all_enabled_profiles
    else rest

unfoldable pub node_mapper : Node → Prog (List String)
unfolding wake_unready
node_mapper node = wake_unready node.conditions

-- The profiles that the index has under a key.
abbrev pub indexed_under : String → List OrchestrationProfile → List OrchestrationProfile
indexed_under key [] = []
indexed_under key (profile ∷ profiles) =
    let rest = indexed_under key profiles in
    if contains_text key (profile_by_app_ref_index_func profile) then profile ∷ rest else rest

-- What a field index of the informer's cache is documented to do: to list under a key the objects
-- whose indexer function gives it.
abbrev pub IsIndexed : World → List OrchestrationProfile → Type 0
IsIndexed w profiles =
    (key : String) → w (Op.list_indexed_profiles key) ≡ ok (indexed_under key profiles)

-- Whether an event about an application wakes a profile.
abbrev pub wakes : String → String → OrchestrationProfile → Bool
wakes namespace name profile =
    let ref = profile.spec.application_ref in
    profile.spec.rebalancing.enabled
    && (not (is_empty ref.name || is_empty ref.namespace)
        && str_eq (index_key namespace name) (index_key ref.namespace ref.name))

abbrev pub woken : String → String → List OrchestrationProfile → List String
woken namespace name [] = []
woken namespace name (profile ∷ profiles) =
    let rest = woken namespace name profiles in
    if wakes namespace name profile then profile.name ∷ rest else rest

abbrev pub woken_by_app : App → List OrchestrationProfile → List String
woken_by_app app profiles =
    if is_empty app.app_name then [] else woken app.app_namespace app.app_name profiles

requests-woken :
    (namespace name : String) (profiles : List OrchestrationProfile)
    → enabled_profile_requests (indexed_under (index_key namespace name) profiles)
      ≡ woken namespace name profiles
unfolding enabled_profile_requests profile_by_app_ref_index_func
requests-woken namespace name [] = refl
requests-woken namespace name (profile ∷ profiles) =
    let ih = requests-woken namespace name profiles in ground arith

module _ (w : World) (profiles : List OrchestrationProfile) (indexed : IsIndexed w profiles) where
  key-woken :
      (namespace name : String)
      → run w (profiles_by_index_key (index_key namespace name)) ≡ woken namespace name profiles
  unfolding profiles_by_index_key
  key-woken namespace name =
      rw (indexed (index_key namespace name)) (requests-woken namespace name profiles)

  app-woken : (app : App) → run w (wake_app app) ≡ woken_by_app app profiles
  unfolding wake_app
  app-woken app = by_name (is_empty app.app_name)
    where
      by_name :
          (absent : Bool)
          → run w (
              if absent
              then ret []
              else profiles_by_index_key (index_key app.app_namespace app.app_name))
            ≡ (if absent then [] else woken app.app_namespace app.app_name profiles)
      by_name true = refl
      by_name false = key-woken app.app_namespace app.app_name

  -- In a world that answers each call in one way, and where the field index lists under a key the
  -- profiles whose indexer function gives it, an event about a pod wakes exactly these profiles, in
  -- the order of the list: those with rebalancing enabled, whose reference has a name and a namespace
  -- and has the same key as the pod's workload; none if the pod has no workload.
  pub pod_mapper-woken :
      (pod : Pod)
      → run w (pod_mapper pod) ≡ woken_by_app (run w (resolve_app_from_pod pod)) profiles
  unfolding pod_mapper
  pod_mapper-woken pod =
      run-bind w (resolve_app_from_pod pod) wake_app ∙ app-woken (run w (resolve_app_from_pod pod))

-- ===== src/Placement/Server/FailOpen.antt =====
-- internal/placement-server/server.go: the energy gate does not block for a failure of its own.
use hiro_adaptive_orchestrat.Base.{
  ◌≡◌, refl, sym, Bool, true, false, not, ◌&&◌, ◌||◌, is_empty, if◌then◌else◌, String, [], ◌∷◌,
  Option, none, some, Result, Error, ok, err, Exit, returned, Deps, arith,
}
use hiro_adaptive_orchestrat.Types.{ApplicationReference, OrchestrationProfile}
use hiro_adaptive_orchestrat.Cluster.{Pod, EnergyAwareOrchestration}
use hiro_adaptive_orchestrat.Io.{Op, Answer, ret}
use hiro_adaptive_orchestrat.Io.Wp.{Trace, Wp, Wp-bind, Wp_mono, Keeps}
use hiro_adaptive_orchestrat.Io.Closed.{Keeping, Keeping-IsClosed}
use hiro_adaptive_orchestrat.Utils.{on_ok, App, resolve_app_from_pod, find_eao_for_app}
use hiro_adaptive_orchestrat.Utils.Closed.{resolve_app_from_pod-Closed}
use hiro_adaptive_orchestrat.Placement.Types.{
  EaoProfileContext, EnergyGateRequest, EnergyGateResponse,
}
use hiro_adaptive_orchestrat.Placement.Builder.{
  ref_of, map_found, profile_of_app, find_profile_for_pod, fetch_eao_for_pod, fetch_eao_profile,
}
use hiro_adaptive_orchestrat.Placement.Builder.Gate.{gate_energy, gate_profile, check_energy_gate}
use hiro_adaptive_orchestrat.Placement.Builder.Panics.{is_panic}
use hiro_adaptive_orchestrat.Placement.Server.Routes.{is_post, is_json, decodes, on_post-cases}
use hiro_adaptive_orchestrat.Placement.Server.{
  PlacementServer, Request, Reply, filter, or_allow, filter_body, handle_filter,
}

abbrev pub is_err : {A : Type 0} → Result A → Bool
is_err (ok a) = false
is_err (err e) = true

abbrev failed : (o : Op) → Answer o → Bool
failed (Op.list_indexed_profiles key) r = is_err r
failed Op.list_eaos r = is_err r
failed _ x = false

-- A lookup of profiles or of energy resources has failed.
abbrev pub lookup_failed : Trace → Bool
lookup_failed [] = false
lookup_failed (e ∷ past) = failed e.op e.answer || lookup_failed past

abbrev Clean : Trace → Type 0
Clean past = lookup_failed past ≡ false

-- The trace has a failure exactly if the result is one.
abbrev Told : {A : Type 0} → Trace → Result A → Type 0
Told past r = lookup_failed past ≡ is_err r

resolving : (pod : Pod) → Keeps Clean (resolve_app_from_pod pod)
resolving pod =
    resolve_app_from_pod-Closed (Keeping Clean) (Keeping-IsClosed Clean)
      (λ kind namespace name past clean x. clean) pod

profile_of_app-Told :
    (d : Deps) (app : App) (absent : Bool)
    → is_empty app.app_name ≡ absent
    → (past : Trace) → Clean past
    → Wp (profile_of_app d app) past Told
unfolding profile_of_app
profile_of_app-Told d app true h past clean = rw h clean
profile_of_app-Told d app false h past clean = rw h (λ r. ground arith)

find_profile-Told : (d : Deps) (pod : Pod) → Wp (find_profile_for_pod d pod) [] Told
unfolding find_profile_for_pod
find_profile-Told d pod = Wp-bind (resolve_app_from_pod pod) (profile_of_app d) [] Told (
    Wp_mono (resolve_app_from_pod pod) [] _ _ (resolving pod [] refl)
      (λ past app clean. profile_of_app-Told d app _ refl past clean))

abbrev blocks : EnergyGateResponse → Bool
blocks gate = not gate.allowed

-- No failed lookup blocks.
abbrev Open : Trace → EnergyGateResponse → Type 0
Open past gate = (lookup_failed past && blocks gate) ≡ false

found_eao-Told :
    (ref : ApplicationReference) (past : Trace) → Clean past → Wp (find_eao_for_app ref) past Told
unfolding find_eao_for_app
found_eao-Told ref past clean (ok eaos) = clean
found_eao-Told ref past clean (err e) = refl

fetch_eao_for_pod-Told :
    (pod : Pod) (past : Trace) → Clean past → Wp (fetch_eao_for_pod pod) past Told
unfolding fetch_eao_for_pod
fetch_eao_for_pod-Told pod past clean = Wp-bind (resolve_app_from_pod pod) _ past Told (
    Wp_mono (resolve_app_from_pod pod) past _ _ (resolving pod past clean)
      (λ past' app clean'. by_name app _ refl past' clean'))
  where
    by_name :
        (app : App) (absent : Bool)
        → is_empty app.app_name ≡ absent
        → (past' : Trace) → Clean past'
        → Wp
            (if is_empty app.app_name then ret (ok none) else find_eao_for_app (ref_of app))
            past'
            Told
    by_name app true h past' clean' = rw h clean'
    by_name app false h past' clean' = rw h (found_eao-Told (ref_of app) past' clean')

fetch_eao_profile-Told :
    (pod : Pod) (past : Trace) → Clean past → Wp (fetch_eao_profile pod) past Told
unfolding fetch_eao_profile
fetch_eao_profile-Told pod past clean = Wp-bind (fetch_eao_for_pod pod) _ past Told (
    Wp_mono (fetch_eao_for_pod pod) past _ _ (fetch_eao_for_pod-Told pod past clean)
      (λ past' r told. mapped r past' told))
  where
    mapped :
        (r : Result (Option EnergyAwareOrchestration)) (past' : Trace)
        → Told past' r
        → Wp (on_ok (λ e. e) (λ eao. ret (ok (map_found eao))) r) past' Told
    mapped (ok eao) past' told = told
    mapped (err e) past' told = told

gate_energy-Open :
    (r : Result (Option EaoProfileContext)) (past : Trace) → Told past r → Open past (gate_energy r)
unfolding gate_energy
gate_energy-Open (err e) past told = ground arith
gate_energy-Open (ok none) past told = ground arith
gate_energy-Open (ok (some eao)) past told = rw told refl

module _ (s : PlacementServer) where
  abbrev Opens : Trace → EnergyGateResponse × Option Error → Type 0
  Opens past gate = Open past (or_allow s gate)

  aware-Opens :
      (pod : Pod) (profile : OrchestrationProfile) (aware : Bool)
      → profile.spec.placement.awareness.energy ≡ aware
      → (past : Trace) → Clean past
      → Wp (gate_profile pod (ok (some profile))) past Opens
  unfolding gate_profile
  aware-Opens pod profile true h past clean = rw h (
      Wp-bind (fetch_eao_profile pod) (λ eao. ret (gate_energy eao, none)) past Opens
        (Wp_mono (fetch_eao_profile pod) past _ _ (fetch_eao_profile-Told pod past clean)
          (λ past' r told. gate_energy-Open r past' told)))
  aware-Opens pod profile false h past clean = rw h (ground arith)

  gate_profile-Opens :
      (pod : Pod) (found : Result (Option OrchestrationProfile)) (past : Trace)
      → Told past found
      → Wp (gate_profile pod found) past Opens
  unfolding gate_profile
  gate_profile-Opens pod (err e) past told = ground arith
  gate_profile-Opens pod (ok none) past told = ground arith
  gate_profile-Opens pod (ok (some profile)) past told = aware-Opens pod profile _ refl past told

  pub filter-Opens : (pod : Pod) → Wp (filter s pod) [] Opens
  unfolding filter check_energy_gate
  filter-Opens pod = Wp-bind (find_profile_for_pod s.deps pod) (gate_profile pod) [] Opens (
      Wp_mono (find_profile_for_pod s.deps pod) [] _ _ (find_profile-Told s.deps pod)
        (λ past found told. gate_profile-Opens pod found past told))

  abbrev given_pod : EnergyGateRequest → Bool
  given_pod req = elim (req.pod) [ none ↦ false | some pod ↦ true ]

  abbrev blocks_reply : Exit (Reply EnergyGateResponse) → Bool
  blocks_reply (returned (Reply.json_reply id gate)) = blocks gate
  blocks_reply _ = false

  -- How the route may answer.
  abbrev pub Answers : Request EnergyGateRequest → Trace → Exit (Reply EnergyGateResponse) → Type 0
  Answers req past x =
      (is_json x ≡ decodes given_pod req)
      × ((is_panic x ≡ false) × ((lookup_failed past && blocks_reply x) ≡ false))

  open_reply :
      (past : Trace) (gate : EnergyGateResponse × Option Error) (id : String) (b : Bool)
      → b ≡ true
      → Opens past gate
      → (true ≡ b)
        × ((false ≡ false)
            × ((lookup_failed past
                  && blocks_reply (returned (Reply.json_reply id (or_allow s gate))))
                ≡ false))
  open_reply past gate id b h opens = (sym h, (refl, opens))

  pod_given :
      (req : Request EnergyGateRequest) (body : EnergyGateRequest) (pod : Option Pod)
      → body.pod ≡ pod
      → is_post req ≡ true
      → req.body ≡ ok body
      → Wp (filter_body s body) [] (Answers req)
  unfolding filter_body
  pod_given req body none p post decoded = rw (p, post, decoded, p) (refl, (refl, refl))
  pod_given req body (some pod) p post decoded = rw p (
      Wp-bind (filter s pod) _ [] (Answers req) (
        Wp_mono (filter s pod) [] _ _ (filter-Opens pod)
          (λ past gate opens. open_reply past gate pod.uid _ (rw (post, decoded, p) refl) opens)))

  -- In every run, whatever its calls are answered, the filter route of the plugin answers with a
  -- verdict exactly if the request is a POST whose body decodes and has a pod, it never panics, and
  -- no verdict blocks the pod where a lookup of profiles or of energy resources has failed.
  pub handle_filter-Answers :
      (req : Request EnergyGateRequest) → Wp (handle_filter s req) [] (Answers req)
  unfolding handle_filter
  handle_filter-Answers req =
      on_post-cases (filter_body s) req (Answers req) (λ not_post. rw not_post (refl, (refl, refl)))
        (λ e post bad. rw (post, bad) (refl, (refl, refl)))
        (λ body post decoded. pod_given req body _ refl post decoded)

-- ===== src/Placement/Builder/Panics.antt =====
-- internal/placement-server/builder.go: when Build does not return, for its last log line reads the
-- energy decision through pointers that may be nil.
use hiro_adaptive_orchestrat.Base.{
  ◌≡◌, refl, ap, ◌∙◌, String, Bool, true, false, not, ◌&&◌, is_empty, List, Option, none, some,
  Result, ok, err, Exit, returned, panicked, Deps, arith,
}
use hiro_adaptive_orchestrat.Types.{OrchestrationProfile}
use hiro_adaptive_orchestrat.Cluster.{Pod, Node, EnergyAwareOrchestration}
use hiro_adaptive_orchestrat.Io.{ret}
use hiro_adaptive_orchestrat.Io.World.{World, run, run-bind}
use hiro_adaptive_orchestrat.Placement.Types.{EaoProfileContext}
use hiro_adaptive_orchestrat.Placement.Builder.{
  find_profile_for_pod, fetch_eao_for_pod, fetch_eao_profile, map_eao_to_profile_context,
  or_left_out, has_decision, energy_of, assemble, build_governed, build_found, build,
}
use hiro_adaptive_orchestrat.Placement.Builder.Gate.{is_gated}

abbrev pub is_panic : {A : Type 0} → Exit A → Bool
is_panic (returned a) = false
is_panic panicked = true

abbrev pub is_governed : Result (Option OrchestrationProfile) → Bool
is_governed (ok (some profile)) = true
is_governed _ = false

-- A resource that is found, with a decision.
abbrev pub is_decided : Result (Option EnergyAwareOrchestration) → Bool
is_decided (ok (some eao)) = not (is_empty eao.decision_action)
is_decided _ = false

module _ (w : World) (pod : Pod) (nodes : List Node) (id : String) where
  assemble-panics :
      (profile : OrchestrationProfile) (eao : Option EaoProfileContext)
      → is_panic (run w (assemble profile pod nodes id eao)) ≡ not (has_decision eao)
  unfolding assemble
  assemble-panics profile eao = ground arith

  decided-attached :
      (eao : EnergyAwareOrchestration) (absent : Bool)
      → is_empty eao.decision_action ≡ absent
      → has_decision (some (map_eao_to_profile_context eao)) ≡ not absent
  unfolding map_eao_to_profile_context
  decided-attached eao true h = rw h refl
  decided-attached eao false h = rw h refl

  decision_attached :
      (found : Result (Option EnergyAwareOrchestration))
      → run w (fetch_eao_for_pod pod) ≡ found
      → has_decision (or_left_out (run w (fetch_eao_profile pod))) ≡ is_decided found
  unfolding fetch_eao_profile
  decision_attached (err e) h = rw (run-bind w (fetch_eao_for_pod pod) _, h) refl
  decision_attached (ok none) h = rw (run-bind w (fetch_eao_for_pod pod) _, h) refl
  decision_attached (ok (some eao)) h =
      rw (run-bind w (fetch_eao_for_pod pod) _, h) (decided-attached eao _ refl)

  energy_of-decided :
      (aware : Bool)
      → has_decision (run w (energy_of pod aware))
        ≡ (aware && is_decided (run w (fetch_eao_for_pod pod)))
  unfolding energy_of
  energy_of-decided true =
      rw (run-bind w (fetch_eao_profile pod) (λ eao. ret (or_left_out eao)))
        (decision_attached _ refl)
  energy_of-decided false = refl

  governed-panics :
      (profile : OrchestrationProfile)
      → is_panic (run w (build_governed profile pod nodes id))
        ≡ not
            (profile.spec.placement.awareness.energy && is_decided (run w (fetch_eao_for_pod pod)))
  unfolding build_governed
  governed-panics profile =
      rw (run-bind w (energy_of pod _) (assemble profile pod nodes id))
        (assemble-panics profile _ ∙ ap not (energy_of-decided _))

  found-panics :
      (found : Result (Option OrchestrationProfile))
      → is_panic (run w (build_found pod nodes id found))
        ≡ (is_governed found && not (is_gated found && is_decided (run w (fetch_eao_for_pod pod))))
  unfolding build_found
  found-panics (err e) = refl
  found-panics (ok none) = refl
  found-panics (ok (some profile)) = governed-panics profile

  -- In a world that answers each call in one way, Build panics exactly if a profile is found for the
  -- pod, but not both of these hold: the profile has energy awareness, and an energy resource with
  -- a decision is found about the pod's workload.
  pub build-panics :
      (d : Deps)
      → let found = run w (find_profile_for_pod d pod) in
        is_panic (run w (build d pod nodes id))
        ≡ (is_governed found && not (is_gated found && is_decided (run w (fetch_eao_for_pod pod))))
  unfolding build
  build-panics d =
      rw (run-bind w (find_profile_for_pod d pod) (build_found pod nodes id)) (found-panics _)

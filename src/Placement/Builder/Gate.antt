-- ===== src/Placement/Builder/Gate.antt =====
-- internal/placement-server/builder.go: the energy gate in front of the scheduling of a pod.
use hiro_adaptive_orchestrat.Base.{
  ◌≡◌, refl, Bool, true, false, not, ◌&&◌, is_empty, if◌then◌else◌, String, Option, none, some, ℤ,
  Result, Error, ok, err, Deps,
}
use hiro_adaptive_orchestrat.Types.{OrchestrationProfile}
use hiro_adaptive_orchestrat.Cluster.{Pod, EnergyAwareOrchestration}
use hiro_adaptive_orchestrat.Io.{Prog, ret, ◌>>=◌}
use hiro_adaptive_orchestrat.Io.World.{World, run, run-bind}
use hiro_adaptive_orchestrat.Placement.Types.{
  EaoDecision, EaoEnergyMetrics, EaoProfileContext, EnergyGateResponse,
}
use hiro_adaptive_orchestrat.Placement.Builder.{
  find_profile_for_pod, fetch_eao_for_pod, fetch_eao_profile, map_eao_to_profile_context,
}

abbrev pub allow : EnergyGateResponse
allow = record { allowed = true; reason = "" }

-- The reason of the decision, if there is one that has a reason.
abbrev pub block_reason : Option EaoDecision → String
block_reason none = "insufficient energy available"
block_reason (some decision) =
    if is_empty decision.reason then "insufficient energy available" else decision.reason

abbrev gate_metrics : Option EaoDecision → Option EaoEnergyMetrics → EnergyGateResponse
gate_metrics decision none = allow
gate_metrics decision (some metrics) =
    if metrics.sufficient then allow else record { allowed = false; reason = block_reason decision }

-- `CheckEnergyGate`, from the energy context on.
unfoldable pub gate_energy : Result (Option EaoProfileContext) → EnergyGateResponse
gate_energy (err e) = allow
gate_energy (ok none) = allow
gate_energy (ok (some eao)) = gate_metrics eao.decision eao.energy_metrics

-- `CheckEnergyGate`, from the profile of the pod on: its answer, and its error.
unfoldable pub gate_profile :
    Pod → Result (Option OrchestrationProfile) → Prog (EnergyGateResponse × Option Error)
unfolding gate_energy
gate_profile pod (err e) = ret (allow, some e)
gate_profile pod (ok none) = ret (allow, none)
gate_profile pod (ok (some profile)) =
    if profile.spec.placement.awareness.energy
    then fetch_eao_profile pod >>= (λ eao. ret (gate_energy eao, none))
    else ret (allow, none)

-- `CheckEnergyGate`
unfoldable pub check_energy_gate : Deps → Pod → Prog (EnergyGateResponse × Option Error)
unfolding gate_profile
check_energy_gate d pod = find_profile_for_pod d pod >>= gate_profile pod

-- Energy is reported insufficient, or required without a word on whether it suffices.
abbrev pub lacks : Option Bool → Option ℤ → Bool
lacks (some sufficient) required = not sufficient
lacks none (some watts) = true
lacks none none = false

abbrev pub is_short : Result (Option EnergyAwareOrchestration) → Bool
is_short (ok (some eao)) = lacks eao.sufficient eao.required_watts
is_short _ = false

-- A profile with energy awareness that governs a pod.
abbrev pub is_gated : Result (Option OrchestrationProfile) → Bool
is_gated (ok (some profile)) = profile.spec.placement.awareness.energy
is_gated _ = false

module _ (w : World) (pod : Pod) where
  metrics-allowed :
      (eao : EnergyAwareOrchestration) (sufficient : Option Bool) (required : Option ℤ)
      → eao.sufficient ≡ sufficient
      → eao.required_watts ≡ required
      → (gate_energy (ok (some (map_eao_to_profile_context eao)))).allowed
        ≡ not (lacks sufficient required)
  unfolding gate_energy map_eao_to_profile_context
  metrics-allowed eao (some true) required s r = rw s refl
  metrics-allowed eao (some false) required s r = rw s refl
  metrics-allowed eao none (some watts) s r = rw (s, r) refl
  metrics-allowed eao none none s r = rw (s, r) refl

  short-allowed :
      (found : Result (Option EnergyAwareOrchestration))
      → run w (fetch_eao_for_pod pod) ≡ found
      → (gate_energy (run w (fetch_eao_profile pod))).allowed ≡ not (is_short found)
  unfolding fetch_eao_profile gate_energy
  short-allowed (err e) h = rw (run-bind w (fetch_eao_for_pod pod) _, h) refl
  short-allowed (ok none) h = rw (run-bind w (fetch_eao_for_pod pod) _, h) refl
  short-allowed (ok (some eao)) h =
      rw (run-bind w (fetch_eao_for_pod pod) _, h) (metrics-allowed eao _ _ refl refl)

  energy-allowed :
      (profile : OrchestrationProfile) (aware : Bool)
      → profile.spec.placement.awareness.energy ≡ aware
      → (run w (gate_profile pod (ok (some profile)))).0.allowed
        ≡ not (aware && is_short (run w (fetch_eao_for_pod pod)))
  unfolding gate_profile
  energy-allowed profile true h =
      rw (h, run-bind w (fetch_eao_profile pod) _) (short-allowed _ refl)
  energy-allowed profile false h = rw h refl

  profile-allowed :
      (found : Result (Option OrchestrationProfile))
      → (run w (gate_profile pod found)).0.allowed
        ≡ not (is_gated found && is_short (run w (fetch_eao_for_pod pod)))
  unfolding gate_profile
  profile-allowed (err e) = refl
  profile-allowed (ok none) = refl
  profile-allowed (ok (some profile)) = energy-allowed profile _ refl

  -- In a world that answers each call in one way, the energy gate blocks a pod exactly if the
  -- profile that is found for it has energy awareness, and the energy resource that is found about
  -- its workload reports that the energy does not suffice, or which watts are required without
  -- saying whether they suffice. A lookup that fails finds nothing.
  pub check_energy_gate-allowed :
      (d : Deps)
      → (run w (check_energy_gate d pod)).0.allowed
        ≡ not (
            is_gated (run w (find_profile_for_pod d pod))
            && is_short (run w (fetch_eao_for_pod pod)))
  unfolding check_energy_gate
  check_energy_gate-allowed d =
      rw (run-bind w (find_profile_for_pod d pod) (gate_profile pod)) (profile-allowed _)

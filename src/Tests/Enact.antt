-- ===== src/Tests/Enact.antt =====
-- Runs of the enactors of internal/rebalance, and the theorems on them, at concrete data.
use hiro_adaptive_orchestrat.Base.{List, String, ◌≡◌, refl, pos, true, [], ◌∷◌, none, some}
use hiro_adaptive_orchestrat.Io.Wp.{Wp}
use hiro_adaptive_orchestrat.Rebalance.Enact.Move.{move_enactor, first_replacement, has_name}
use hiro_adaptive_orchestrat.Rebalance.Enact.Retry.{delete_unscheduled}
use hiro_adaptive_orchestrat.Rebalance.Enact.Retry.Count.{
  unscheduled, Counted, delete_unscheduled-Counted,
}
use hiro_adaptive_orchestrat.Rebalance.Enact.Move.Intent.{
  held, Guarded, intent, move_enactor-clears,
}
use hiro_adaptive_orchestrat.Rebalance.Enact.Move.Replacement.{Agrees, first_replacement-Agrees}
use hiro_adaptive_orchestrat.Rebalance.Enact.Resource.{
  find_container_by_name, apply_target_resources, update_container, container_resources_converged,
}
use hiro_adaptive_orchestrat.Rebalance.Enact.Resource.Converge.{in_force, converged-apply}
use hiro_adaptive_orchestrat.Cluster.{Pod, PodPhase}
use hiro_adaptive_orchestrat.Tests.Data.{deps, profile, web, pod, listed}

move_enactor-clears_example :
    Wp (move_enactor deps profile "shop-1" "green" "greener" "d2" (pos 2000000000)) [] (λ past _.
      ((k : String) → held k past ≡ none)
      × Guarded (intent deps profile "shop-1" "green" "greener" "d2") past)
move_enactor-clears_example =
    move_enactor-clears deps profile "shop-1" "green" "greener" "d2" (pos 2000000000)

taken : first_replacement (pod "shop-1" "brown" ∷ []) listed ≡ some (pod "shop-3" "green")
unfolding first_replacement has_name
taken = refl

first_replacement-Agrees_example :
    Agrees (pod "shop-1" "brown" ∷ []) listed (first_replacement (pod "shop-1" "brown" ∷ []) listed)
first_replacement-Agrees_example = first_replacement-Agrees (pod "shop-1" "brown" ∷ []) listed

found_web : find_container_by_name "web" (web ∷ []) ≡ some web
unfolding find_container_by_name
found_web = refl

converged-apply_example :
    container_resources_converged "web"
      (pos 7)
      (pos 0)
      (in_force (update_container "web" (apply_target_resources (pos 7) (pos 0)) (web ∷ [])))
    ≡ true
converged-apply_example = converged-apply "web" (pos 7) (pos 0) (web ∷ []) web found_web

abbrev stuck : List Pod
stuck = record (pod "shop-2" "") { phase = PodPhase.pending_phase } ∷ listed

delete_unscheduled-Counted_example :
    Wp (delete_unscheduled stuck 0) [] (λ past r. Counted (unscheduled stuck) 0 [] past r)
delete_unscheduled-Counted_example = delete_unscheduled-Counted stuck

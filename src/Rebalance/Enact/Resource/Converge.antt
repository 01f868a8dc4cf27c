-- ===== src/Rebalance/Enact/Resource/Converge.antt =====
-- internal/rebalance/resource_enactor.go: the patch and the test for convergence agree.
use native.Mathlib.Omega.{arith}
use hiro_adaptive_orchestrat.Base.{
  ◌≡◌, refl, Bool, true, false, String, str_eq, List, [], ◌∷◌, Option, some, leb_ℤ, ℤ, pos, negsuc,
  if◌then◌else◌,
}
use hiro_adaptive_orchestrat.Cluster.{Quantity, Container, ContainerStatus}
use hiro_adaptive_orchestrat.Rebalance.Enact.Resource.{
  put_target, or_empty, shows, find_container_by_name, apply_target_resources, update_container,
  container_resources_converged,
}

-- The statuses of containers whose requests are in force.
abbrev pub in_force : List Container → List ContainerStatus
in_force [] = []
in_force (c ∷ cs) = record { name = c.name; resources = c.requests } ∷ in_force cs

-- A quantity is no less than itself.
leb_ℤ-refl : (q : ℤ) → leb_ℤ q q ≡ true
leb_ℤ-refl (pos n) = ground arith
leb_ℤ-refl (negsuc n) = ground arith

shows-put_target :
    (target : Quantity) (old : Option Quantity) → shows target (put_target target old) ≡ true
shows-put_target target old = ground (arith, leb_ℤ-refl target)

module _ (name : String) (cpu : Quantity) (memory : Quantity) where
  abbrev patch : Container → Container
  patch = apply_target_resources cpu memory

  -- One container, by whether it has the name.
  converged_step :
      (d : Container) (ds : List Container) (c : Container)
      → (find_container_by_name name ds ≡ some c
          → container_resources_converged name cpu memory
              (in_force (update_container name patch ds))
            ≡ true)
      → (named : Bool) → str_eq d.name name ≡ named
      → (if named then some d else find_container_by_name name ds) ≡ some c
      → container_resources_converged name cpu memory
          (in_force (if named then patch d ∷ ds else d ∷ update_container name patch ds))
        ≡ true
  unfolding container_resources_converged apply_target_resources
  converged_step d ds c later true e h = ground (
    arith,
    shows-put_target cpu ((or_empty d.requests).cpu),
    shows-put_target memory ((or_empty d.requests).memory),
  )
  converged_step d ds c later false e h = ground (arith, later h)

-- Where the workload has the container, the patched requests, once they are in force, count as
-- converged: for every target, an absent one too.
pub converged-apply :
    (name : String) (cpu : Quantity) (memory : Quantity) (cs : List Container) (c : Container)
    → find_container_by_name name cs ≡ some c
    → container_resources_converged name cpu memory
        (in_force (update_container name (apply_target_resources cpu memory) cs))
      ≡ true
unfolding find_container_by_name container_resources_converged update_container
converged-apply name cpu memory [] c h = ground arith
converged-apply name cpu memory (d ∷ ds) c h =
    converged_step name cpu memory d ds c (converged-apply name cpu memory ds c) _ refl h

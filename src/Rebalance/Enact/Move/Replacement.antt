-- ===== src/Rebalance/Enact/Move/Replacement.antt =====
-- internal/rebalance/move_enactor.go: which pod counts as the replacement.
use native.Mathlib.Omega.{arith}
use hiro_adaptive_orchestrat.Base.{
  ◌≡◌, refl, ◌||◌, not, ◌&&◌, Bool, true, false, is_empty, List, [], ◌∷◌, Option, none, some,
  if◌then◌else◌,
}
use hiro_adaptive_orchestrat.Cluster.{Pod}
use hiro_adaptive_orchestrat.Rebalance.Enact.Move.{first_replacement, has_name}

-- A new pod, and on a node.
abbrev pub is_replacement : List Pod → Pod → Bool
is_replacement before p = not (has_name p.name before) && not (is_empty p.node_name)

-- Whether a list has one.
abbrev pub has_replacement : List Pod → List Pod → Bool
has_replacement before [] = false
has_replacement before (p ∷ ps) = is_replacement before p || has_replacement before ps

abbrev pub Agrees : List Pod → List Pod → Option Pod → Type 0
Agrees before ps (some p) = is_replacement before p ≡ true
Agrees before ps none = has_replacement before ps ≡ false

agrees :
    (before : List Pod) (p : Pod) (ps : List Pod) (found : Option Pod)
    → (stale : Bool) → (has_name p.name before || is_empty p.node_name) ≡ stale
    → Agrees before ps found
    → Agrees before (p ∷ ps) (if stale then found else some p)
agrees before p ps (some q) true e h = h
agrees before p ps none true e h = ground arith
agrees before p ps found false e h = ground arith

-- A pod taken for the replacement is new, that is, of no name seen before the eviction, and on a
-- node; and none is taken only where no pod of the list is.
pub first_replacement-Agrees :
    (before : List Pod) (ps : List Pod) → Agrees before ps (first_replacement before ps)
unfolding first_replacement
first_replacement-Agrees before [] = refl
first_replacement-Agrees before (p ∷ ps) =
    agrees before p ps (first_replacement before ps) _ refl (first_replacement-Agrees before ps)

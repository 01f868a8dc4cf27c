-- ===== src/Rebalance/State.antt =====
-- internal/rebalance/state.go: the transition table of the decision lifecycle.
pub mod Rank
use hiro_adaptive_orchestrat.Base.{Bool, true, false, ◌||◌, List, [], ◌∷◌}
use hiro_adaptive_orchestrat.Types.{
  RebalancingStateType, none_state, watching, triggered, evaluating, decided, enacting,
}

-- The row of `validTransitions` for a state.
unfoldable pub valid_transitions : RebalancingStateType → List RebalancingStateType
valid_transitions none_state = triggered ∷ []
valid_transitions watching = triggered ∷ []
valid_transitions triggered = evaluating ∷ watching ∷ []
valid_transitions evaluating = decided ∷ watching ∷ []
valid_transitions decided = enacting ∷ watching ∷ []
valid_transitions enacting = watching ∷ []

-- `==` on the states.
abbrev pub same_state : RebalancingStateType → RebalancingStateType → Bool
same_state none_state none_state = true
same_state watching watching = true
same_state triggered triggered = true
same_state evaluating evaluating = true
same_state decided decided = true
same_state enacting enacting = true
same_state _ _ = false

-- `slices.Contains`
abbrev contains : List RebalancingStateType → RebalancingStateType → Bool
contains [] s = false
contains (x ∷ xs) s = same_state x s || contains xs s

-- `IsValidTransition`
unfoldable pub is_valid_transition : RebalancingStateType → RebalancingStateType → Bool
unfolding valid_transitions
is_valid_transition from to = contains (valid_transitions from) to

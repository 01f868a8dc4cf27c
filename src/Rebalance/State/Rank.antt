-- ===== src/Rebalance/State/Rank.antt =====
-- How far a cycle of internal/rebalance/state.go can run before it rests again.
use hiro_adaptive_orchestrat.Base.{
  ℕ, suc, ◌+◌, ◌≤◌, ◌≡◌, ◌≢◌, Bool, true, false, List, [], ◌∷◌, arith, length, All,
}
use hiro_adaptive_orchestrat.Types.{
  RebalancingStateType, none_state, watching, triggered, evaluating, decided, enacting,
}
use hiro_adaptive_orchestrat.Rebalance.State.{is_valid_transition}

-- How many transitions a cycle has made in a state.
abbrev pub rank : RebalancingStateType → ℕ
rank none_state = 0
rank watching = 0
rank triggered = 1
rank evaluating = 2
rank decided = 3
rank enacting = 4

rank-is_valid_transition :
    (s t : RebalancingStateType)
    → is_valid_transition s t ≡ true
    → t ≢ watching
    → rank t ≡ suc (rank s)
unfolding is_valid_transition
rank-is_valid_transition s t h n = ground arith

-- The states that a sequence of valid transitions passes, one after the other.
abbrev pub IsPath : RebalancingStateType → List RebalancingStateType → Type 0
IsPath s [] = Unit
IsPath s (t ∷ ts) = (is_valid_transition s t ≡ true) × IsPath t ts

-- No cycle is under way.
abbrev pub rests : RebalancingStateType → Bool
rests none_state = true
rests watching = true
rests _ = false

-- From any state, a sequence of valid transitions that never enters Watching ends after as many as
-- the state leaves of the four steps of a cycle: a fifth transition has to end it.
pub IsPath-rests :
    (s : RebalancingStateType) (ts : List RebalancingStateType)
    → IsPath s ts
    → All (λ t. t ≢ watching) ts
    → rank s + length ts ≤ 4
IsPath-rests s [] p n = ground arith
IsPath-rests s (t ∷ ts) p n =
    omega (arith, rank-is_valid_transition s t p.0 n.0, IsPath-rests t ts p.1 n.1)

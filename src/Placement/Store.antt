-- ===== src/Placement/Store.antt =====
-- internal/placement-server/decision_store.go: the decisions that wait for the next pod of a
-- workload. The clock's reading is an argument; the lock makes every operation one step.
pub mod History
use hiro_adaptive_orchestrat.Base.{
  ℕ, ◌+◌, ◌*◌, ltb, String, str_eq, Bool, Option, none, some, ℤ, pos, negsuc, leb_ℤ, if◌then◌else◌,
}
use hiro_adaptive_orchestrat.Types.{Time, Duration, RebalanceAction}

pub record DecisionStoreEntry : Type 0 where
  pub pod_name : String
  pub action : RebalanceAction
  pub target_node : String
  pub reason : String
  pub decision_id : String
  pub expires_at : Time

-- The map, with `none` where it has no entry, and the time to live.
pub record DecisionStore : Type 0 where
  pub entries : String → Option DecisionStoreEntry
  pub ttl : ℕ

abbrev pub default_decision_store_ttl : ℕ
default_decision_store_ttl = 60 * 1000000000

-- `NewDecisionStore`
unfoldable pub new_decision_store : Duration → DecisionStore
new_decision_store (pos n) = record {
  entries = λ k. none;
  ttl = if ltb 0 n then n else default_decision_store_ttl;
}
new_decision_store (negsuc n) = record { entries = λ k. none; ttl = default_decision_store_ttl }

-- An assignment to one key of the map, and the deletion of one.
abbrev pub set :
    String
    → Option DecisionStoreEntry
    → (String → Option DecisionStoreEntry)
    → String
    → Option DecisionStoreEntry
set key entry entries k = if str_eq k key then entry else entries k

abbrev pub entry_for :
    DecisionStore → Time → String → RebalanceAction → String → String → String → DecisionStoreEntry
entry_for s now pod act node reason id = record {
  pod_name = pod;
  action = act;
  target_node = node;
  reason = reason;
  decision_id = id;
  expires_at = now + s.ttl;
}

-- `Put`
unfoldable pub put :
    DecisionStore
    → Time
    → String
    → String
    → RebalanceAction
    → String
    → String
    → String
    → DecisionStore
put s now key pod act node reason id = record s {
  entries = set key (some (entry_for s now pod act node reason id)) s.entries;
}

-- `Delete`
unfoldable pub delete : DecisionStore → String → DecisionStore
delete s key = record s { entries = set key none s.entries }

-- An entry that is found, unless its time is over.
abbrev pub unexpired : Time → Option DecisionStoreEntry → Option DecisionStoreEntry
unexpired now none = none
unexpired now (some e) = if ltb e.expires_at now then none else some e

-- `Lookup`: the answer and the store after it.
unfoldable pub lookup : DecisionStore → Time → String → Option DecisionStoreEntry × DecisionStore
unfolding delete
lookup s now key = (unexpired now (s.entries key), delete s key)

-- ===== src/Placement/Store/History.antt =====
-- The decision store against the history of its operations.
use hiro_adaptive_orchestrat.Base.{
  ◌≡◌, refl, String, str_eq, eq_iff, List, [], ◌∷◌, Option, none, some, if◌then◌else◌,
}
use hiro_adaptive_orchestrat.Types.{Time, RebalanceAction}
use hiro_adaptive_orchestrat.Placement.Store.{
  DecisionStore, DecisionStoreEntry, set, entry_for, put, delete, unexpired, lookup,
}

-- An operation with the time at which it is made.
pub data StoreOp : Type 0 where
  put_op : Time → String → String → RebalanceAction → String → String → String → StoreOp
  lookup_op : Time → String → StoreOp
  delete_op : String → StoreOp

-- The operations, the latest first.
unfoldable pub run : DecisionStore → List StoreOp → DecisionStore
unfolding put lookup delete
run s [] = s
run s (put_op now key pod act node reason id ∷ past) =
    put (run s past) now key pod act node reason id
run s (lookup_op now key ∷ past) = (lookup (run s past) now key).1
run s (delete_op key ∷ past) = delete (run s past) key

-- What the history says of a key: the entry of the latest operation on it, if that is a put.
unfoldable pub latest : DecisionStore → String → List StoreOp → Option DecisionStoreEntry
latest s k [] = s.entries k
latest s k (put_op now key pod act node reason id ∷ past) =
    let older = latest s k past in
    if str_eq k key then some (entry_for s now pod act node reason id) else older
latest s k (lookup_op now key ∷ past) =
    let older = latest s k past in if str_eq k key then none else older
latest s k (delete_op key ∷ past) =
    let older = latest s k past in if str_eq k key then none else older

run_ttl : (s : DecisionStore) (past : List StoreOp) → (run s past).ttl ≡ s.ttl
unfolding run
run_ttl s [] = refl
run_ttl s (put_op now key pod act node reason id ∷ past) = run_ttl s past
run_ttl s (lookup_op now key ∷ past) = run_ttl s past
run_ttl s (delete_op key ∷ past) = run_ttl s past

entries-run :
    (s : DecisionStore) (past : List StoreOp) (k : String)
    → (run s past).entries k ≡ latest s k past
unfolding run latest
entries-run s [] k = refl
entries-run s (put_op now key pod act node reason id ∷ past) k =
    rw (entries-run s past k, run_ttl s past) refl
entries-run s (lookup_op now key ∷ past) k = rw (entries-run s past k) refl
entries-run s (delete_op key ∷ past) k = rw (entries-run s past k) refl

deleted :
    (later : Time) (k : String) (entries : String → Option DecisionStoreEntry)
    → unexpired later (set k none entries k) ≡ none
deleted later k entries = rw ((eq_iff k k).1 refl) refl

-- After any sequence of operations, a lookup answers with the entry of the latest operation on its
-- key if that is a put whose time to live is not over, and with none otherwise; and whatever it
-- answered, a lookup of that key right after it, at any time, answers with none.
pub lookup-run :
    (s : DecisionStore) (past : List StoreOp) (now : Time) (later : Time) (k : String)
    → ((lookup (run s past) now k).0 ≡ unexpired now (latest s k past))
      × ((lookup (lookup (run s past) now k).1 later k).0 ≡ none)
unfolding lookup
lookup-run s past now later k =
    (rw (entries-run s past k) refl, deleted later k (run s past).entries)

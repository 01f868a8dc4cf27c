-- ===== src/Io/Shared.antt =====
-- Runs in a world that does not change, but for the decision store: its calls are those of the store
-- that the engine and the placement server share.
use hiro_adaptive_orchestrat.Base.{◌≡◌, refl, arith}
use hiro_adaptive_orchestrat.Types.{Time}
use hiro_adaptive_orchestrat.Placement.Store.{DecisionStore, put, delete, lookup}
use hiro_adaptive_orchestrat.Io.{Op, Answer, Prog, ret, call, ◌>>=◌}
use hiro_adaptive_orchestrat.Io.World.{World, run}
use hiro_adaptive_orchestrat.Io.Closed.{Only}
use hiro_adaptive_orchestrat.Io.Effects.{IsRead}

module _ (w : World) (now : Time) where
  -- The answer to a call, and the store after it.
  unfoldable pub answered : DecisionStore → (o : Op) → Answer o × DecisionStore
  answered s (Op.store_put key pod act node reason id) = (tt, put s now key pod act node reason id)
  answered s (Op.store_delete key) = (tt, delete s key)
  answered s (Op.store_lookup key) = lookup s now key
  answered s o = (w o, s)

  -- A program's result, and the store after it.
  abbrev pub serve : {A : Type 0} → DecisionStore → Prog A → A × DecisionStore
  serve s (ret a) = (a, s)
  serve s (call o k) = serve (answered s o).1 (k (answered s o).0)

  module _ {A B : Type 0} where
    pub serve-bind :
        (s : DecisionStore) (m : Prog A) (f : A → Prog B)
        → serve s (m >>= f) ≡ serve (serve s m).1 (f (serve s m).0)
    serve-bind s (ret a) f = refl
    serve-bind s (call o k) f = serve-bind (answered s o).1 (k (answered s o).0) f

  answered-read : (s : DecisionStore) (o : Op) → IsRead o → answered s o ≡ (w o, s)
  unfolding answered
  answered-read s (Op.store_put key pod act node reason id) h = ground arith
  answered-read s (Op.store_delete key) h = ground arith
  answered-read s (Op.store_lookup key) h = ground arith
  answered-read s _ h = refl

  module _ {A : Type 0} where
    -- A program that only reads leaves the store, and sees nothing of it.
    pub serve-run : (s : DecisionStore) (m : Prog A) → Only IsRead A m → serve s m ≡ (run w m, s)
    serve-run s (ret a) h = refl
    serve-run s (call o k) h = rw (answered-read s o h.0) (serve-run s (k (w o)) (h.1 (w o)))

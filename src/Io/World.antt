-- ===== src/Io/World.antt =====
-- Runs in a world that does not change while a program runs: a call has one answer.
use hiro_adaptive_orchestrat.Base.{◌≡◌, refl}
use hiro_adaptive_orchestrat.Io.{Op, Answer, Prog, ret, call, ◌>>=◌}

abbrev pub World : Type 0
World = (o : Op) → Answer o

abbrev pub run : {A : Type 0} → World → Prog A → A
run w (ret a) = a
run w (call o k) = run w (k (w o))

module _ {A B : Type 0} (w : World) where
  pub run-bind : (m : Prog A) (f : A → Prog B) → run w (m >>= f) ≡ run w (f (run w m))
  run-bind (ret a) f = refl
  run-bind (call o k) f = run-bind (k (w o)) f

-- ===== src/Io/Closed.antt =====
-- Properties of programs that sequencing keeps. A component is proved once for all of them.
use hiro_adaptive_orchestrat.Base.{
  ◌≡◌, refl, Bool, true, false, ◌∷◌, if◌then◌else◌, Result, ok, err, Error,
}
use hiro_adaptive_orchestrat.Io.{Op, Answer, Prog, ret, call, ◌>>=◌}
use hiro_adaptive_orchestrat.Io.Wp.{Trace, Keeps, Keeps-bind}
use hiro_adaptive_orchestrat.Utils.{on_ok}

-- A property of programs of any result.
abbrev pub Property : Type 1
Property = (A : Type 0) → Prog A → Type 0

pub record IsClosed (K : Property) : Type 1 where
  pub done : (A : Type 0) (a : A) → K A (ret a)
  pub bind :
      (A B : Type 0) (m : Prog A) (f : A → Prog B) → K A m → ((a : A) → K B (f a)) → K B (m >>= f)

-- A test hands each branch its outcome.
pub split_if :
    (K : Property) (A : Type 0) (b : Bool) (m n : Prog A)
    → (b ≡ true → K A m)
    → (b ≡ false → K A n)
    → K A (if b then m else n)
split_if K A true m n hm hn = hm refl
split_if K A false m n hm hn = hn refl

module _ (K : Property) (c : IsClosed K) where
  pub on_ok-Closed :
      (A B : Type 0) (wrapped : Error → Error) (k : A → Prog (Result B))
      → ((a : A) → K (Result B) (k a))
      → (r : Result A) → K (Result B) (on_ok wrapped k r)
  on_ok-Closed A B wrapped k h (ok a) = h a
  on_ok-Closed A B wrapped k h (err e) = c.done _ _

-- Every call that the program can make is one of `P`.
abbrev pub Only : (Op → Type 0) → Property
Only P A (ret a) = Unit
Only P A (call o k) = P o × ((x : Answer o) → Only P A (k x))

module _ (P : Op → Type 0) where
  Only-bind :
      (A B : Type 0) (m : Prog A) (f : A → Prog B)
      → Only P A m
      → ((a : A) → Only P B (f a))
      → Only P B (m >>= f)
  Only-bind A B (ret a) f hm hf = hf a
  Only-bind A B (call o k) f hm hf = (hm.0, λ x. Only-bind A B (k x) f (hm.1 x) hf)

  pub Only-IsClosed : IsClosed (Only P)
  Only-IsClosed = record { done = λ A a. tt; bind = Only-bind }

-- The programs that keep a property of the trace.
abbrev pub Keeping : (Trace → Type 0) → Property
Keeping P A m = Keeps P m

pub Keeping-IsClosed : (P : Trace → Type 0) → IsClosed (Keeping P)
Keeping-IsClosed P = record { done = λ A a tr h. h; bind = λ A B m f. Keeps-bind P m f }

-- A program whose every call keeps the property keeps it.
pub Only-Keeps :
    (P : Trace → Type 0) (Q : Op → Type 0)
    → ((o : Op) (x : Answer o) (tr : Trace) → Q o → P tr → P (record { op = o; answer = x } ∷ tr))
    → (A : Type 0) (m : Prog A) → Only Q A m
    → Keeps P m
Only-Keeps P Q step A (ret a) h tr p = p
Only-Keeps P Q step A (call o k) h tr p =
    λ x. Only-Keeps P Q step A (k x) (h.1 x) _ (step o x tr h.0 p)

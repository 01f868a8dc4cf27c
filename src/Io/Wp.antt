-- ===== src/Io/Wp.antt =====
-- What holds of every run of a program, whatever the calls are answered.
use hiro_adaptive_orchestrat.Base.{Bool, true, false, List, ◌∷◌, if◌then◌else◌}
use hiro_adaptive_orchestrat.Io.{Op, Answer, Prog, ret, call, ◌>>=◌}

-- A call with its answer.
pub record Event : Type 0 where
  pub op : Op
  pub answer : Answer op

-- The calls made, the latest first.
abbrev pub Trace : Type 0
Trace = List Event

-- After the calls of `tr`, every run of the program ends in a trace and a result that satisfy `Q`.
abbrev pub Wp : {A : Type 0} → Prog A → Trace → (Trace → A → Type 0) → Type 0
Wp (ret a) tr Q = Q tr a
Wp (call o k) tr Q = (x : Answer o) → Wp (k x) (record { op = o; answer = x } ∷ tr) Q

module _ {A B : Type 0} where
  pub Wp-bind :
      (m : Prog A) (f : A → Prog B) (tr : Trace) (Q : Trace → B → Type 0)
      → Wp m tr (λ tr' a. Wp (f a) tr' Q)
      → Wp (m >>= f) tr Q
  Wp-bind (ret a) f tr Q h = h
  Wp-bind (call o k) f tr Q h = λ x. Wp-bind (k x) f _ Q (h x)

module _ {A : Type 0} where
  pub Wp_mono :
      (m : Prog A) (tr : Trace) (P Q : Trace → A → Type 0)
      → Wp m tr P
      → ((tr' : Trace) (a : A) → P tr' a → Q tr' a)
      → Wp m tr Q
  Wp_mono (ret a) tr P Q h imp = imp tr a h
  Wp_mono (call o k) tr P Q h imp = λ x. Wp_mono (k x) _ P Q (h x) imp

-- A program that keeps a property of the trace, whatever it is answered.
abbrev pub Keeps : {A : Type 0} → (Trace → Type 0) → Prog A → Type 0
Keeps P m = (tr : Trace) → P tr → Wp m tr (λ tr' _. P tr')

module _ {A B : Type 0} where
  pub Keeps-bind :
      (P : Trace → Type 0) (m : Prog A) (f : A → Prog B)
      → Keeps P m
      → ((a : A) → Keeps P (f a))
      → Keeps P (m >>= f)
  Keeps-bind P m f hm hf tr h =
      Wp-bind m f tr _ (Wp_mono m tr _ _ (hm tr h) (λ tr' a h'. hf a tr' h'))

module _ {A B : Type 0} where
  -- A program that keeps a property, and then one that starts from it.
  pub Keeps-then :
      (P Q : Trace → Type 0) (m : Prog A) (f : A → Prog B) (tr : Trace)
      → Keeps P m
      → P tr
      → ((tr' : Trace) (a : A) → P tr' → Wp (f a) tr' (λ tr'' _. Q tr''))
      → Wp (m >>= f) tr (λ tr' _. Q tr')
  Keeps-then P Q m f tr keeps h next =
      Wp-bind m f tr _ (Wp_mono m tr _ _ (keeps tr h) (λ tr' a h'. next tr' a h'))

module _ {A : Type 0} where
  pub Keeps-if :
      (P : Trace → Type 0) (b : Bool) (m n : Prog A)
      → Keeps P m
      → Keeps P n
      → Keeps P (if b then m else n)
  Keeps-if P true m n hm hn = hm
  Keeps-if P false m n hm hn = hn

module _ {A : Type 0} where
  -- Two properties of every run hold together.
  pub Wp_and :
      (m : Prog A) (tr : Trace) (P Q : Trace → A → Type 0)
      → Wp m tr P
      → Wp m tr Q
      → Wp m tr (λ tr' a. P tr' a × Q tr' a)
  Wp_and (ret a) tr P Q h k = (h, k)
  Wp_and (call o f) tr P Q h k = λ x. Wp_and (f x) _ P Q (h x) (k x)

module _ {A : Type 0} (P : A → Type 0) where
  -- A property of every result holds of the result of every run.
  pub Wp_always : (m : Prog A) (tr : Trace) → ((a : A) → P a) → Wp m tr (λ tr' a. P a)
  Wp_always (ret a) tr h = h a
  Wp_always (call o k) tr h = λ x. Wp_always (k x) _ h

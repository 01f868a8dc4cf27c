-- ===== src/Io/Stored.antt =====
-- Runs against a server that has one profile stored: its reads give that profile, and its writes
-- are accepted and change it. All other calls have any answer.
use hiro_adaptive_orchestrat.Base.{◌≡◌, String, ok, arith}
use hiro_adaptive_orchestrat.Types.{OrchestrationProfile}
use hiro_adaptive_orchestrat.Io.{Op, Answer, Prog, ret, call, ◌>>=◌}
use hiro_adaptive_orchestrat.Io.Closed.{Only}
use hiro_adaptive_orchestrat.Io.Effects.{LeavesStatus}

-- The profile that is stored after a call.
abbrev pub stored_after : OrchestrationProfile → Op → OrchestrationProfile
stored_after p (Op.update_status q) = q
stored_after p _ = p

-- The answers of the server: to the uncached read of this name the stored profile, and to a write
-- of a status what was written.
abbrev pub Undisturbed : String → OrchestrationProfile → (o : Op) → Answer o → Type 0
Undisturbed name p (Op.read_profile n) x = n ≡ name → x ≡ ok p
Undisturbed name p (Op.update_status q) x = x ≡ ok q
Undisturbed name p _ x = Unit

-- From the stored profile `p`, every run of the program ends in a stored profile and a result that
-- satisfy `Q`.
abbrev pub Runs :
    {A : Type 0}
    → String
    → Prog A
    → OrchestrationProfile
    → (OrchestrationProfile → A → Type 0)
    → Type 0
Runs name (ret a) p Q = Q p a
Runs name (call o k) p Q =
    (x : Answer o) → Undisturbed name p o x → Runs name (k x) (stored_after p o) Q

module _ {A B : Type 0} (name : String) where
  pub Runs-bind :
      (m : Prog A) (f : A → Prog B) (p : OrchestrationProfile)
      (Q : OrchestrationProfile → B → Type 0)
      → Runs name m p (λ p' a. Runs name (f a) p' Q)
      → Runs name (m >>= f) p Q
  Runs-bind (ret a) f p Q h = h
  Runs-bind (call o k) f p Q h = λ x u. Runs-bind (k x) f _ Q (h x u)

module _ {A : Type 0} (name : String) where
  pub Runs_mono :
      (m : Prog A) (p : OrchestrationProfile) (P Q : OrchestrationProfile → A → Type 0)
      → Runs name m p P
      → ((p' : OrchestrationProfile) (a : A) → P p' a → Q p' a)
      → Runs name m p Q
  Runs_mono (ret a) p P Q h imp = imp p a h
  Runs_mono (call o k) p P Q h imp = λ x u. Runs_mono (k x) _ P Q (h x u) imp

-- Every result of the program satisfies `P`.
abbrev pub Yields : {A : Type 0} → (A → Type 0) → Prog A → Type 0
Yields P (ret a) = P a
Yields {A} P (call o k) = (x : Answer o) → Yields P (k x)

module _ {A : Type 0} (P : A → Type 0) where
  pub Yields-always : (m : Prog A) → ((a : A) → P a) → Yields P m
  Yields-always (ret a) h = h a
  Yields-always (call o k) h = λ x. Yields-always (k x) h

module _ {A B : Type 0} (P : B → Type 0) where
  -- Only what ends a program decides on its results.
  pub Yields-bind : (m : Prog A) (f : A → Prog B) → ((a : A) → Yields P (f a)) → Yields P (m >>= f)
  Yields-bind (ret a) f h = h a
  Yields-bind (call o k) f h = λ x. Yields-bind (k x) f h

stored-same : (p : OrchestrationProfile) (o : Op) → LeavesStatus o → stored_after p o ≡ p
stored-same p o h = ground arith

module _ {A : Type 0} (name : String) (P : A → Type 0) where
  -- A program that writes no status leaves the stored profile.
  pub Only-Runs :
      (m : Prog A) (p : OrchestrationProfile) (Q : OrchestrationProfile → A → Type 0)
      → Only LeavesStatus A m
      → Yields P m
      → ((a : A) → P a → Q p a)
      → Runs name m p Q
  Only-Runs (ret a) p Q h yields imp = imp a yields
  Only-Runs (call o k) p Q h yields imp =
      λ x u. rw (stored-same p o h.0) (Only-Runs (k x) p Q (h.1 x) (yields x) imp)

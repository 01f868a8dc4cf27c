-- ===== src/Rebalance/Writer/Transition/Lawful.antt =====
-- Every status write of the writer is a transition from what it read.
use hiro_adaptive_orchestrat.Base.{
  clash, ℕ, zero, suc, ◌≡◌, refl, String, Bool, true, false, Option, none, some, [], ◌∷◌,
  if◌then◌else◌, Result, ok, err, Deps, is_conflict,
}
use hiro_adaptive_orchestrat.Types.{
  Time, RebalancingStateType, OrchestrationProfile, RebalancingStatus, RebalanceOutcome, triggered,
}
use hiro_adaptive_orchestrat.Io.{Op, Answer, Prog, ret, op}
use hiro_adaptive_orchestrat.Io.Effects.{LeavesStatus}
use hiro_adaptive_orchestrat.Io.Wp.{Trace, Wp, Keeps, Keeps-bind, Keeps-if, Wp-bind, Wp_mono}
use hiro_adaptive_orchestrat.Rebalance.State.{same_state}
use hiro_adaptive_orchestrat.Rebalance.Writer.{StateWriter, TransitionOptions, apply_transition}
use hiro_adaptive_orchestrat.Rebalance.Writer.Transition.{
  after_try, retry_on_conflict, emit_transition, draw_id, persist, transition_from,
  attempt_transition, transition,
}

abbrev read_of : (o : Op) → Answer o → Option OrchestrationProfile → Option OrchestrationProfile
read_of (Op.read_profile name) (ok p) old = some p
read_of _ _ old = old

-- The profile that the latest uncached read gave.
abbrev pub last_read : Trace → Option OrchestrationProfile
last_read [] = none
last_read (e ∷ tr) = read_of e.op e.answer (last_read tr)

-- The profile written is the one last read, after one accepted transition.
pub record IsLawfulWrite (f : Deps) (w : StateWriter) (tr : Trace) (q : OrchestrationProfile)
    : Type 0 where
  pub read : OrchestrationProfile
  pub was_read : last_read tr ≡ some read
  pub name : String
  pub now : Time
  pub id : String
  pub to : RebalancingStateType
  pub reason : String
  pub opts : TransitionOptions
  pub accepted : apply_transition f w name now id to reason opts read ≡ ok q

abbrev LawfulOp : Deps → StateWriter → Trace → Op → Type 0
LawfulOp f w tr (Op.update_status q) = IsLawfulWrite f w tr q
LawfulOp f w tr _ = Unit

-- All status writes of a trace are lawful.
abbrev pub Lawful : Deps → StateWriter → Trace → Type 0
Lawful f w [] = Unit
Lawful f w (e ∷ tr) = LawfulOp f w tr e.op × Lawful f w tr

-- Any call but a status write leaves a lawful trace lawful.
pub Lawful-other :
    (f : Deps) (w : StateWriter) (o : Op) (x : Answer o) (tr : Trace)
    → LeavesStatus o
    → Lawful f w tr
    → Lawful f w (record { op = o; answer = x } ∷ tr)
Lawful-other f w (Op.update_status q) x past h lawful = clash true refl h
Lawful-other f w _ x past h lawful = (tt, lawful)

after_try-Keeps :
    {A : Type 0} (P : Trace → Type 0) (again : Prog (Result A))
    → Keeps P again
    → (r : Result A) → Keeps P (after_try again r)
after_try-Keeps P again h (ok a) = λ tr p. p
after_try-Keeps P again h (err e) = Keeps-if P (is_conflict e) _ _ h (λ tr p. p)

retry_on_conflict-Keeps :
    {A : Type 0} (P : Trace → Type 0) (retries : ℕ) (body : Prog (Result A))
    → Keeps P body
    → Keeps P (retry_on_conflict retries body)
unfolding retry_on_conflict
retry_on_conflict-Keeps P zero body h = h
retry_on_conflict-Keeps P (suc retries) body h =
    Keeps-bind P body _ h (after_try-Keeps P _ (retry_on_conflict-Keeps P retries body h))

module _ (f : Deps) (w : StateWriter) (name : String) (to : RebalancingStateType) (reason : String)
    (opts : TransitionOptions) where
  emit_transition-Keeps :
      (from : RebalancingStateType) (o : RebalanceOutcome) (id : String)
      → Keeps (Lawful f w) (emit_transition w from to o reason id)
  unfolding emit_transition
  emit_transition-Keeps from o id = Keeps-if _ w.has_recorder _ _ (λ tr p x. (tt, p)) (λ tr p. p)

  persist-Wp :
      (from : RebalancingStateType) (q : OrchestrationProfile) (tr : Trace)
      → IsLawfulWrite f w tr q
      → Lawful f w tr
      → Wp (persist f w name to reason opts from q) tr (λ tr' _. Lawful f w tr')
  unfolding persist
  persist-Wp from q tr l h (ok q') =
      Keeps-bind (Lawful f w) _ _ (emit_transition-Keeps from opts.outcome _) (λ _ tr' p. p) _
        (l, h)
  persist-Wp from q tr l h (err e) = (l, h)

  settle :
      (p : OrchestrationProfile) (t : Time) (id : String) (tr : Trace)
      → last_read tr ≡ some p
      → Lawful f w tr
      → (r : Result OrchestrationProfile) → apply_transition f w name t id to reason opts p ≡ r
      → Wp
          (elim r [
            | err e ↦ ret (err e)
            | ok q ↦ persist f w name to reason opts p.status.rebalancing_status.state q
          ])
          tr
          (λ tr' (_ : Result RebalancingStatus). Lawful f w tr')
  settle p t id tr was h (err e) eq = h
  settle p t id tr was h (ok q) eq =
      persist-Wp _ q tr
        (record {
          read = p;
          was_read = was;
          name = name;
          now = t;
          id = id;
          to = to;
          reason = reason;
          opts = opts;
          accepted = eq;
        })
        h

  draw_id-Wp :
      (p : OrchestrationProfile) (tr : Trace)
      → last_read tr ≡ some p
      → Lawful f w tr
      → Wp (draw_id to) tr (λ tr' _. (last_read tr' ≡ some p) × Lawful f w tr')
  unfolding draw_id
  draw_id-Wp p tr was h = go (same_state to triggered)
    where
      go :
          (b : Bool)
          → Wp
              (if b then op Op.new_uuid else ret "")
              tr
              (λ tr' _. (last_read tr' ≡ some p) × Lawful f w tr')
      go true = λ id. (was, (tt, h))
      go false = (was, h)

  transition_from-Wp :
      (p : OrchestrationProfile) (tr : Trace)
      → last_read tr ≡ some p
      → Lawful f w tr
      → Wp (transition_from f w name to reason opts p) tr (λ tr' _. Lawful f w tr')
  unfolding transition_from
  transition_from-Wp p tr was h t = Wp-bind (draw_id to) _ _ _ (
      Wp_mono (draw_id to) _ _ _ (draw_id-Wp p _ was (tt, h))
        (λ tr' id k. settle p t id tr' k.0 k.1 _ refl))

  attempt_transition-Keeps : Keeps (Lawful f w) (attempt_transition f w name to reason opts)
  unfolding attempt_transition
  attempt_transition-Keeps tr h (ok p) = transition_from-Wp p _ refl (tt, h)
  attempt_transition-Keeps tr h (err e) = (tt, h)

  -- The writer's every status write, over every answer, is one accepted transition from the profile
  -- that it read last.
  pub transition-Keeps :
      (retries : ℕ) → Keeps (Lawful f w) (transition f w name to reason opts retries)
  unfolding transition
  transition-Keeps retries = retry_on_conflict-Keeps _ retries _ attempt_transition-Keeps

-- ===== src/Rebalance/Reconcile/Gates.antt =====
-- internal/rebalance/reconciler.go: what the gates of a reconcile keep out.
use native.Mathlib.Omega.{arith}
use hiro_adaptive_orchestrat.Base.{
  ℕ, ◌≡◌, ◌≢◌, refl, ◌||◌, not, ltb, leb, ℤ, pos, Bool, true, false, String, [], ◌∷◌, if◌then◌else◌,
  Result, ok, clash,
}
use hiro_adaptive_orchestrat.Types.{
  Time, Duration, OrchestrationProfile, RebalancingStateType, none_state, watching,
}
use hiro_adaptive_orchestrat.Io.{Op, Answer, ret, op}
use hiro_adaptive_orchestrat.Io.Wp.{Trace, Wp, Wp_mono}
use hiro_adaptive_orchestrat.Io.Closed.{
  Property, Only, Only-IsClosed, Keeping, Keeping-IsClosed, split_if,
}
use hiro_adaptive_orchestrat.Io.Effects.{
  IsBookkeeping, asks_agent, IsRead-IsBookkeeping, IsBookkeeping-asks,
}
use hiro_adaptive_orchestrat.Rebalance.Settings.{Reconciler}
use hiro_adaptive_orchestrat.Rebalance.Writer.Transition.Calls.{transition-Closed}
use hiro_adaptive_orchestrat.Rebalance.Enact.Closed.{ClosedReads}
use hiro_adaptive_orchestrat.Rebalance.Enact.Closed.Move.{retry_pending_schedule-Closed}
use hiro_adaptive_orchestrat.Rebalance.Dispatch.Closed.{ClosedTransitions}
use hiro_adaptive_orchestrat.Rebalance.Triggers.{TriggerResult}
use hiro_adaptive_orchestrat.Rebalance.Reconcile.{
  elapsed, is_in_flight, reconcile_profile, consult_unless_cooling, requeue_after, evaluate_with_ai,
}
use hiro_adaptive_orchestrat.Rebalance.Reconcile.Closed.{
  requeue_after-Closed, recover_stuck_cycle-Closed, evaluate_with_ai-Closed,
  reconcile_profile-Closed,
}
use hiro_adaptive_orchestrat.Rebalance.Reconcile.Enactors.{enactors_of}

or_true : (a b : Bool) → b ≡ true → (a || b) ≡ true
or_true a b h = ground arith

true_or : (a b : Bool) → a ≡ true → (a || b) ≡ true
true_or a b h = ground arith

not_before : (t u : ℕ) → ltb t u ≡ false → leb u t ≡ true
not_before t u h = ground arith

abbrev reads_clock : ℕ → (o : Op) → Answer o → Bool
reads_clock due Op.now t = leb due t
reads_clock due _ x = false

-- The clock was read at or after a time.
abbrev pub clock_reached : Time → Trace → Bool
clock_reached due [] = false
clock_reached due (e ∷ past) = reads_clock due e.op e.answer || clock_reached due past

abbrev IsTimely : Time → Trace → Op → Type 0
IsTimely due past (Op.call_agent req) = clock_reached due past ≡ true
IsTimely due past _ = Unit

-- The agent is asked only after the clock was read at or after a time.
abbrev pub AskedAfter : Time → Trace → Type 0
AskedAfter due [] = Unit
AskedAfter due (e ∷ past) = IsTimely due past e.op × AskedAfter due past

module _ (due : Time) where
  unasked :
      (o : Op) (x : Answer o) (past : Trace)
      → asks_agent o ≡ false
      → AskedAfter due past
      → AskedAfter due (record { op = o; answer = x } ∷ past)
  unasked (Op.call_agent req) x past h asked = clash true refl h
  unasked _ x past h asked = (tt, asked)

  -- Once the time is reached, anything goes.
  abbrev Reached : Trace → Type 0
  Reached past = (clock_reached due past ≡ true) × AskedAfter due past

  reached :
      (o : Op) (x : Answer o) (past : Trace)
      → Reached past
      → Reached (record { op = o; answer = x } ∷ past)
  reached (Op.call_agent req) x past h = (h.0, (h.0, h.1))
  reached Op.now x past h = (or_true (leb due x) _ h.0, (tt, h.1))
  reached _ x past h = (h.0, (tt, h.1))

  -- The clock says that the time has come.
  due_now :
      (t : Time) (past : Trace)
      → ltb t due ≡ false
      → AskedAfter due past
      → Reached (record { op = Op.now; answer = t } ∷ past)
  due_now t past late asked = (true_or (leb due t) _ (not_before t due late), (tt, asked))

flies : (s : RebalancingStateType) → s ≢ none_state → s ≢ watching → is_in_flight s ≡ true
flies s begun busy = ground arith

module _ (r : Reconciler) (threshold : ℤ) (key : String) (profile : OrchestrationProfile) where
  -- A profile that is not enabled, or that is escalated, leads to no call at all, and to no requeue.
  pub reconcile_profile-idle :
      (not profile.spec.rebalancing.enabled || profile.status.rebalancing_status.is_escalated)
        ≡ true
      → reconcile_profile r threshold key profile ≡ ret (ok (pos 0))
  unfolding reconcile_profile
  reconcile_profile-idle h = ground arith

  -- While a cycle is in flight, that is, in no state of rest, a reconcile makes no call but reads and the writer's own, over every
  -- answer: it asks no agent, and evicts, deletes, resizes and updates nothing.
  pub reconcile_profile-in_flight :
      profile.status.rebalancing_status.state ≢ none_state
      → profile.status.rebalancing_status.state ≢ watching
      → Only IsBookkeeping (Result Duration) (reconcile_profile r threshold key profile)
  unfolding reconcile_profile
  reconcile_profile-in_flight begun busy =
      let K = Only IsBookkeeping in
      let rs = profile.status.rebalancing_status in
      split_if K _ (not profile.spec.rebalancing.enabled) _ _ (λ _. tt)
        (λ _.
          split_if K _ rs.is_escalated _ _ (λ _. tt)
            (λ _.
              split_if K _ (is_in_flight rs.state) _ _
                (λ _.
                  requeue_after-Closed K (Only-IsClosed IsBookkeeping)
                    (λ o h. (IsRead-IsBookkeeping o h, λ x. tt)) r key
                    (λ to reason opts.
                      transition-Closed K (Only-IsClosed IsBookkeeping) (λ o h. (h, λ x. tt)) r.deps
                        r.writer key to reason opts r.retries)
                    _ _
                    (recover_stuck_cycle-Closed K (Only-IsClosed IsBookkeeping)
                      (λ o h. (IsRead-IsBookkeeping o h, λ x. tt)) r key
                      (λ to reason opts.
                        transition-Closed K (Only-IsClosed IsBookkeeping) (λ o h. (h, λ x. tt))
                          r.deps r.writer key to reason opts r.retries)
                      profile rs))
                (λ rests. clash _ (flies rs.state begun busy) rests)))

  -- The time at which the cooldown is over.
  abbrev due : Time
  due = profile.status.rebalancing_status.cooldown_until

  abbrev Asking : Property
  Asking = Keeping (AskedAfter due)

  abbrev Free : Property
  Free = Keeping (Reached due)

  free : (o : Op) → Free (Answer o) (op o)
  free o past h x = reached due o x past h

  quiet : (o : Op) → asks_agent o ≡ false → Asking (Answer o) (op o)
  quiet o h past asked x = unasked due o x past h asked

  quiet_reads : ClosedReads Asking
  quiet_reads o h = quiet o (IsBookkeeping-asks o (IsRead-IsBookkeeping o h))

  quiet_transitions : ClosedTransitions Asking r key
  quiet_transitions to reason opts =
      transition-Closed Asking (Keeping-IsClosed (AskedAfter due))
        (λ o h. quiet o (IsBookkeeping-asks o h)) r.deps r.writer key to reason opts r.retries

  free_transitions : ClosedTransitions Free r key
  free_transitions to reason opts =
      transition-Closed Free (Keeping-IsClosed (Reached due)) (λ o _. free o) r.deps r.writer key to
        reason opts r.retries

  proceed-Free :
      (result : TriggerResult)
      → Free
          (Result Duration)
          (requeue_after r.detection_interval (evaluate_with_ai r key profile result))
  proceed-Free result =
      requeue_after-Closed Free (Keeping-IsClosed (Reached due)) (λ o _. free o) r key
        free_transitions _ _
        (evaluate_with_ai-Closed Free (Keeping-IsClosed (Reached due)) (λ o _. free o) r key
          free_transitions profile (λ req. free (Op.call_agent req))
          (λ resp.
            enactors_of Free (Keeping-IsClosed (Reached due)) (λ o _. free o) r profile resp
              (λ o _. free o))
          result)

  clock_read :
      (result : TriggerResult) (t : Time) (past : Trace)
      → AskedAfter due past
      → (cooling : Bool) → ltb t due ≡ cooling
      → Wp
          (if cooling
            then ret (ok (elapsed t due))
            else requeue_after r.detection_interval (evaluate_with_ai r key profile result))
          (record { op = Op.now; answer = t } ∷ past)
          (λ past' _. AskedAfter due past')
  clock_read result t past asked true h = (tt, asked)
  clock_read result t past asked false h =
      Wp_mono (requeue_after r.detection_interval (evaluate_with_ai r key profile result)) _
        (λ past' _. Reached due past') _ (proceed-Free result _ (due_now due t past h asked))
        (λ past' _ h'. h'.1)

  consult-Asking :
      ltb 0 due ≡ true
      → (result : TriggerResult)
      → Asking (Result Duration) (consult_unless_cooling r threshold key profile result)
  unfolding consult_unless_cooling
  consult-Asking set result =
      split_if Asking _ (ltb 0 due) _ _ (λ _ past asked t. clock_read result t past asked _ refl)
        (λ unset. clash _ set unset)

  -- Where the profile has a cooldown, in every run of a reconcile of it, whatever its calls are
  -- answered, the agent is asked only after the clock was read at or after the cooldown's end.
  pub reconcile_profile-AskedAfter :
      ltb 0 profile.status.rebalancing_status.cooldown_until ≡ true
      → Wp
          (reconcile_profile r threshold key profile)
          []
          (λ past _. AskedAfter profile.status.rebalancing_status.cooldown_until past)
  reconcile_profile-AskedAfter set =
      reconcile_profile-Closed Asking (Keeping-IsClosed (AskedAfter due)) quiet_reads r key
        quiet_transitions threshold profile (consult-Asking set)
        (retry_pending_schedule-Closed Asking (Keeping-IsClosed (AskedAfter due)) quiet_reads
          (λ pod _. quiet (Op.delete_pod pod) refl) profile)
        [] tt

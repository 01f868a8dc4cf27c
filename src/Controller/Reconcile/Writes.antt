-- ===== src/Controller/Reconcile/Writes.antt =====
-- internal/controller/orchestrationprofile_controller.go: what a reconcile writes to a profile.
use hiro_adaptive_orchestrat.Base.{
  ◌≡◌, refl, ◌⊎◌, inl, inr, String, Bool, true, false, str_eq, List, [], ◌∷◌, Option, Result, ok,
  err, Deps, arith,
}
use hiro_adaptive_orchestrat.Types.{
  ApplicationReference, ProfileStatusType, unset, no_pods, partial, active, pending, degraded,
  error, OrchestrationProfileStatus, OrchestrationProfile,
}
use hiro_adaptive_orchestrat.Cluster.{Pod}
use hiro_adaptive_orchestrat.Io.{Op, Answer, op, ◌>>=◌}
use hiro_adaptive_orchestrat.Io.Wp.{Trace, Wp, Wp-bind, Wp_mono, Keeps}
use hiro_adaptive_orchestrat.Io.Closed.{Keeping, Keeping-IsClosed, split_if}
use hiro_adaptive_orchestrat.Io.Effects.{reads_only, IsRead}
use hiro_adaptive_orchestrat.Utils.{supported_kind, find_pods_for_application}
use hiro_adaptive_orchestrat.Utils.Closed.{ClosedReads, find_pods_for_application-Closed}
use hiro_adaptive_orchestrat.Controller.Status.{derive_profile_status}
use hiro_adaptive_orchestrat.Controller.Validation.{FieldError, validate_profile}
use hiro_adaptive_orchestrat.Controller.Reconcile.{
  status_text, requeue_on_conflict, emit_status_transition, emit_if_changed, update_status,
  as_error, as_error_without_pods, as_no_pods, as_placed, pods_error, lookup_error, not_found_text,
  application_exists, show_pods, show_application, show_checked, reconcile_found,
}

-- A read, or an Event.
abbrev is_quiet : Op → Bool
is_quiet (Op.emit_event warning reason message) = true
is_quiet o = reads_only o

-- Nothing but reads and Events so far.
abbrev pub Quiet : Trace → Type 0
Quiet [] = Unit
Quiet (e ∷ past) = (is_quiet e.op ≡ true) × Quiet past

-- The status that is shown is an error, or the one that its counts of pods give, and then the reason
-- is the old one.
abbrev pub Consistent : String → OrchestrationProfileStatus → Type 0
Consistent old_reason s =
    let ps = s.placement_status in
    (s.status ≡ error)
    ⊎ ((s.status
          ≡ derive_profile_status ps.observed_pods ps.ready_pods ps.failed_pods ps.pending_pods)
        × (s.reason ≡ old_reason))

none_derived : no_pods ≡ derive_profile_status 0 0 0 0
unfolding derive_profile_status
none_derived = refl

module _ (profile : OrchestrationProfile) where
  -- The profile, with another placement in its status.
  abbrev pub Shows : OrchestrationProfile → Type 0
  Shows q =
      (q.name ≡ profile.name)
      × ((q.spec ≡ profile.spec)
          × ((q.status.rebalancing_status ≡ profile.status.rebalancing_status)
              × Consistent profile.status.reason q.status))

  abbrev pub Last : (o : Op) → Answer o → Result Bool → Type 0
  Last (Op.update_status q) answer x = Shows q × (x ≡ requeue_on_conflict answer)
  Last _ answer x = ⊥

  -- One write, at the end, whose answer is the result.
  abbrev pub Written : Trace → Result Bool → Type 0
  Written [] x = ⊥
  Written (e ∷ past) x = Last e.op e.answer x × Quiet past

  one_read : (o : Op) → IsRead o → is_quiet o ≡ true
  one_read o h = ground arith

  all_reads : ClosedReads (Keeping Quiet)
  all_reads o read past quiet = λ x. (one_read o read, quiet)

  module _ (d : Deps) where
    emit-Quiet :
        (new : ProfileStatusType) (s : OrchestrationProfileStatus)
        → Keeps Quiet (emit_status_transition d new s)
    unfolding emit_status_transition
    emit-Quiet active s past quiet = λ x. (refl, quiet)
    emit-Quiet pending s past quiet = λ x. (refl, quiet)
    emit-Quiet no_pods s past quiet = λ x. (refl, quiet)
    emit-Quiet partial s past quiet = λ x. (refl, quiet)
    emit-Quiet degraded s past quiet = λ x. (refl, quiet)
    emit-Quiet error s past quiet = λ x. (refl, quiet)
    emit-Quiet unset s past quiet = quiet

    changed-Quiet : (old new : OrchestrationProfileStatus) → Keeps Quiet (emit_if_changed d old new)
    unfolding emit_if_changed
    changed-Quiet old new =
        split_if (Keeping Quiet) _ (str_eq (status_text new.status) (status_text old.status)) _ _
          (λ _ past quiet. quiet) (λ _. emit-Quiet new.status new)

    -- A change that leaves the rebalancing status, and shows what the counts give.
    abbrev Fair : (OrchestrationProfileStatus → OrchestrationProfileStatus) → Type 0
    Fair mutate =
        ((mutate profile.status).rebalancing_status ≡ profile.status.rebalancing_status)
        × Consistent profile.status.reason (mutate profile.status)

    update_status-Written :
        (mutate : OrchestrationProfileStatus → OrchestrationProfileStatus)
        → Fair mutate
        → (past : Trace) → Quiet past
        → Wp (update_status d profile mutate) past Written
    unfolding update_status
    update_status-Written mutate fair past quiet now =
        let new = record (mutate profile.status) { last_updated_time = now } in
        Wp-bind (emit_if_changed d profile.status new) _ _ Written (
          Wp_mono (emit_if_changed d profile.status new) _ (λ past' x. Quiet past') _
            (changed-Quiet profile.status new _ (refl, quiet))
            (λ past' x quiet' answer. (((refl, (refl, fair)), refl), quiet')))

    -- An Event before it.
    announced-Written :
        (mutate : OrchestrationProfileStatus → OrchestrationProfileStatus)
        → Fair mutate
        → (warning : Bool) (reason message : String) (past : Trace) → Quiet past
        → Wp
            (op (Op.emit_event warning reason message) >>= (λ done. update_status d profile mutate))
            past
            Written
    announced-Written mutate fair warning reason message past quiet x =
        update_status-Written mutate fair
          (record { op = Op.emit_event warning reason message; answer = x } ∷ past) (refl, quiet)

    module _ (group_version_error : String → Option String)
        (aggregate : List FieldError → String) where
      show_pods-Written :
          (found : Result (List Pod)) (past : Trace)
          → Quiet past
          → Wp (show_pods d group_version_error aggregate profile found) past Written
      unfolding show_pods
      show_pods-Written (err e) past quiet =
          announced-Written
            (as_error d group_version_error aggregate profile
              (pods_error d group_version_error aggregate profile e))
            (refl, inl refl) true "PodDiscoveryFailed" _ past quiet
      show_pods-Written (ok pods) past quiet =
          update_status-Written (as_placed d group_version_error aggregate profile pods)
            (refl, inr (refl, refl)) past quiet

      show_application-Written :
          (there : Result Bool) (past : Trace)
          → Quiet past
          → Wp (show_application d group_version_error aggregate profile there) past Written
      unfolding show_application
      show_application-Written (err e) past quiet =
          announced-Written
            (as_error_without_pods d group_version_error aggregate profile
              (lookup_error d group_version_error aggregate profile e))
            (refl, inl refl) true "ApplicationLookupError" _ past quiet
      show_application-Written (ok false) past quiet =
          announced-Written (as_no_pods d group_version_error aggregate profile)
            (refl, inr (none_derived, refl)) false "ApplicationNotFound"
            (not_found_text d group_version_error aggregate profile) past quiet
      show_application-Written (ok true) past quiet =
          Wp-bind (find_pods_for_application profile.spec.application_ref) _ past Written (
            Wp_mono (find_pods_for_application profile.spec.application_ref) past _ _
              (find_pods_for_application-Closed (Keeping Quiet) (Keeping-IsClosed Quiet) all_reads
                profile.spec.application_ref past quiet)
              (λ past' found quiet'. show_pods-Written found past' quiet'))

      exists-Quiet : (ref : ApplicationReference) → Keeps Quiet (application_exists d ref)
      unfolding application_exists
      exists-Quiet ref =
          split_if (Keeping Quiet) _ (supported_kind ref.kind) _ _ (λ _ past quiet x. (refl, quiet))
            (λ _ past quiet. quiet)

      show_checked-Written :
          (errors : List FieldError) (past : Trace)
          → Quiet past
          → Wp (show_checked d group_version_error aggregate profile errors) past Written
      unfolding show_checked
      show_checked-Written [] past quiet =
          Wp-bind (application_exists d profile.spec.application_ref) _ past Written (
            Wp_mono (application_exists d profile.spec.application_ref) past _ _
              (exists-Quiet profile.spec.application_ref past quiet)
              (λ past' there quiet'. show_application-Written there past' quiet'))
      show_checked-Written (e ∷ es) past quiet =
          announced-Written
            (as_error_without_pods d group_version_error aggregate profile (aggregate (e ∷ es)))
            (refl, inl refl) true "ValidationFailed" _ past quiet

      -- In every run of a reconcile of a profile that was found, whatever its calls are answered, the
      -- controller of profiles makes exactly one write, after nothing but reads and Events: of this
      -- profile, with its name, its spec and its rebalancing status as they were, and with a status
      -- that is Error, or else the one that the counts of pods written with it give, the reason as it
      -- was. Its result is the write's: a conflict queues the profile again, any other error is the result.
      pub reconcile_found-Written :
          Wp (reconcile_found d group_version_error aggregate profile) [] Written
      unfolding reconcile_found
      reconcile_found-Written =
          show_checked-Written (validate_profile d group_version_error profile) [] tt

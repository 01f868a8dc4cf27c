-- ===== src/Controller/Reconcile.antt =====
-- internal/controller/orchestrationprofile_controller.go, op_status.go and op_pod_discovery.go: one
-- reconcile of a profile by the controller of profiles.
pub mod Writes
use hiro_adaptive_orchestrat.Base.{
  ℕ, String, ◌<>◌, Bool, true, false, not, str_eq, if◌then◌else◌, List, [], ◌∷◌, Option, ℤ, pos,
  Result, Error, ok, err, wrap, is_conflict, is_not_found, Deps,
}
use hiro_adaptive_orchestrat.Types.{
  ApplicationReference, PlacementStatus, ProfileStatusType, unset, no_pods, partial, active,
  pending, degraded, error, OrchestrationProfileStatus, OrchestrationProfile,
}
use hiro_adaptive_orchestrat.Cluster.{Pod, Workload}
use hiro_adaptive_orchestrat.Io.{Op, Prog, ret, op, ◌>>=◌, ◌>>◌}
use hiro_adaptive_orchestrat.Utils.{supported_kind, app_text, find_pods_for_application}
use hiro_adaptive_orchestrat.Controller.Status.{build_placement_status, derive_profile_status}
use hiro_adaptive_orchestrat.Controller.Validation.{FieldError, validate_profile}

-- The text of a status.
abbrev pub status_text : ProfileStatusType → String
status_text unset = ""
status_text no_pods = "NoPods"
status_text partial = "Partial"
status_text active = "Active"
status_text pending = "Pending"
status_text degraded = "Degraded"
status_text error = "Error"

-- `Status().Update`'s answer: on a conflict the profile is queued again.
abbrev pub requeue_on_conflict : Result OrchestrationProfile → Result Bool
requeue_on_conflict (ok q) = ok false
requeue_on_conflict (err e) = if is_conflict e then ok true else err e

module _ (d : Deps) where
  abbrev count : ℕ → String
  count n = d.int (pos n)

  -- `emitStatusTransitionEvent`
  unfoldable pub emit_status_transition :
      ProfileStatusType → OrchestrationProfileStatus → Prog (Unit {0})
  emit_status_transition active s =
      let ps = s.placement_status in
      op (
        Op.emit_event false "PlacementActive" (
          "All "
          <> count ps.ready_pods
          <> " pod(s) are running and ready ("
          <> ps.strategy
          <> " strategy)"))
  emit_status_transition pending s =
      let ps = s.placement_status in
      op (
        Op.emit_event false "PlacementPending" (
          count ps.pending_pods
          <> " pod(s) are still being scheduled ("
          <> ps.strategy
          <> " strategy)"))
  emit_status_transition no_pods s = op (
      Op.emit_event false "ApplicationNoPods"
        ("Application has no pods yet (" <> s.placement_status.strategy <> " strategy)"))
  emit_status_transition partial s =
      let ps = s.placement_status in
      op (
        Op.emit_event true "PlacementPartial" (
          count ps.ready_pods
          <> "/"
          <> count ps.observed_pods
          <> " pod(s) ready, "
          <> count ps.pending_pods
          <> " pending, "
          <> count ps.failed_pods
          <> " failed ("
          <> ps.strategy
          <> " strategy)"))
  emit_status_transition degraded s =
      let ps = s.placement_status in
      op (
        Op.emit_event true "PlacementDegraded" (
          count ps.failed_pods
          <> " pod(s) failed out of "
          <> count ps.observed_pods
          <> " observed ("
          <> ps.strategy
          <> " strategy)"))
  emit_status_transition error s =
      op (Op.emit_event true "PlacementError" ("Profile entered error state: " <> s.reason))
  emit_status_transition unset s = ret tt

  -- An Event only where the status changes.
  unfoldable pub emit_if_changed :
      OrchestrationProfileStatus → OrchestrationProfileStatus → Prog (Unit {0})
  unfolding emit_status_transition
  emit_if_changed old new =
      if str_eq (status_text new.status) (status_text old.status)
      then ret tt
      else emit_status_transition new.status new

  -- `updateStatus`
  unfoldable pub update_status :
      OrchestrationProfile
      → (OrchestrationProfileStatus → OrchestrationProfileStatus)
      → Prog (Result Bool)
  unfolding emit_if_changed
  update_status profile mutate = op Op.now >>= λ now.
      let new = record (mutate profile.status) { last_updated_time = now } in
      emit_if_changed profile.status new >>= (λ done.
        op (Op.update_status (record profile { status = new }))
        >>= (λ answer. ret (requeue_on_conflict answer)))

  -- `applicationExists`, from the answer of the server on.
  abbrev pub existence : ApplicationReference → Result Workload → Result Bool
  existence ref (ok w) = ok true
  existence ref (err e) =
      if is_not_found e
      then ok false
      else err (wrap ("checking existence of " <> ref.kind <> " " <> app_text ref) e)

  -- `applicationExists`
  unfoldable pub application_exists : ApplicationReference → Prog (Result Bool)
  application_exists ref =
      if supported_kind ref.kind
      then op (Op.get_workload ref.kind ref.namespace ref.name) >>= (λ r. ret (existence ref r))
      else ret (ok false)

  module _ (group_version_error : String → Option String) (aggregate : List FieldError → String)
      (profile : OrchestrationProfile) where
    abbrev ref : ApplicationReference
    ref = profile.spec.application_ref

    -- A placement status without pods.
    abbrev no_placement : PlacementStatus
    no_placement = record {
      strategy = profile.spec.placement.strategy;
      observed_pods = 0;
      ready_pods = 0;
      pending_pods = 0;
      failed_pods = 0;
      pod_statuses = [];
    }

    -- The changes of the status.
    abbrev pub as_error : String → OrchestrationProfileStatus → OrchestrationProfileStatus
    as_error message s = record s { status = error; reason = message }

    abbrev pub as_error_without_pods :
        String → OrchestrationProfileStatus → OrchestrationProfileStatus
    as_error_without_pods message s = record s {
      status = error;
      reason = message;
      placement_status = no_placement;
    }

    abbrev pub as_no_pods : OrchestrationProfileStatus → OrchestrationProfileStatus
    as_no_pods s = record s { status = no_pods; placement_status = no_placement }

    abbrev pub as_placed : List Pod → OrchestrationProfileStatus → OrchestrationProfileStatus
    as_placed pods s =
        let ps = build_placement_status profile pods in
        record s {
          status =
              derive_profile_status ps.observed_pods ps.ready_pods ps.failed_pods ps.pending_pods;
          placement_status = ps;
        }

    -- An Event, and a change of the status.
    abbrev pub announce :
        Bool
        → String
        → String
        → (OrchestrationProfileStatus → OrchestrationProfileStatus)
        → Prog (Result Bool)
    announce warning event message mutate =
        op (Op.emit_event warning event message) >>= (λ done. update_status profile mutate)

    abbrev pub pods_error : Error → String
    pods_error e = "error finding pods for " <> ref.kind <> " " <> app_text ref <> ": " <> e.message

    abbrev pub lookup_error : Error → String
    lookup_error e = "error checking " <> ref.kind <> " " <> app_text ref <> ": " <> e.message

    abbrev pub not_found_text : String
    not_found_text =
        "Referenced "
        <> ref.kind
        <> " "
        <> app_text ref
        <> " not found, waiting for it to be created"

    -- From the pods on.
    unfoldable pub show_pods : Result (List Pod) → Prog (Result Bool)
    unfolding update_status
    show_pods (err e) = announce true "PodDiscoveryFailed" (pods_error e) (as_error (pods_error e))
    show_pods (ok pods) = update_status profile (as_placed pods)

    -- From the existence of the application on.
    unfoldable pub show_application : Result Bool → Prog (Result Bool)
    unfolding show_pods update_status
    show_application (err e) =
        announce true "ApplicationLookupError" (lookup_error e)
          (as_error_without_pods (lookup_error e))
    show_application (ok true) = find_pods_for_application ref >>= show_pods
    show_application (ok false) = announce false "ApplicationNotFound" not_found_text as_no_pods

    -- From the errors of the spec on.
    unfoldable pub show_checked : List FieldError → Prog (Result Bool)
    unfolding show_application application_exists update_status
    show_checked [] = application_exists ref >>= show_application
    show_checked (e ∷ es) =
        announce true "ValidationFailed" (aggregate (e ∷ es))
          (as_error_without_pods (aggregate (e ∷ es)))

    unfoldable pub reconcile_found : Prog (Result Bool)
    unfolding show_checked
    reconcile_found = show_checked (validate_profile d group_version_error profile)

  -- `Reconcile`: whether to queue the profile again.
  unfoldable pub reconcile :
      (String → Option String) → (List FieldError → String) → String → Prog (Result Bool)
  unfolding reconcile_found
  reconcile group_version_error aggregate key = op (Op.get_profile key) >>= λ got. elim got [
    | err e ↦ ret (if is_not_found e then ok false else err e)
    | ok profile ↦ reconcile_found group_version_error aggregate profile
  ]

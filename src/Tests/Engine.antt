-- ===== src/Tests/Engine.antt =====
-- The theorems on the reconcile of internal/rebalance, at concrete data.
use hiro_adaptive_orchestrat.Base.{◌≡◌, ◌≢◌, ◌↔◌, ◌≤◌, refl, pos, arith, [], Result}
use hiro_adaptive_orchestrat.Types.{Duration, watching, enacting, none_state}
use hiro_adaptive_orchestrat.Io.Wp.{Wp}
use hiro_adaptive_orchestrat.Io.Closed.{Only}
use hiro_adaptive_orchestrat.Io.Effects.{IsBookkeeping}
use hiro_adaptive_orchestrat.Rebalance.Writer.Transition.Lawful.{Lawful}
use hiro_adaptive_orchestrat.Rebalance.Reconcile.{dispatch_decision, reconcile_profile, reconcile}
use hiro_adaptive_orchestrat.Rebalance.Reconcile.Gates.{
  AskedAfter, reconcile_profile-in_flight, reconcile_profile-AskedAfter,
}
use hiro_adaptive_orchestrat.Rebalance.Reconcile.Safety.{
  IsDryRunCall, dispatch_decision-dry_run, dispatch_decision-below_threshold,
  reconcile_profile-dry_run,
}
use hiro_adaptive_orchestrat.Rebalance.Reconcile.Permitted.{Permitted}
use hiro_adaptive_orchestrat.Rebalance.Reconcile.Writes.{reconcile-Lawful}
use hiro_adaptive_orchestrat.Rebalance.Dispatch.Scale.{dispatch_scale}
use hiro_adaptive_orchestrat.Rebalance.Dispatch.Bounds.{Bounded, dispatch_scale-Bounded}
use hiro_adaptive_orchestrat.Io.{RebalanceDecisionResponse}
use hiro_adaptive_orchestrat.Types.{RebalanceAction}
use hiro_adaptive_orchestrat.Rebalance.Dispatch.{cooldown_of}
use hiro_adaptive_orchestrat.Rebalance.Dispatch.Cooldown.{cooldown_of-pos}
use hiro_adaptive_orchestrat.Types.{OrchestrationProfile}
use hiro_adaptive_orchestrat.Base.{ltb_ℤ, true, arith, ◌*◌}
use hiro_adaptive_orchestrat.Rebalance.Settings.{second}
use hiro_adaptive_orchestrat.Tests.Data.{
  move_answer, deps, writer, engine, profile, dry, flying, cooling, move_answer, weak_answer,
}

reconcile-Lawful_example :
    Wp (reconcile engine (pos 9) "shop") [] (λ past _. Lawful deps writer past)
reconcile-Lawful_example = reconcile-Lawful engine "shop" (pos 9)

dispatch_decision-dry_run_example :
    Only IsBookkeeping (Unit {0}) (dispatch_decision engine "shop" dry move_answer)
dispatch_decision-dry_run_example = dispatch_decision-dry_run engine "shop" dry move_answer refl

dispatch_decision-below_threshold_example :
    Only IsBookkeeping (Unit {0}) (dispatch_decision engine "shop" profile weak_answer)
dispatch_decision-below_threshold_example =
    dispatch_decision-below_threshold engine "shop" profile weak_answer refl

reconcile_profile-dry_run_example :
    Only IsDryRunCall (Result Duration) (reconcile_profile engine (pos 9) "shop" dry)
reconcile_profile-dry_run_example = reconcile_profile-dry_run engine "shop" dry (pos 9) refl

enacting-none : enacting ≢ none_state
enacting-none = ground arith

enacting-watching : enacting ≢ watching
enacting-watching = ground arith

reconcile_profile-in_flight_example :
    Only IsBookkeeping (Result Duration) (reconcile_profile engine (pos 9) "shop" flying)
reconcile_profile-in_flight_example =
    reconcile_profile-in_flight engine (pos 9) "shop" flying enacting-none enacting-watching

reconcile_profile-AskedAfter_example :
    Wp (reconcile_profile engine (pos 9) "shop" cooling) [] (λ past _. AskedAfter 90 past)
reconcile_profile-AskedAfter_example =
    reconcile_profile-AskedAfter engine (pos 9) "shop" cooling refl

-- An answer that asks for nine replicas.
abbrev many : RebalanceDecisionResponse
many = record move_answer { action = RebalanceAction.adjust_replicas; target_replicas = pos 9 }

dispatch_scale-Bounded_example :
    Wp
      (dispatch_scale engine "shop" profile many (pos 60))
      []
      (λ past _. Bounded engine profile many past)
dispatch_scale-Bounded_example = dispatch_scale-Bounded engine profile many "shop" (pos 60)

abbrev forever : OrchestrationProfile
forever = record profile {
  spec = record (profile.spec) {
    rebalancing = record (profile.spec.rebalancing) { cooldown_seconds = pos 9223372037 };
  };
}

cooldown_of-pos_example :
    (cooldown_of forever ≡ pos (9223372037 * second)) ↔ (9223372037 ≤ 9223372036)
cooldown_of-pos_example = cooldown_of-pos forever 9223372037 refl

-- One second more than an int64 holds in nanoseconds is a negative cooldown.
overflow : ltb_ℤ (cooldown_of forever) (pos 0) ≡ true
overflow = refl

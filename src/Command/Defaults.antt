-- ===== src/Command/Defaults.antt =====
-- cmd/main.go: the defaults that main fills in are those of the constructors.
use hiro_adaptive_orchestrat.Base.{
  ℕ, ◌≡◌, refl, ap, true, false, if◌then◌else◌, is_empty, Bool-cases, inl, inr, leb, ltb, leb_ℤ, ℤ,
  pos, negsuc, Result, ok, err, failure, Deps, arith,
}
use mathlib.Core.Path.{fun_ext}
use hiro_adaptive_orchestrat.Placement.Store.{new_decision_store, default_decision_store_ttl}
use hiro_adaptive_orchestrat.Rebalance.Writer.{new_state_writer, default_max_recent_decisions}
use hiro_adaptive_orchestrat.Rebalance.Setup.{
  default_detection_interval, default_decision_timeout, new_reconciler,
}
use hiro_adaptive_orchestrat.Rebalance.Settings.{
  positive_or, default_improvement_threshold, default_watchdog_stale_threshold,
  default_min_replicas, default_max_replicas,
}
use hiro_adaptive_orchestrat.Rebalance.Enact.Move.{default_move_action_timeout}
use hiro_adaptive_orchestrat.Rebalance.Enact.Scale.{default_scale_action_timeout}
use hiro_adaptive_orchestrat.Rebalance.Enact.Resource.{default_resource_action_timeout, is_zero}
use hiro_adaptive_orchestrat.Rebalance.Enact.Resource.Bounds.{
  or_default, default_min_cpu, default_max_cpu, default_min_memory, default_max_memory,
}
use hiro_adaptive_orchestrat.Command.{
  Parsers, Environ, ◌>>=◌, EngineSettings, Operator, Texts, read_settings, fill_defaults, texts_of,
  default_node_pressure_threshold, default_move_rate_limit, build_operator, start,
}

-- A start that leaves all defaults to the constructors.
abbrev pub start_plainly : Parsers → Deps → ℕ → Environ → Result Operator
start_plainly p d retries env =
    if is_empty (env "DECISION_AGENT_URL")
    then err (failure "DECISION_AGENT_URL environment variable is required")
    else (read_settings p env >>= λ settings. ok (build_operator d retries (texts_of env) settings))

-- A positive default is filled in once.
positive_or_twice :
    (default x : ℤ)
    → leb_ℤ default (pos 0) ≡ false
    → positive_or default (positive_or default x) ≡ positive_or default x
positive_or_twice default x h = ground arith

or_default_twice :
    (default x : ℤ)
    → is_zero default ≡ false
    → or_default default (or_default default x) ≡ or_default default x
or_default_twice default x h = ground arith

none_above : (n : ℕ) → leb n 0 ≡ true → ltb 0 n ≡ false
none_above n h = ground arith

filled_store :
    (x : ℤ)
    → new_decision_store (positive_or (pos default_decision_store_ttl) x) ≡ new_decision_store x
unfolding new_decision_store
filled_store (pos n) = elim (Bool-cases (leb n 0)) [
  | inl h ↦ rw (h, none_above n h) refl
  | inr h ↦ rw h refl
]
filled_store (negsuc k) = refl

filled_writer :
    (x : ℤ)
    → new_state_writer true (positive_or (pos default_max_recent_decisions) x)
      ≡ new_state_writer true x
unfolding new_state_writer
filled_writer (pos n) = elim (Bool-cases (leb n 0)) [
  | inl h ↦ rw (h, none_above n h) refl
  | inr h ↦ rw h refl
]
filled_writer (negsuc k) = refl

build_operator_filled :
    (d : Deps) (retries : ℕ) (texts : Texts) (s : EngineSettings)
    → build_operator d retries texts (fill_defaults s) ≡ build_operator d retries texts s
unfolding build_operator fill_defaults new_reconciler
build_operator_filled d retries texts s =
    rw
      (
        filled_store s.decision_store_ttl,
        filled_writer s.max_recent_decisions,
        positive_or_twice default_detection_interval s.detection_interval refl,
        positive_or_twice default_decision_timeout s.decision_timeout refl,
        positive_or_twice default_node_pressure_threshold s.node_pressure_threshold refl,
        positive_or_twice default_improvement_threshold s.improvement_threshold refl,
        positive_or_twice default_move_action_timeout s.move_action_timeout refl,
        positive_or_twice default_move_rate_limit s.move_rate_limit refl,
        positive_or_twice default_scale_action_timeout s.scale_action_timeout refl,
        positive_or_twice default_min_replicas s.min_replicas refl,
        positive_or_twice default_max_replicas s.max_replicas refl,
        positive_or_twice default_resource_action_timeout s.resource_action_timeout refl,
        or_default_twice default_min_cpu s.min_cpu refl,
        or_default_twice default_max_cpu s.max_cpu refl,
        or_default_twice default_min_memory s.min_memory refl,
        or_default_twice default_max_memory s.max_memory refl,
        positive_or_twice default_watchdog_stale_threshold s.watchdog_stale_threshold refl,
      )
      refl

-- The operator that main starts is the one that its constructors would make of the variables alone:
-- each default that main fills in is the constructor's own.
pub start-plainly :
    (p : Parsers) (d : Deps) (retries : ℕ) (env : Environ)
    → start p d retries env ≡ start_plainly p d retries env
unfolding start
start-plainly p d retries env =
    ap
      (λ (make : EngineSettings → Operator).
        if is_empty (env "DECISION_AGENT_URL")
        then err (failure "DECISION_AGENT_URL environment variable is required")
        else (read_settings p env >>= λ settings. ok (make settings)))
      (fun_ext (build_operator_filled d retries (texts_of env)))

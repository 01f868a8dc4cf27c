-- ===== src/Rebalance/Setup.antt =====
-- internal/rebalance/reconciler.go: a reconciler with the defaults for what is not configured.
use hiro_adaptive_orchestrat.Base.{ℕ, ◌*◌, ℤ, pos, Deps}
use hiro_adaptive_orchestrat.Types.{Duration}
use hiro_adaptive_orchestrat.Cluster.{Quantity}
use hiro_adaptive_orchestrat.Placement.Client.{DecisionClient}
use hiro_adaptive_orchestrat.Rebalance.Writer.{StateWriter}
use hiro_adaptive_orchestrat.Rebalance.Settings.{
  Reconciler, second, positive_or, default_improvement_threshold, default_move_rate_wait_timeout,
  default_watchdog_stale_threshold, default_min_replicas, default_max_replicas,
}
use hiro_adaptive_orchestrat.Rebalance.Enact.Move.{default_move_action_timeout}
use hiro_adaptive_orchestrat.Rebalance.Enact.Scale.{default_scale_action_timeout}
use hiro_adaptive_orchestrat.Rebalance.Enact.Resource.{default_resource_action_timeout}
use hiro_adaptive_orchestrat.Rebalance.Enact.Resource.Bounds.{
  or_default, default_min_cpu, default_max_cpu, default_min_memory, default_max_memory,
}

abbrev pub default_detection_interval : Duration
default_detection_interval = pos (30 * second)

abbrev pub default_decision_timeout : Duration
default_decision_timeout = pos (5 * second)

-- `NewReconciler`, but for the rate of its limiter.
unfoldable pub new_reconciler :
    Deps
    → StateWriter
    → ℕ
    → Duration
    → DecisionClient
    → Duration
    → ℤ
    → Duration
    → Duration
    → ℤ
    → ℤ
    → Duration
    → Quantity
    → Quantity
    → Quantity
    → Quantity
    → Duration
    → Reconciler
new_reconciler d writer retries interval client decision threshold move scale min_replicas
      max_replicas resource min_cpu max_cpu min_memory max_memory stale =
    record {
      deps = d;
      writer = writer;
      decision_client = client;
      retries = retries;
      detection_interval = positive_or default_detection_interval interval;
      decision_timeout = positive_or default_decision_timeout decision;
      improvement_threshold = positive_or default_improvement_threshold threshold;
      move_rate_wait_timeout = default_move_rate_wait_timeout;
      move_action_timeout = positive_or default_move_action_timeout move;
      scale_action_timeout = positive_or default_scale_action_timeout scale;
      min_replicas = positive_or default_min_replicas min_replicas;
      max_replicas = positive_or default_max_replicas max_replicas;
      resource_action_timeout = positive_or default_resource_action_timeout resource;
      min_cpu = or_default default_min_cpu min_cpu;
      max_cpu = or_default default_max_cpu max_cpu;
      min_memory = or_default default_min_memory min_memory;
      max_memory = or_default default_max_memory max_memory;
      watchdog_stale_threshold = positive_or default_watchdog_stale_threshold stale;
    }

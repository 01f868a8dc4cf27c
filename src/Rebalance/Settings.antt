-- ===== src/Rebalance/Settings.antt =====
-- internal/rebalance/reconciler.go: the engine's settings and their defaults.
use hiro_adaptive_orchestrat.Base.{ℕ, ◌*◌, ℤ, pos, float_of, leb_ℤ, if◌then◌else◌, Deps}
use hiro_adaptive_orchestrat.Types.{Duration}
use hiro_adaptive_orchestrat.Cluster.{Quantity}
use hiro_adaptive_orchestrat.Rebalance.Writer.{StateWriter}
use hiro_adaptive_orchestrat.Placement.Client.{DecisionClient}

-- `Reconciler`. `retries` is the number of tries after the first that the backoff of the writer's
-- retry loop allows; `improvement_threshold` is a float64 in units of 2 ^ -1074.
pub record Reconciler : Type 0 where
  pub deps : Deps
  pub writer : StateWriter
  pub decision_client : DecisionClient
  pub retries : ℕ
  pub detection_interval : Duration
  pub decision_timeout : Duration
  pub improvement_threshold : ℤ
  pub move_rate_wait_timeout : Duration
  pub move_action_timeout : Duration
  pub scale_action_timeout : Duration
  pub min_replicas : ℤ
  pub max_replicas : ℤ
  pub resource_action_timeout : Duration
  pub min_cpu : Quantity
  pub max_cpu : Quantity
  pub min_memory : Quantity
  pub max_memory : Quantity
  pub watchdog_stale_threshold : Duration

abbrev pub second : ℕ
second = 1000000000

abbrev pub default_improvement_threshold : ℤ
default_improvement_threshold = float_of 20

abbrev pub default_move_rate_wait_timeout : Duration
default_move_rate_wait_timeout = pos (300 * second)

abbrev pub default_watchdog_stale_threshold : Duration
default_watchdog_stale_threshold = pos (900 * second)

abbrev pub default_min_replicas : ℤ
default_min_replicas = pos 1

abbrev pub default_max_replicas : ℤ
default_max_replicas = pos 10

-- `if x <= 0 { x = def }`
abbrev pub positive_or : ℤ → ℤ → ℤ
positive_or default x = if leb_ℤ x (pos 0) then default else x

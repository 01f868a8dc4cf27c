-- ===== src/Command.antt =====
-- cmd/main.go: the environment that the operator is started with, and what is made of it. A start
-- that exits the process is an error; the manager, the flags and the listening are left out.
pub mod Environment
pub mod Defaults
use hiro_adaptive_orchestrat.Base.{
  ℕ, ◌*◌, ◌^◌, ◌%◌, ◌-◌, suc, ltb, String, ◌<>◌, Bool, true, not, str_eq, is_empty, if◌then◌else◌,
  ℤ, pos, negsuc, some, Result, Error, ok, err, wrap, failure, Deps,
}
use hiro_adaptive_orchestrat.Types.{Duration}
use hiro_adaptive_orchestrat.Cluster.{Quantity}
use hiro_adaptive_orchestrat.Placement.Client.{DecisionClient}
use hiro_adaptive_orchestrat.Placement.Store.{new_decision_store, default_decision_store_ttl}
use hiro_adaptive_orchestrat.Placement.Server.{PlacementServer, new_placement_server}
use hiro_adaptive_orchestrat.Rebalance.Writer.{new_state_writer, default_max_recent_decisions}
use hiro_adaptive_orchestrat.Rebalance.Settings.{
  Reconciler, second, positive_or, default_improvement_threshold, default_watchdog_stale_threshold,
  default_min_replicas, default_max_replicas,
}
use hiro_adaptive_orchestrat.Rebalance.Setup.{
  default_detection_interval, default_decision_timeout, new_reconciler,
}
use hiro_adaptive_orchestrat.Rebalance.Enact.Move.{default_move_action_timeout}
use hiro_adaptive_orchestrat.Rebalance.Enact.Scale.{default_scale_action_timeout}
use hiro_adaptive_orchestrat.Rebalance.Enact.Resource.{default_resource_action_timeout}
use hiro_adaptive_orchestrat.Rebalance.Enact.Resource.Bounds.{
  or_default, default_min_cpu, default_max_cpu, default_min_memory, default_max_memory,
}

-- The parsers of Go and Kubernetes: `time.ParseDuration`, `strconv.ParseFloat` (a finite float64 as
-- the number of units of 2 ^ -1074 that it is), `strconv.Atoi` and `resource.ParseQuantity`.
pub record Parsers : Type 0 where
  pub duration : String → Result Duration
  pub float : String → Result ℤ
  pub int : String → Result ℤ
  pub quantity : String → Result Quantity

-- `os.Getenv`: the empty text for what is not set.
abbrev pub Environ : Type 0
Environ = String → String

infixl 5 ◌>>=◌
abbrev pub ◌>>=◌ : {A B : Type 0} → Result A → (A → Result B) → Result B
ok a >>= f = f a
err e >>= f = err e

-- An invalid value exits the process; the empty text is the zero value.
abbrev pub parse_env : {A : Type 0} → String → A → (String → Result A) → String → String → Result A
parse_env kind nought parse name v = if is_empty v then ok nought else elim (parse v) [
  | ok a ↦ ok a
  | err e ↦ err (wrap ("invalid " <> kind <> " environment variable " <> name) e)
]

module _ (p : Parsers) (env : Environ) where
  -- `parseDurationEnv`
  unfoldable pub parse_duration_env : String → Result Duration
  parse_duration_env name = parse_env "duration" (pos 0) p.duration name (env name)

  -- `parseFloatEnv`
  unfoldable pub parse_float_env : String → Result ℤ
  parse_float_env name = parse_env "float" (pos 0) p.float name (env name)

  -- `parseIntEnv`
  unfoldable pub parse_int_env : String → Result ℤ
  parse_int_env name = parse_env "integer" (pos 0) p.int name (env name)

  -- `parseQuantityEnv`
  unfoldable pub parse_quantity_env : String → Result Quantity
  parse_quantity_env name = parse_env "resource.Quantity" (pos 0) p.quantity name (env name)

-- `int32(n)`: the int32 that the low 32 bits of an int stand for.
abbrev of_bits32 : ℕ → ℤ
of_bits32 m = if ltb m 2147483648 then pos m else negsuc (4294967295 - m)

unfoldable pub int32 : ℤ → ℤ
int32 (pos n) = of_bits32 (n % 4294967296)
int32 (negsuc n) = of_bits32 (4294967295 - n % 4294967296)

-- The settings of the engine, in the order of their variables.
pub record EngineSettings : Type 0 where
  pub max_recent_decisions : ℤ
  pub detection_interval : Duration
  pub decision_timeout : Duration
  pub node_pressure_threshold : ℤ
  pub improvement_threshold : ℤ
  pub decision_store_ttl : Duration
  pub move_action_timeout : Duration
  pub move_rate_limit : ℤ
  pub scale_action_timeout : Duration
  pub min_replicas : ℤ
  pub max_replicas : ℤ
  pub resource_action_timeout : Duration
  pub min_cpu : Quantity
  pub max_cpu : Quantity
  pub min_memory : Quantity
  pub max_memory : Quantity
  pub watchdog_stale_threshold : Duration

-- What the variables say.
unfoldable pub read_settings : Parsers → Environ → Result EngineSettings
read_settings p env = do
  recent ← parse_int_env p env "REBALANCE_MAX_RECENT_DECISIONS"
  interval ← parse_duration_env p env "REBALANCE_DETECTION_INTERVAL"
  decision ← parse_duration_env p env "REBALANCE_DECISION_TIMEOUT"
  pressure ← parse_float_env p env "REBALANCE_NODE_PRESSURE_THRESHOLD"
  improvement ← parse_float_env p env "REBALANCE_IMPROVEMENT_THRESHOLD"
  ttl ← parse_duration_env p env "REBALANCE_DECISION_STORE_TTL"
  move ← parse_duration_env p env "REBALANCE_MOVE_ACTION_TIMEOUT"
  limit ← parse_int_env p env "REBALANCE_MOVE_RATE_LIMIT"
  scale ← parse_duration_env p env "REBALANCE_SCALE_ACTION_TIMEOUT"
  min_replicas ← parse_int_env p env "REBALANCE_MIN_REPLICAS"
  max_replicas ← parse_int_env p env "REBALANCE_MAX_REPLICAS"
  resource ← parse_duration_env p env "REBALANCE_RESOURCE_ACTION_TIMEOUT"
  min_cpu ← parse_quantity_env p env "REBALANCE_MIN_CPU"
  max_cpu ← parse_quantity_env p env "REBALANCE_MAX_CPU"
  min_memory ← parse_quantity_env p env "REBALANCE_MIN_MEMORY"
  max_memory ← parse_quantity_env p env "REBALANCE_MAX_MEMORY"
  stale ← parse_duration_env p env "REBALANCE_WATCHDOG_STALE_THRESHOLD"
  ok (record {
    max_recent_decisions = recent;
    detection_interval = interval;
    decision_timeout = decision;
    node_pressure_threshold = pressure;
    improvement_threshold = improvement;
    decision_store_ttl = ttl;
    move_action_timeout = move;
    move_rate_limit = limit;
    scale_action_timeout = scale;
    min_replicas = int32 min_replicas;
    max_replicas = int32 max_replicas;
    resource_action_timeout = resource;
    min_cpu = min_cpu;
    max_cpu = max_cpu;
    min_memory = min_memory;
    max_memory = max_memory;
    watchdog_stale_threshold = stale;
  })

-- 0.90, as a float64.
abbrev pub default_node_pressure_threshold : ℤ
default_node_pressure_threshold = pos (8106479329266893 * 2 ^ 1021)

abbrev pub default_move_rate_limit : ℤ
default_move_rate_limit = pos 5

-- The defaults that are filled in after each variable.
unfoldable pub fill_defaults : EngineSettings → EngineSettings
fill_defaults s = record {
  max_recent_decisions = positive_or (pos default_max_recent_decisions) s.max_recent_decisions;
  detection_interval = positive_or default_detection_interval s.detection_interval;
  decision_timeout = positive_or default_decision_timeout s.decision_timeout;
  node_pressure_threshold = positive_or default_node_pressure_threshold s.node_pressure_threshold;
  improvement_threshold = positive_or default_improvement_threshold s.improvement_threshold;
  decision_store_ttl = positive_or (pos default_decision_store_ttl) s.decision_store_ttl;
  move_action_timeout = positive_or default_move_action_timeout s.move_action_timeout;
  move_rate_limit = positive_or default_move_rate_limit s.move_rate_limit;
  scale_action_timeout = positive_or default_scale_action_timeout s.scale_action_timeout;
  min_replicas = positive_or default_min_replicas s.min_replicas;
  max_replicas = positive_or default_max_replicas s.max_replicas;
  resource_action_timeout = positive_or default_resource_action_timeout s.resource_action_timeout;
  min_cpu = or_default default_min_cpu s.min_cpu;
  max_cpu = or_default default_max_cpu s.max_cpu;
  min_memory = or_default default_min_memory s.min_memory;
  max_memory = or_default default_max_memory s.max_memory;
  watchdog_stale_threshold =
      positive_or default_watchdog_stale_threshold s.watchdog_stale_threshold;
}

-- The texts of the decision layer and of the webhook, with their defaults.
pub record Texts : Type 0 where
  pub agent_url : String
  pub agent_path : String
  pub port : String
  pub score_path : String
  pub filter_path : String
  pub health_path : String
  pub extender_filter_path : String
  pub extender_prioritize_path : String
  pub eao_group : String
  pub eao_version : String
  pub eao_list_kind : String
  pub enable_webhooks : Bool
  pub scheduler_name : String

-- `if v == "" { v = def }`
abbrev pub text_or : String → String → String
text_or default v = if is_empty v then default else v

unfoldable pub texts_of : Environ → Texts
texts_of env = record {
  agent_url = env "DECISION_AGENT_URL";
  agent_path = text_or "/api/v1/agent/placement/decision" (env "DECISION_AGENT_PATH");
  port = text_or ":8090" (env "PLACEMENT_SERVER_PORT");
  score_path = text_or "/api/v1/placement/score" (env "PLACEMENT_SCORE_PATH");
  filter_path = text_or "/api/v1/placement/filter" (env "PLACEMENT_FILTER_PATH");
  health_path = text_or "/healthz" (env "PLACEMENT_SERVER_HEALTH_PATH");
  extender_filter_path = text_or "/extender/filter" (env "EXTENDER_FILTER_PATH");
  extender_prioritize_path = text_or "/extender/prioritize" (env "EXTENDER_PRIORITIZE_PATH");
  eao_group = text_or "eas.hiro.io" (env "EAO_GROUP");
  eao_version = text_or "v1" (env "EAO_VERSION");
  eao_list_kind = text_or "EnergyAwareOrchestration" (env "EAO_KIND") <> "List";
  enable_webhooks = not (str_eq (env "ENABLE_WEBHOOKS") "false");
  scheduler_name = text_or "hiro-scheduler" (env "HIRO_SCHEDULER_NAME");
}

-- What the start has made: the placement server and the engine's reconciler with the agent's client
-- that they share, the threshold of `NewNodePressureEvaluator`, the limit of Moves in a minute, and
-- the texts.
pub record Operator : Type 0 where
  pub texts : Texts
  pub server : PlacementServer
  pub engine : Reconciler
  pub pressure_threshold : ℤ
  pub move_rate_limit : ℤ

-- `NewNodePressureEvaluator` keeps the threshold, or its default.
abbrev pub evaluator_threshold : ℤ → ℤ
evaluator_threshold threshold = positive_or default_node_pressure_threshold threshold

-- The constructors on the settings. The rate of the engine's limiter is that of `NewReconciler`.
unfoldable pub build_operator : Deps → ℕ → Texts → EngineSettings → Operator
unfolding new_placement_server new_decision_store new_state_writer new_reconciler
build_operator d retries texts s =
    let client : DecisionClient = record {
      agent_url = texts.agent_url;
      agent_path = texts.agent_path;
    } in
    record {
      texts = texts;
      server =
          new_placement_server d client (some (new_decision_store s.decision_store_ttl)) texts.port
            texts.score_path texts.filter_path texts.health_path texts.extender_filter_path
            texts.extender_prioritize_path (pos (10 * second));
      engine =
          new_reconciler d (new_state_writer true s.max_recent_decisions) retries
            s.detection_interval client s.decision_timeout s.improvement_threshold
            s.move_action_timeout s.scale_action_timeout s.min_replicas s.max_replicas
            s.resource_action_timeout s.min_cpu s.max_cpu s.min_memory s.max_memory
            s.watchdog_stale_threshold;
      pressure_threshold = evaluator_threshold s.node_pressure_threshold;
      move_rate_limit = positive_or default_move_rate_limit s.move_rate_limit;
    }

-- The part of `main` between the manager and the start of the components.
unfoldable pub start : Parsers → Deps → ℕ → Environ → Result Operator
unfolding read_settings fill_defaults texts_of build_operator
start p d retries env =
    if is_empty (env "DECISION_AGENT_URL")
    then err (failure "DECISION_AGENT_URL environment variable is required")
    else (read_settings p env >>= λ settings.
        ok (build_operator d retries (texts_of env) (fill_defaults settings)))

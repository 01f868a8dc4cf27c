-- ===== src/Tests/Data.antt =====
-- Concrete data for the tests: an engine, a profile and its variants, and the agent's answers.
use hiro_adaptive_orchestrat.Base.{
  ℕ, pos, true, false, String, str_eq, List, [], ◌∷◌, none, some, ok, err, Deps, if◌then◌else◌,
  failure,
}
use hiro_adaptive_orchestrat.Types.{
  ApplicationReference, RebalancingStateType, watching, triggered, evaluating, enacting,
  RebalanceOutcome, RebalanceAction, RebalancingStatus, OrchestrationProfile, ProfileStatusType,
}
use hiro_adaptive_orchestrat.Cluster.{Pod, PodPhase, Container}
use hiro_adaptive_orchestrat.Io.{RebalanceDecisionResponse}
use hiro_adaptive_orchestrat.Rebalance.Writer.{StateWriter, TransitionOptions, no_options}
use hiro_adaptive_orchestrat.Rebalance.Writer.Steps.{with_rebalancing}
use hiro_adaptive_orchestrat.Rebalance.Writer.Replay.{Request}
use hiro_adaptive_orchestrat.Rebalance.Settings.{Reconciler}

-- Texts are not looked at here, and a quantity is written as a one.
abbrev pub deps : Deps
deps = record {
  int = λ n. "n";
  fixed2 = λ n. "n.nn";
  quote = λ s. s;
  duration = λ d. "60s";
  seconds = λ d. "60s";
  quantity = λ q. "1";
  parse_quantity = λ s. if str_eq s "1" then ok (pos 1000000000) else err (failure "no quantity");
  as_selector = λ labels. ok "app=shop";
  milli_value = λ q. q;
  float_ratio = λ a b. a;
  percent = λ a. "90";
}

abbrev pub writer : StateWriter
writer = record { has_recorder = true; max_recent_decisions = 2 }

abbrev pub engine : Reconciler
engine = record {
  deps = deps;
  writer = writer;
  decision_client = record { agent_url = "http://agent"; agent_path = "/decide" };
  retries = 1;
  detection_interval = pos 60000000000;
  decision_timeout = pos 30000000000;
  improvement_threshold = pos 20;
  move_rate_wait_timeout = pos 0;
  move_action_timeout = pos 2000000000;
  scale_action_timeout = pos 2000000000;
  min_replicas = pos 1;
  max_replicas = pos 5;
  resource_action_timeout = pos 2000000000;
  min_cpu = pos 0;
  max_cpu = pos 0;
  min_memory = pos 0;
  max_memory = pos 0;
  watchdog_stale_threshold = pos 0;
}

abbrev pub status : RebalancingStatus
status = record {
  state = watching;
  reason = "";
  decision_id = "d1";
  action = RebalanceAction.no_op;
  details = "";
  started_at = 5;
  last_transition_at = 7;
  cooldown_until = 0;
  recent_decisions = [];
  consecutive_failures = pos 2;
  is_escalated = false;
  escalated_reason = "";
}

abbrev pub shop : ApplicationReference
shop = record { api_version = "apps/v1"; kind = "Deployment"; name = "shop"; namespace = "prod" }

abbrev pub profile : OrchestrationProfile
profile = record {
  name = "shop";
  namespace = "prod";
  spec = record {
    application_ref = shop;
    placement = record {
      strategy = "energy";
      awareness = record { cpu = true; memory = true; gpu = false; energy = true };
    };
    rebalancing = record {
      enabled = true;
      trigger_conditions = "EnergyThreshold" ∷ "NodeFailure" ∷ [];
      cooldown_seconds = pos 60;
      dry_run = false;
      escalation_threshold = pos 3;
    };
  };
  status = record {
    status = ProfileStatusType.active;
    reason = "";
    placement_status = record {
      strategy = "energy";
      observed_pods = 1;
      ready_pods = 1;
      pending_pods = 0;
      failed_pods = 0;
      pod_statuses = [];
    };
    rebalancing_status = status;
    last_updated_time = 7;
  };
}

-- The same profile in a dry run, with another status, and disabled.
abbrev pub dry : OrchestrationProfile
dry = record profile {
  spec = record (profile.spec) {
    rebalancing = record (profile.spec.rebalancing) { dry_run = true };
  };
}

abbrev pub with_status : RebalancingStatus → OrchestrationProfile
with_status rs = with_rebalancing profile rs

abbrev pub disabled : OrchestrationProfile
disabled = record profile {
  spec = record (profile.spec) {
    rebalancing = record (profile.spec.rebalancing) { enabled = false };
  };
}

abbrev pub flying : OrchestrationProfile
flying = with_status (record status { state = enacting })

abbrev pub cooling : OrchestrationProfile
cooling = with_status (record status { cooldown_until = 90 })

abbrev pub paused : OrchestrationProfile
paused = with_status (record status { is_escalated = true; escalated_reason = "three failures" })

abbrev pub move_answer : RebalanceDecisionResponse
move_answer = record {
  action = RebalanceAction.move;
  pod_name = "shop-1";
  target_node = "green";
  target_replicas = pos 0;
  container_name = "";
  target_cpu = "";
  target_memory = "";
  improvement = pos 30;
  reason = "greener";
}

abbrev pub weak_answer : RebalanceDecisionResponse
weak_answer = record move_answer { improvement = pos 3 }

abbrev pub ends_with : RebalanceOutcome → TransitionOptions
ends_with o = record no_options { outcome = o; cooldown = pos 60 }

abbrev pub request : ℕ → RebalancingStateType → RebalanceOutcome → Request
request t to o = record { now = t; id = "d2"; to = to; reason = "r"; opts = ends_with o }

-- A whole cycle that fails, after two that did.
abbrev pub failing_cycle : List Request
failing_cycle =
    request 10 triggered RebalanceOutcome.no_outcome
    ∷ request 11 evaluating RebalanceOutcome.no_outcome
    ∷ request 12 watching RebalanceOutcome.failed
    ∷ []

abbrev pub last_status : OrchestrationProfile → RebalancingStatus
last_status p = p.status.rebalancing_status

abbrev pub web : Container
web = record {
  name = "web";
  requests = some (record { cpu = some (pos 5); memory = none });
  limits = none;
}

abbrev pub pod : String → String → Pod
pod name node = record {
  uid = name;
  name = name;
  namespace = "prod";
  creation_timestamp = 1;
  owner_references = [];
  node_name = node;
  scheduler_name = "";
  containers = web ∷ [];
  phase = PodPhase.running_phase;
  phase_text = "Running";
  reason = "";
  message = "";
  conditions = [];
  container_statuses = [];
}

-- The pod that was there before, one on no node yet, and one that is in place.
abbrev pub listed : List Pod
listed = pod "shop-1" "brown" ∷ pod "shop-2" "" ∷ pod "shop-3" "green" ∷ []

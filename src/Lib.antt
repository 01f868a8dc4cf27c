-- ===== src/Lib.antt =====
-- A model of the hiro-adaptive-orchestrator: a Kubernetes operator that watches the applications
-- of OrchestrationProfile resources and rebalances them on the word of an AI agent.
--
-- The program and the files
-- A profile (api/v1alpha1/orchestrationprofile_types.go) is modelled in Types.antt, the Kubernetes
-- objects that the code reads in Cluster.antt, with a parameter record for the pure functions of Go
-- and Kubernetes (Deps in Base/Errors.antt). internal/utils/helpers.go is Utils.antt. The rebalance
-- engine is internal/rebalance:
--   state.go, the transition table: Rebalance/State.antt;
--   writer.go, the only writer of a profile's rebalancing status: Rebalance/Writer.antt holds what
--     Transition does between its read and its write, Rebalance/Writer/Transition.antt the calls;
--   triggers.go and pressure.go: Rebalance/Triggers.antt;
--   reconciler.go: one reconcile of a profile in Rebalance/Reconcile.antt, its settings in
--     Rebalance/Settings.antt, the defaults of NewReconciler in Rebalance/Setup.antt, and the events
--     that wake a profile in Rebalance/Wakeups.antt;
--   dispatch.go, from the agent's answer to the end of the cycle: Rebalance/Dispatch.antt and its
--     children Move, Scale and Resource;
--   move_enactor.go, scale_enactor.go, resource_enactor.go, retry_enactor.go and energy_gate.go:
--     Rebalance/Enact.antt and its children.
-- The placement server is internal/placement-server, between the schedulers and the agent:
--   decision_store.go, where an eviction leaves its target: Placement/Store.antt, from which
--     server.go answers for the replacement (Placement/Hint.antt);
--   types.go: Placement/Types.antt;
--   builder.go, what the agent is told of a pod or of a workload: Placement/Builder.antt;
--   client.go, the calls of the agent: Placement/Client.antt;
--   server.go, the routes of the scheduler plugin: Placement/Server.antt;
--   extender.go and extender_types.go, the routes of the default scheduler: Placement/Extender.antt.
-- The engine takes its context from the same builder, and its decision from the same client.
-- The controller of profiles is internal/controller: it checks a spec (op_validation.go,
-- Controller/Validation.antt), derives a status from the pods (op_status.go and
-- op_pod_discovery.go, Controller/Status.antt), does both in one reconcile
-- (orchestrationprofile_controller.go, Controller/Reconcile.antt), and is woken through an index of
-- profiles (op_watchers.go and op_index.go, Controller/Watchers.antt).
-- internal/webhook/v1/pod_webhook.go is Webhook.antt, and scheduler-plugin is Plugin.antt. What
-- cmd/main.go makes of its environment, down to the constructors of the engine and the placement
-- server, is Command.antt; the gauges of internal/metrics/rebalance.go are Metrics.antt, and
-- cmd/migrate-rebalance-status is Migrate.antt, with a type of its own for stored objects, whose
-- state may be one of an older API. The modules under Tests run the definitions at concrete data.
--
-- Calls and interleavings
-- Code that calls out is a program over the calls of Io.antt: each call to the API server, to the
-- agent, to HTTP and JSON, to the clock, to the decision store and to the rate limiter is an
-- operation, whose answer is not modelled. A theorem about a program holds for every sequence of
-- answers, so for every failure and for every interleaving with other processes. Io/Wp.antt has the
-- predicate over all runs, Io/Closed.antt the properties that sequencing keeps, Io/Effects.antt the
-- kinds of calls. The modules named Closed take each component apart once, for every such property.
-- Io/World.antt runs a program in a world whose answers do not change, for what a program does when
-- its calls succeed, and Io/Stored.antt against a server with one profile stored, which the
-- program's writes change, while all other calls have any answer: that is how a whole cycle is
-- followed (Rebalance/Reconcile/Cycle.antt and its children). Io/Shared.antt runs a program against
-- the decision store that the engine and the placement server share, for what becomes of an entry
-- (Placement/Extender/Steering.antt). A Go panic is a value, `panicked` of Exit in Base/Errors.antt.
--
-- Numbers
-- A time is the number of nanoseconds since Go's zero time, a duration an int64 number of
-- nanoseconds, a quantity its value in billionths, and a finite float64 the number of units of
-- 2 ^ -1074 that it is. The streak of failures is an int32 with its wrap-around, the product of the
-- cooldown's seconds an int64 with its own.
--
-- Loops
-- The retries of the writer are as many as the backoff has steps. A wait polls once at the start,
-- and at most once more for every two seconds of its timeout, while time is left; running out is the
-- timeout, a result that the code handles, so no result depends on fuel. All other loops are over
-- lists.
--
-- Not modelled
-- Logging, counters, histograms and audit records; deadlines of single requests, which show as their
-- errors; flags and wiring (TLS, the manager, the SetupWithManager functions, the placement
-- server's Start, the engine's runnable); the rate that a new reconciler gives its limiter; the
-- plugin's client from environment variables, which the plugin does not use. Go's parsers of
-- durations, numbers and quantities are parameters; a float64 that is infinite or no number is left
-- out.
pub mod Base
pub mod Tests
pub mod Types
pub mod Cluster
pub mod Io
pub mod Utils
pub mod Command
pub mod Metrics
pub mod Migrate
pub mod Webhook
pub mod Plugin
pub mod Rebalance
pub mod Placement
pub mod Controller

-- ===== src/Placement/Server.antt =====
-- internal/placement-server/server.go: the score and the filter that all routes share, and the
-- routes of the scheduler plugin. Metrics and log lines are left out.
pub mod Routes
pub mod FailOpen
pub mod Hints
use hiro_adaptive_orchestrat.Base.{
  ℕ, String, ◌<>◌, Bool, true, false, ◌||◌, not, str_eq, is_empty, if◌then◌else◌, List, map, Option,
  none, some, pos, Result, Error, ok, err, Exit, returned, panicked, Deps,
}
use hiro_adaptive_orchestrat.Types.{Duration, OrchestrationProfile}
use hiro_adaptive_orchestrat.Cluster.{Pod, Node}
use hiro_adaptive_orchestrat.Io.{Op, Prog, ret, op, ◌>>=◌}
use hiro_adaptive_orchestrat.Placement.Types.{
  DecisionRequest, DecisionResponse, PlacementContext, EnergyGateRequest, EnergyGateResponse,
}
use hiro_adaptive_orchestrat.Placement.Store.{DecisionStore, new_decision_store}
use hiro_adaptive_orchestrat.Placement.Hint.{decision_store_response}
use hiro_adaptive_orchestrat.Placement.Client.{DecisionClient, request_decision}
use hiro_adaptive_orchestrat.Placement.Builder.{find_profile_for_pod, build}
use hiro_adaptive_orchestrat.Placement.Builder.Gate.{allow, check_energy_gate}
use hiro_adaptive_orchestrat.Rebalance.Enact.Move.{workload_key}

-- `PlacementServer`, with its store as it starts, and the index field of its builder left out.
pub record PlacementServer : Type 0 where
  pub deps : Deps
  pub addr : String
  pub score_path : String
  pub filter_path : String
  pub health_path : String
  pub extender_filter_path : String
  pub extender_prioritize_path : String
  pub client : DecisionClient
  pub decision_store : DecisionStore
  pub request_timeout : Duration

-- The address of a port, which may have its colon already.
abbrev pub listen_addr : String → String
listen_addr String.[] = ""
listen_addr (String.◌∷◌ c port) =
    if str_eq (String.◌∷◌ c String.[]) ":" then String.◌∷◌ c port else ":" <> String.◌∷◌ c port

-- `NewPlacementServer`
unfoldable pub new_placement_server :
    Deps
    → DecisionClient
    → Option DecisionStore
    → String
    → String
    → String
    → String
    → String
    → String
    → Duration
    → PlacementServer
new_placement_server d client store port score filter health extender_filter prioritize timeout =
    record {
      deps = d;
      addr = listen_addr port;
      score_path = score;
      filter_path = filter;
      health_path = health;
      extender_filter_path = extender_filter;
      extender_prioritize_path = prioritize;
      client = client;
      decision_store = elim store [ none ↦ new_decision_store (pos 0) | some shared ↦ shared ];
      request_timeout = timeout;
    }

-- A request, its body as it is decoded; and a reply: a text with an error's status, or with 200 the
-- request's id in the header and a value as JSON, or a text.
pub record Request (A : Type 0) : Type 0 where
  pub method : String
  pub body : Result A

pub data Reply (A : Type 0) : Type 0 where
  error_reply : ℕ → String → Reply A
  json_reply : String → A → Reply A
  text_reply : String → Reply A

-- What a route does with the body of a POST.
abbrev pub on_post :
    {A B : Type 0} → (A → Prog (Exit (Reply B))) → Request A → Prog (Exit (Reply B))
on_post k req =
    if str_eq req.method "POST"
    then elim (req.body) [
      | err e ↦ ret (returned (Reply.error_reply 400 ("invalid request body: " <> e.message)))
      | ok a ↦ k a
    ]
    else ret (returned (Reply.error_reply 405 "method not allowed"))

module _ (s : PlacementServer) where
  -- `decisionStoreResponse`, from the profile of the pod on.
  unfoldable pub consult_found :
      List Node → String → Result (Option OrchestrationProfile) → Prog (Option DecisionResponse)
  consult_found nodes id (err e) = ret none
  consult_found nodes id (ok none) = ret none
  consult_found nodes id (ok (some profile)) =
      op (Op.store_lookup (workload_key profile.namespace profile.name))
      >>= (λ entry. ret (decision_store_response id (map (λ node. node.name) nodes) entry))

  -- `decisionStoreResponse`
  unfoldable pub consult_store : Pod → List Node → String → Prog (Option DecisionResponse)
  unfolding consult_found
  consult_store pod nodes id = find_profile_for_pod s.deps pod >>= consult_found nodes id

  -- What a built request leads to.
  abbrev pub send : Exit (Result DecisionRequest) → Prog (Exit (Result DecisionResponse))
  send panicked = ret panicked
  send (returned (err e)) = ret (returned (err e))
  send (returned (ok req)) = request_decision s.deps s.client req

  -- `score`, without an answer of the store.
  unfoldable pub ask_agent : Pod → List Node → String → Prog (Exit (Result DecisionResponse))
  ask_agent pod nodes id = build s.deps pod nodes id >>= send

  -- `score`, from the answer of the store on.
  unfoldable pub score_after :
      Pod → List Node → String → Option DecisionResponse → Prog (Exit (Result DecisionResponse))
  unfolding ask_agent
  score_after pod nodes id (some resp) = ret (returned (ok resp))
  score_after pod nodes id none = ask_agent pod nodes id

  -- `score`
  unfoldable pub score : Pod → List Node → String → Prog (Exit (Result DecisionResponse))
  unfolding consult_store score_after
  score pod nodes id = consult_store pod nodes id >>= score_after pod nodes id

  -- `filter`, whose error its callers take as leave.
  unfoldable pub filter : Pod → Prog (EnergyGateResponse × Option Error)
  filter pod = check_energy_gate s.deps pod

  abbrev pub or_allow : EnergyGateResponse × Option Error → EnergyGateResponse
  or_allow gate = elim (gate.1) [ none ↦ gate.0 | some e ↦ allow ]

  abbrev score_reply : String → Exit (Result DecisionResponse) → Exit (Reply DecisionResponse)
  score_reply id panicked = panicked
  score_reply id (returned (err e)) =
      returned (Reply.error_reply 500 ("placement score failed: " <> e.message))
  score_reply id (returned (ok resp)) = returned (Reply.json_reply id resp)

  unfoldable pub score_body : PlacementContext → Prog (Exit (Reply DecisionResponse))
  score_body ctx = elim (ctx.pod) [
    | none ↦ ret (returned (Reply.error_reply 400 "pod is required in PlacementContext"))
    | some pod ↦ score pod ctx.candidate_nodes pod.uid >>= (λ x. ret (score_reply pod.uid x))
  ]

  -- `handleScore`
  unfoldable pub handle_score : Request PlacementContext → Prog (Exit (Reply DecisionResponse))
  unfolding score score_body
  handle_score = on_post score_body

  unfoldable pub filter_body : EnergyGateRequest → Prog (Exit (Reply EnergyGateResponse))
  filter_body req = elim (req.pod) [
    | none ↦ ret (returned (Reply.error_reply 400 "pod is required"))
    | some pod ↦ filter pod >>= (λ gate. ret (returned (Reply.json_reply pod.uid (or_allow gate))))
  ]

  -- `handleFilter`
  unfoldable pub handle_filter : Request EnergyGateRequest → Prog (Exit (Reply EnergyGateResponse))
  unfolding filter filter_body
  handle_filter = on_post filter_body

-- `handleHealth`
unfoldable pub handle_health : {A : Type 0} → Exit (Reply A)
handle_health = returned (Reply.text_reply "ok")

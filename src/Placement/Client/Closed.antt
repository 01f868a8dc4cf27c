-- ===== src/Placement/Client/Closed.antt =====
-- The client of the agent and the contexts that it sends, taken apart for every property of programs
-- that sequencing keeps, that reads have and that the exchange with the agent has.
use hiro_adaptive_orchestrat.Base.{
  refl, String, is_empty, List, Option, none, some, Result, Exit, Deps,
}
use hiro_adaptive_orchestrat.Types.{RebalanceDecision, OrchestrationProfile}
use hiro_adaptive_orchestrat.Cluster.{Pod, Node}
use hiro_adaptive_orchestrat.Io.{Op, RebalanceDecisionResponse, Prog, op}
use hiro_adaptive_orchestrat.Io.Closed.{Property, IsClosed, split_if, on_ok-Closed}
use hiro_adaptive_orchestrat.Utils.Closed.{
  ClosedReads, find_pods_for_application-Closed, find_eao_for_app-Closed,
}
use hiro_adaptive_orchestrat.Placement.Types.{
  DecisionRequest, DecisionResponse, HttpResponse, EaoProfileContext,
}
use hiro_adaptive_orchestrat.Placement.Client.{
  DecisionClient, is_ok_status, with_request_id, exchange, request_about, request_decision,
  request_rebalance_decision,
}
use hiro_adaptive_orchestrat.Placement.Builder.{fetch_eao_profile_for_app}
use hiro_adaptive_orchestrat.Placement.Builder.Workload.{
  list_ready_nodes, energy_context, build_rebalance_context,
}

-- The exchange with the agent has the property, whatever is sent.
abbrev pub ClosedAsking : Property → Type 0
ClosedAsking K = (req : DecisionRequest) → K (Result HttpResponse) (op (Op.call_agent req))

module _ (K : Property) (c : IsClosed K) (reads : ClosedReads K) (d : Deps) where
  list_ready_nodes-Closed : K (Result (List Node)) list_ready_nodes
  unfolding list_ready_nodes
  list_ready_nodes-Closed =
      c.bind _ _ _ _ (reads _ refl) (on_ok-Closed K c _ _ _ _ (λ nodes. c.done _ _))

  energy_context-Closed :
      (profile : OrchestrationProfile) → K (Option EaoProfileContext) (energy_context d profile)
  unfolding energy_context fetch_eao_profile_for_app
  energy_context-Closed profile =
      split_if K _ profile.spec.placement.awareness.energy _ _
        (λ _.
          c.bind _ _ _ _
            (c.bind _ _ _ _ (find_eao_for_app-Closed K c reads _)
              (on_ok-Closed K c _ _ _ _ (λ eao. c.done _ _)))
            (λ eao. c.done _ _))
        (λ _. c.done _ _)

  pub build_rebalance_context-Closed :
      (profile : OrchestrationProfile) (id reason : String) (recent : List RebalanceDecision)
      → K (Result DecisionRequest) (build_rebalance_context d profile id reason recent)
  unfolding build_rebalance_context
  build_rebalance_context-Closed profile id reason recent =
      c.bind _ _ _ _ (find_pods_for_application-Closed K c reads _) (
        on_ok-Closed K c _ _ _ _ (λ pods. c.bind _ _ _ _ list_ready_nodes-Closed (
          on_ok-Closed K c _ _ _ _ (λ nodes.
            c.bind _ _ _ _ (energy_context-Closed profile)
              (λ eao. c.bind _ _ _ _ (reads Op.now refl) (λ now. c.done _ _))))))

  module _ (client : DecisionClient) (asking : ClosedAsking K) where
    with_request_id-Closed : (req : DecisionRequest) → K DecisionRequest (with_request_id req)
    unfolding with_request_id
    with_request_id-Closed req =
        split_if K _ (is_empty req.request_id) _ _
          (λ _. c.bind _ _ _ _ (reads _ refl) (λ id. c.done _ _)) (λ _. c.done _ _)

    pub exchange-Closed :
        {A : Type 0} (asked answered subject : String) (decode : String → Prog (Result A))
        → ((body : String) → K (Result A) (decode body))
        → (req : DecisionRequest)
        → K (Result A) (exchange d client asked answered subject decode req)
    unfolding exchange
    exchange-Closed asked answered subject decode decoding req =
        c.bind _ _ _ _ (reads (Op.marshal_request req) refl) (
          on_ok-Closed K c _ _ _ _ (λ body. c.bind _ _ _ _ (reads (Op.new_http_request _) refl) (
            on_ok-Closed K c _ _ _ _ (λ built. c.bind _ _ _ _ (asking req) (
              on_ok-Closed K c _ _ _ _ (λ resp.
                split_if K _ (is_ok_status resp.status_code) _ _
                  (λ _.
                    c.bind _ _ _ _ (decoding resp.body)
                      (on_ok-Closed K c _ _ _ _ (λ a. c.done _ _)))
                  (λ _. c.done _ _)))))))

    pub request_rebalance_decision-Closed :
        (req : DecisionRequest)
        → K (Result RebalanceDecisionResponse) (request_rebalance_decision d client req)
    unfolding request_rebalance_decision
    request_rebalance_decision-Closed req = c.bind _ _ _ _ (with_request_id-Closed req) (λ req'.
        exchange-Closed _ _ _ _ (λ body. reads (Op.decode_rebalance_decision body) refl) req')

    request_about-Closed :
        (req : DecisionRequest) (pod : Option Pod)
        → K (Exit (Result DecisionResponse)) (request_about d client req pod)
    request_about-Closed req none = c.done _ _
    request_about-Closed req (some pod) =
        c.bind _ _ _ _ (exchange-Closed _ _ _ _ (λ body. reads (Op.decode_decision body) refl) req)
          (λ answer. c.done _ _)

    pub request_decision-Closed :
        (req : DecisionRequest) → K (Exit (Result DecisionResponse)) (request_decision d client req)
    unfolding request_decision
    request_decision-Closed req =
        c.bind _ _ _ _ (with_request_id-Closed req) (λ req'. request_about-Closed req' req'.pod)

-- ===== src/Placement/Client.antt =====
-- internal/placement-server/client.go: the client of the agent. What JSON and HTTP make of a call is
-- not modelled, so each of their calls may fail.
pub mod Closed
pub mod Once
use hiro_adaptive_orchestrat.Base.{
  String, ◌<>◌, Bool, false, ◌==◌, is_empty, if◌then◌else◌, Option, none, some, ℤ, pos, negsuc,
  Result, Error, ok, err, wrap, failure, Exit, returned, panicked, Deps,
}
use hiro_adaptive_orchestrat.Cluster.{Pod}
use hiro_adaptive_orchestrat.Io.{Op, RebalanceDecisionResponse, Prog, ret, op, ◌>>=◌}
use hiro_adaptive_orchestrat.Utils.{on_ok}
use hiro_adaptive_orchestrat.Placement.Types.{DecisionRequest, DecisionResponse, HttpResponse}

-- `DecisionClient`. The timeout of its `httpClient` shows as an error of an exchange.
pub record DecisionClient : Type 0 where
  pub agent_url : String
  pub agent_path : String

abbrev pub is_ok_status : ℤ → Bool
is_ok_status (pos n) = n == 200
is_ok_status (negsuc n) = false

-- `if req.RequestID == "" { req.RequestID = uuid.NewString() }`
unfoldable pub with_request_id : DecisionRequest → Prog DecisionRequest
with_request_id req =
    if is_empty req.request_id
    then op Op.new_uuid >>= (λ id. ret (record req { request_id = id }))
    else ret req

-- The text of a pod in an error.
abbrev pub pod_text : Pod → String
pod_text pod = "pod " <> pod.namespace <> "/" <> pod.name

module _ (d : Deps) (c : DecisionClient) where
  abbrev pub url : String
  url = c.agent_url <> c.agent_path

  abbrev pub called : String → String
  called subject = "calling external decision agent at " <> url <> " for " <> subject

  -- What the two methods do with a request, once it has an id: `asked` and `answered` are their names
  -- of the two messages, `subject` is whom the request is for.
  module _ {A : Type 0} (asked answered subject : String) (decode : String → Prog (Result A))
      (req : DecisionRequest) where
    abbrev not_ok : HttpResponse → Error
    not_ok resp = failure (
        "external decision agent returned HTTP "
        <> d.int resp.status_code
        <> " for "
        <> subject
        <> " (requestId="
        <> req.request_id
        <> ")")

    abbrev pub judge_response : HttpResponse → Prog (Result A)
    judge_response resp =
        if is_ok_status resp.status_code
        then decode resp.body
          >>= on_ok (wrap ("decoding " <> answered <> " for " <> subject)) (λ a. ret (ok a))
        else ret (err (not_ok resp))

    unfoldable pub exchange : Prog (Result A)
    exchange =
        op (Op.marshal_request req)
        >>= on_ok (wrap ("marshalling " <> asked <> " for " <> subject)) (λ body.
          op (Op.new_http_request url)
          >>= on_ok (wrap ("building HTTP request for " <> subject))
              (λ built. op (Op.call_agent req) >>= on_ok (wrap (called subject)) judge_response))

  -- `RequestDecision`, once the request has an id. The first log line reads the pod.
  abbrev pub request_about : DecisionRequest → Option Pod → Prog (Exit (Result DecisionResponse))
  request_about req none = ret panicked
  request_about req (some pod) =
      exchange "DecisionRequest" "DecisionResponse" (pod_text pod)
        (λ body. op (Op.decode_decision body)) req
      >>= (λ answer. ret (returned answer))

  -- `RequestDecision`
  unfoldable pub request_decision : DecisionRequest → Prog (Exit (Result DecisionResponse))
  unfolding with_request_id exchange
  request_decision req = with_request_id req >>= λ req'. request_about req' req'.pod

  -- `RequestRebalanceDecision`. Its log line reads the rebalance context, which its caller sets.
  unfoldable pub request_rebalance_decision :
      DecisionRequest → Prog (Result RebalanceDecisionResponse)
  unfolding with_request_id exchange
  request_rebalance_decision req = with_request_id req >>= λ req'.
      exchange "rebalance DecisionRequest" "RebalanceDecisionResponse"
        ("profile " <> req'.ao_profile.profile_name)
        (λ body. op (Op.decode_rebalance_decision body)) req'

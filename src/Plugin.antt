-- ===== src/Plugin.antt =====
-- scheduler-plugin: the plugin of the kube-scheduler that asks the placement server, and its HTTP
-- client. What JSON and HTTP make of a call is not modelled, so each of their calls may fail.
pub mod FailOpen
use hiro_adaptive_orchestrat.Base.{
  ℕ, String, ◌<>◌, str_eq, is_empty, Bool, true, false, if◌then◌else◌, List, [], ◌∷◌, map, Option,
  none, some, ℤ, pos, leb_ℤ, ltb_ℤ, mul_int64, Result, Error, ok, err, wrap, failure, Deps,
}
use hiro_adaptive_orchestrat.Types.{Duration}
use hiro_adaptive_orchestrat.Cluster.{Pod, Node}
use hiro_adaptive_orchestrat.Io.{Op, Prog, ret, op, ◌>>=◌}
use hiro_adaptive_orchestrat.Utils.{on_ok}
use hiro_adaptive_orchestrat.Placement.Types.{
  NodeScore, DecisionResponse, EnergyGateResponse, HttpResponse, Payload,
}
use hiro_adaptive_orchestrat.Placement.Client.{is_ok_status}

-- `PlacementClient`. The timeout shows as an error of an exchange.
pub record PlacementClient : Type 0 where
  pub server_url : String
  pub score_path : String
  pub filter_path : String
  pub timeout : Duration

pub record HiroScoreArgs : Type 0 where
  pub placement_server_url : String
  pub placement_server_path : String
  pub filter_path : String
  pub timeout_seconds : ℤ

abbrev default_placement_server_url : String
default_placement_server_url =
    "http://hiro-adaptive-orchestrator-controller-manager-placement-service"
    <> ".hiro-adaptive-orchestrator-system.svc.cluster.local:8090"

abbrev default_args : HiroScoreArgs
default_args = record {
  placement_server_url = default_placement_server_url;
  placement_server_path = "/api/v1/placement/score";
  filter_path = "/api/v1/placement/filter";
  timeout_seconds = pos 8;
}

abbrev or_text : String → String → String
or_text default text = if is_empty text then default else text

-- The arguments of a configuration, over which it was decoded, with the defaults for empty ones.
abbrev pub with_defaults : HiroScoreArgs → HiroScoreArgs
with_defaults args = record {
  placement_server_url = or_text default_args.placement_server_url args.placement_server_url;
  placement_server_path = or_text default_args.placement_server_path args.placement_server_path;
  filter_path = or_text default_args.filter_path args.filter_path;
  timeout_seconds = if leb_ℤ args.timeout_seconds (pos 0) then pos 8 else args.timeout_seconds;
}

abbrev pub client_for : HiroScoreArgs → PlacementClient
client_for args = record {
  server_url = args.placement_server_url;
  score_path = args.placement_server_path;
  filter_path = args.filter_path;
  timeout = mul_int64 args.timeout_seconds 1000000000;
}

-- `New`: a configuration that is given is decoded, or not.
unfoldable pub new_plugin : Option (Result HiroScoreArgs) → Result PlacementClient
new_plugin none = ok (client_for default_args)
new_plugin (some (err e)) = err (wrap "HIROScore: parsing pluginConfig args" e)
new_plugin (some (ok args)) = ok (client_for (with_defaults args))

-- `energyGateDecision`, and the state of one scheduling cycle: what PreFilter and PreScore have
-- written. Only this plugin writes its keys, so that a value read has the type written.
pub record GateDecision : Type 0 where
  pub allowed : Bool
  pub reason : String

pub record CycleState : Type 0 where
  pub gate : Option GateDecision
  pub scores : Option (List (String × ℤ))

-- The texts of the errors of one method of the client; that of a status is about its number.
pub record ErrorTexts : Type 0 where
  pub marshalling : String
  pub building : String
  pub calling : String
  pub decoding : String
  pub returned : String → String

module _ (d : Deps) (to_int64 : ℤ → ℤ) (c : PlacementClient) where
  -- What both methods of the client do.
  module _ {A : Type 0} (url : String) (texts : ErrorTexts) (decode : String → Prog (Result A))
      (payload : Payload) where
    abbrev pub judge : HttpResponse → Prog (Result A)
    judge resp =
        if is_ok_status resp.status_code
        then decode resp.body >>= on_ok (wrap texts.decoding) (λ a. ret (ok a))
        else ret (err (failure (texts.returned (d.int resp.status_code))))

    unfoldable pub post : Prog (Result A)
    post =
        op (Op.marshal_payload payload)
        >>= on_ok (wrap texts.marshalling) (λ body.
          op (Op.new_http_request url)
          >>= on_ok (wrap texts.building) (λ request.
            op (Op.call_placement_server url payload) >>= on_ok (wrap texts.calling) judge))

  abbrev pub filter_url : String
  filter_url = c.server_url <> c.filter_path

  abbrev pub filter_texts : ErrorTexts
  filter_texts = record {
    marshalling = "marshalling EnergyGateRequest";
    building = "building filter request";
    calling = "calling placement filter at " <> filter_url;
    decoding = "decoding EnergyGateResponse";
    returned = λ code. "placement filter returned HTTP " <> code;
  }

  -- `CheckFilter`, whose caller takes an error as leave.
  unfoldable pub check_filter : Pod → Prog (Result EnergyGateResponse)
  unfolding post
  check_filter pod =
      post filter_url filter_texts (λ body. op (Op.decode_verdict body))
        (Payload.gate_payload (record { pod = some pod }))

  abbrev pub score_url : String
  score_url = c.server_url <> c.score_path

  abbrev for_request : Pod → String
  for_request pod = " (requestId=" <> pod.uid <> ")"

  abbrev pub score_texts : Pod → ErrorTexts
  score_texts pod = record {
    marshalling = "marshalling PlacementContext" <> for_request pod;
    building = "building request to placement server" <> for_request pod;
    calling = "calling placement server at " <> score_url <> for_request pod;
    decoding = "decoding DecisionResponse" <> for_request pod;
    returned = λ code. "placement server returned HTTP " <> code <> for_request pod;
  }

  -- `Decide`
  unfoldable pub decide : Pod → List Node → Prog (Result DecisionResponse)
  unfolding post
  decide pod nodes =
      post score_url (score_texts pod) (λ body. op (Op.decode_decision body))
        (Payload.context_payload (record { pod = some pod; candidate_nodes = nodes }))

  abbrev pub gate_of : Result EnergyGateResponse → GateDecision
  gate_of (err e) = record { allowed = true; reason = "" }
  gate_of (ok verdict) = record { allowed = verdict.allowed; reason = verdict.reason }

  -- `PreFilter`
  unfoldable pub pre_filter : CycleState → Pod → Prog CycleState
  unfolding check_filter
  pre_filter state pod =
      check_filter pod >>= λ verdict. ret (record state { gate = some (gate_of verdict) })

  abbrev pub clamp : ℤ → ℤ
  clamp x = if ltb_ℤ x (pos 0) then pos 0 else if ltb_ℤ (pos 100) x then pos 100 else x

  -- The map of the scores, by its assignments; `int64` of a float64 is a parameter.
  abbrev pub clamped : List NodeScore → List (String × ℤ)
  clamped = map (λ s. (s.node_name, clamp (to_int64 s.score)))

  abbrev pub scores_from : Result DecisionResponse → List (String × ℤ)
  scores_from (err e) = []
  scores_from (ok resp) = clamped resp.node_scores

  -- The nodes that are there.
  abbrev pub present : List (Option Node) → List Node
  present [] = []
  present (none ∷ infos) = present infos
  present (some node ∷ infos) = node ∷ present infos

  -- `PreScore`
  unfoldable pub pre_score : CycleState → Pod → List (Option Node) → Prog CycleState
  unfolding decide
  pre_score state pod infos =
      decide pod (present infos)
      >>= (λ resp. ret (record state { scores = some (scores_from resp) }))

-- `Filter`: the message of an Unschedulable status, or none.
unfoldable pub filter : CycleState → Option String
filter state = elim (state.gate) [
  | none ↦ none
  | some gate ↦ if gate.allowed then none else some ("HIROScore: " <> gate.reason)
]

-- A value of the map: the last assignment to the key, or 0.
unfoldable pub value_at : String → List (String × ℤ) → Option ℤ
value_at name [] = none
value_at name (entry ∷ entries) = elim (value_at name entries) [
  | some x ↦ some x
  | none ↦ if str_eq name (entry.0) then some (entry.1) else none
]

abbrev pub or_nought : Option ℤ → ℤ
or_nought none = pos 0
or_nought (some x) = x

-- `Score`
unfoldable pub score : CycleState → Node → ℤ
unfolding value_at
score state node = elim (state.scores) [
  | none ↦ pos 0
  | some entries ↦ or_nought (value_at node.name entries)
]

-- ===== src/Placement/Client/Once.antt =====
-- internal/placement-server/client.go: one exchange with the agent for each request.
use hiro_adaptive_orchestrat.Base.{
  ℕ, ◌+◌, ◌≤◌, ◌≡◌, refl, Bool, true, false, not, ◌&&◌, ◌||◌, String, ◌<>◌, is_empty, if◌then◌else◌,
  [], ◌∷◌, Option, none, some, Result, Error, ok, err, wrap, Exit, returned, panicked, Deps, arith,
}
use hiro_adaptive_orchestrat.Cluster.{Pod}
use hiro_adaptive_orchestrat.Io.{Op, Answer, Prog, ret, op, ◌>>=◌}
use hiro_adaptive_orchestrat.Io.Wp.{Trace, Wp, Wp-bind, Wp_mono}
use hiro_adaptive_orchestrat.Io.Effects.{asks_agent}
use hiro_adaptive_orchestrat.Utils.{on_ok}
use hiro_adaptive_orchestrat.Placement.Types.{DecisionRequest, HttpResponse}
use hiro_adaptive_orchestrat.Placement.Client.{
  DecisionClient, is_ok_status, called, url, pod_text, request_about, with_request_id,
  judge_response, exchange, request_decision,
}

-- How often the agent was asked.
abbrev pub asks : Trace → ℕ
asks [] = 0
asks (e ∷ past) = if asks_agent e.op then asks past + 1 else asks past

abbrev accepts : (o : Op) → Answer o → Bool
accepts (Op.call_agent req) (ok resp) = is_ok_status resp.status_code
accepts _ x = false

-- The agent has answered with the status 200.
abbrev pub accepted : Trace → Bool
accepted [] = false
accepted (e ∷ past) = accepts e.op e.answer || accepted past

abbrev is_answer : {A : Type 0} → Result A → Bool
is_answer (ok a) = true
is_answer (err e) = false

-- The agent was asked at most once, and a result without an error is an answer with the status 200.
abbrev pub Sent : {A : Type 0} → Trace → Result A → Type 0
Sent past r = (asks past ≤ 1) × ((is_answer r && not (accepted past)) ≡ false)

-- The agent was asked once, and has answered.
abbrev Answered : Trace → Type 0
Answered past = (asks past ≡ 1) × (accepted past ≡ true)

module _ (d : Deps) (c : DecisionClient) {A : Type 0} (asked answered subject : String)
    (decode : String → Prog (Result A))
    (decoding : (body : String) (past : Trace)
      → Answered past
      → Wp (decode body) past (λ past' r. Answered past'))
    (req : DecisionRequest) where
  decoded-Sent :
      (r : Result A) (past : Trace) (wrapped : Error → Error)
      → Answered past
      → Wp (on_ok wrapped (λ a. ret (ok a)) r) past Sent
  decoded-Sent (ok a) past wrapped h = ground (arith, h)
  decoded-Sent (err e) past wrapped h = ground (arith, h)

  judged-Sent :
      (resp : HttpResponse) (past : Trace) (good : Bool)
      → is_ok_status resp.status_code ≡ good
      → asks past ≡ 1
      → (good ≡ true → accepted past ≡ true)
      → Wp (judge_response d c asked answered subject decode req resp) past Sent
  judged-Sent resp past true h once accepts = rw h (
      Wp-bind (decode resp.body) _ past Sent (
        Wp_mono (decode resp.body) past _ _ (decoding resp.body past (once, accepts refl))
          (λ past' r answered'. decoded-Sent r past' _ answered')))
  judged-Sent resp past false h once accepts = rw h (omega (arith, once), refl)

  called-Sent :
      (past : Trace)
      → asks past ≡ 0
      → (r : Result HttpResponse)
      → Wp
          (on_ok
            (wrap (called d c subject))
            (judge_response d c asked answered subject decode req)
            r)
          (record { op = Op.call_agent req; answer = r } ∷ past)
          Sent
  called-Sent past none_yet (ok resp) =
      judged-Sent resp _ _ refl (rw none_yet refl) (λ good. rw good refl)
  called-Sent past none_yet (err e) = (rw none_yet (omega arith), refl)

  exchange-Sent :
      (past : Trace) → asks past ≡ 0 → Wp (exchange d c asked answered subject decode req) past Sent
  unfolding exchange
  exchange-Sent past none_yet = marshalled
    where
      built_request :
          (past' : Trace)
          → asks past' ≡ 0
          → (r : Result (Unit {0}))
          → Wp
              (on_ok
                (wrap ("building HTTP request for " <> subject))
                (λ built.
                  op (Op.call_agent req)
                  >>= on_ok
                      (wrap (called d c subject))
                      (judge_response d c asked answered subject decode req))
                r)
              (record { op = Op.new_http_request (url d c); answer = r } ∷ past')
              Sent
      built_request past' h (ok built) = λ r. called-Sent _ h r
      built_request past' h (err e) = (omega (arith, h), refl)

      marshalled :
          (r : Result (Unit {0}))
          → Wp
              (on_ok
                (wrap ("marshalling " <> asked <> " for " <> subject))
                (λ body.
                  op (Op.new_http_request (url d c))
                  >>= on_ok (wrap ("building HTTP request for " <> subject)) (λ built.
                    op (Op.call_agent req)
                    >>= on_ok
                        (wrap (called d c subject))
                        (judge_response d c asked answered subject decode req)))
                r)
              (record { op = Op.marshal_request req; answer = r } ∷ past)
              Sent
      marshalled (ok body) = λ r. built_request _ none_yet r
      marshalled (err e) = (omega (arith, none_yet), refl)

-- The result of a method that may panic.
abbrev pub Settled : {A : Type 0} → Trace → Exit (Result A) → Type 0
Settled past x = elim x [ panicked ↦ asks past ≡ 0 | returned r ↦ Sent past r ]

module _ (d : Deps) (c : DecisionClient) where
  posted :
      (req : DecisionRequest) (pod : Option Pod) (past : Trace)
      → asks past ≡ 0
      → Wp (request_about d c req pod) past Settled
  posted req none past h = h
  posted req (some pod) past h =
      Wp-bind
        (exchange d c "DecisionRequest" "DecisionResponse" (pod_text pod)
          (λ body. op (Op.decode_decision body)) req)
        _ past Settled
        (Wp_mono
          (exchange d c "DecisionRequest" "DecisionResponse" (pod_text pod)
            (λ body. op (Op.decode_decision body)) req)
          past _ _
          (exchange-Sent d c "DecisionRequest" "DecisionResponse" (pod_text pod)
            (λ body. op (Op.decode_decision body)) (λ body past' h' x. h') req past h)
          (λ past' r sent. sent))

  -- In every run of RequestDecision, whatever its calls are answered, the agent is asked at most once,
  -- and not at all if it panics; a result without an error comes of an answer with the status 200.
  pub request_decision-Settled :
      (req : DecisionRequest) (past : Trace)
      → asks past ≡ 0
      → Wp (request_decision d c req) past Settled
  unfolding request_decision with_request_id
  request_decision-Settled req past h = Wp-bind (with_request_id req) _ past Settled (
      Wp_mono (with_request_id req) past (λ past' req'. asks past' ≡ 0) _
        (identified (is_empty req.request_id)) (λ past' req' h'. posted req' req'.pod past' h'))
    where
      identified :
          (b : Bool)
          → Wp
              (if b
                then op Op.new_uuid >>= (λ id. ret (record req { request_id = id }))
                else ret req)
              past
              (λ past' req'. asks past' ≡ 0)
      identified true = λ id. h
      identified false = h

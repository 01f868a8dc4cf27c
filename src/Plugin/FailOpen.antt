-- ===== src/Plugin/FailOpen.antt =====
-- scheduler-plugin: what the plugin tells the scheduler, failures of the placement server included.
use hiro_adaptive_orchestrat.Base.{
  ◌≡◌, refl, String, str_eq, Bool, true, false, not, ◌&&◌, ◌||◌, if◌then◌else◌, List, [], ◌∷◌,
  Option, none, some, ℤ, pos, ltb_ℤ, leb_ℤ, Result, Error, ok, err, wrap, Deps, arith,
}
use hiro_adaptive_orchestrat.Cluster.{Pod, Node}
use hiro_adaptive_orchestrat.Io.{Op, Answer, Prog, ret, op, ◌>>=◌}
use hiro_adaptive_orchestrat.Io.Wp.{Trace, Wp, Wp-bind, Wp_mono}
use hiro_adaptive_orchestrat.Utils.{on_ok}
use hiro_adaptive_orchestrat.Placement.Types.{
  NodeScore, DecisionResponse, EnergyGateResponse, HttpResponse, Payload,
}
use hiro_adaptive_orchestrat.Placement.Client.{is_ok_status}
use hiro_adaptive_orchestrat.Plugin.{
  PlacementClient, ErrorTexts, CycleState, filter_url, filter_texts, score_url, score_texts, judge,
  post, check_filter, decide, gate_of, pre_filter, clamp, clamped, present, scores_from, pre_score,
  filter, value_at, or_nought, score,
}

abbrev serves : (o : Op) → Answer o → Bool
serves (Op.call_placement_server url payload) (ok resp) = is_ok_status resp.status_code
serves _ x = false

-- The placement server has answered with the status 200.
abbrev pub served : Trace → Bool
served [] = false
served (e ∷ past) = serves e.op e.answer || served past

abbrev refuses : (o : Op) → Answer o → Bool
refuses (Op.decode_verdict body) (ok verdict) = not verdict.allowed
refuses _ x = false

-- A verdict was decoded that does not allow the pod.
abbrev pub verdict_against : Trace → Bool
verdict_against [] = false
verdict_against (e ∷ past) = refuses e.op e.answer || verdict_against past

module _ (d : Deps) (to_int64 : ℤ → ℤ) (c : PlacementClient) where
  module _ {A : Type 0} (url : String) (texts : ErrorTexts) (decode : String → Prog (Result A))
      (payload : Payload) (Q : Trace → Result A → Type 0)
      (failing : (past : Trace) (e : Error) → Q past (err e))
      (decoded : (body : String) (past : Trace)
        → served past ≡ true
        → Wp (decode body) past Q) where
    abbrev J : HttpResponse → Prog (Result A)
    J = judge d to_int64 c url texts decode payload

    passed :
        (past : Trace) (r : Result A)
        → Q past r
        → Wp (on_ok (wrap texts.decoding) (λ a. ret (ok a)) r) past Q
    passed past (ok a) h = h
    passed past (err e) h = failing past _

    judged :
        (past : Trace) (resp : HttpResponse) (good : Bool)
        → is_ok_status resp.status_code ≡ good
        → (good ≡ true → served past ≡ true)
        → Wp (J resp) past Q
    judged past resp true h answered = rw h (
        Wp-bind (decode resp.body) _ past Q (
          Wp_mono (decode resp.body) past _ _ (decoded resp.body past (answered refl))
            (λ past' r q. passed past' r q)))
    judged past resp false h answered = rw h (failing past _)

    called :
        (past : Trace) (r : Result HttpResponse)
        → Wp
            (on_ok (wrap texts.calling) J r)
            (record { op = Op.call_placement_server url payload; answer = r } ∷ past)
            Q
    called past (ok resp) = judged _ resp _ refl (λ good. rw good refl)
    called past (err e) = failing _ _

    requested :
        (past : Trace) (r : Result (Unit {0}))
        → Wp
            (on_ok
              (wrap texts.building)
              (λ request.
                op (Op.call_placement_server url payload) >>= on_ok (wrap texts.calling) J)
              r)
            past
            Q
    requested past (ok request) = λ r. called past r
    requested past (err e) = failing _ _

    marshalled :
        (past : Trace) (r : Result (Unit {0}))
        → Wp
            (on_ok
              (wrap texts.marshalling)
              (λ body.
                op (Op.new_http_request url)
                >>= on_ok (wrap texts.building) (λ request.
                  op (Op.call_placement_server url payload) >>= on_ok (wrap texts.calling) J))
              r)
            past
            Q
    marshalled past (ok body) = λ r. requested _ r
    marshalled past (err e) = failing _ _

    -- A result without an error was decoded after an answer with the status 200.
    post-cases : (past : Trace) → Wp (post d to_int64 c url texts decode payload) past Q
    unfolding post
    post-cases past = λ r. marshalled _ r

  abbrev blocks : Result EnergyGateResponse → Bool
  blocks (ok verdict) = not verdict.allowed
  blocks (err e) = false

  abbrev Justified : Trace → Result EnergyGateResponse → Type 0
  Justified past r = (blocks r && not (verdict_against past && served past)) ≡ false

  verdict-Justified :
      (body : String) (past : Trace)
      → served past ≡ true
      → Wp (op (Op.decode_verdict body)) past Justified
  verdict-Justified body past h (ok verdict) = ground arith
  verdict-Justified body past h (err e) = refl

  abbrev pub is_blocked : CycleState → Bool
  is_blocked state = elim (filter state) [ none ↦ false | some message ↦ true ]

  check_filter-Justified :
      (pod : Pod) (past : Trace) → Wp (check_filter d to_int64 c pod) past Justified
  unfolding check_filter
  check_filter-Justified pod past =
      post-cases (filter_url d to_int64 c) (filter_texts d to_int64 c)
        (λ body. op (Op.decode_verdict body)) (Payload.gate_payload (record { pod = some pod }))
        Justified (λ past' e. refl) verdict-Justified past

  gated :
      (r : Result EnergyGateResponse) (state : CycleState)
      → is_blocked (record state { gate = some (gate_of d to_int64 c r) }) ≡ blocks r
  unfolding filter
  gated (err e) state = refl
  gated (ok verdict) state = ground arith

  -- In every run of PreFilter, whatever its calls are answered, Filter then rejects a node only if
  -- the placement server has answered with the status 200 and with a verdict against the pod: no
  -- failure blocks a pod. What PreScore has stored is left alone.
  pub pre_filter-Justified :
      (state : CycleState) (pod : Pod)
      → Wp (pre_filter d to_int64 c state pod) [] (λ past state'.
        ((is_blocked state' && not (verdict_against past && served past)) ≡ false)
        × (state'.scores ≡ state.scores))
  unfolding pre_filter
  pre_filter-Justified state pod = Wp-bind (check_filter d to_int64 c pod) _ [] _ (
      Wp_mono (check_filter d to_int64 c pod) [] _ _ (check_filter-Justified pod [])
        (λ past r h. (rw (gated r state) h, refl)))

  -- A score that the scheduler accepts.
  abbrev pub in_score_range : ℤ → Bool
  in_score_range x = leb_ℤ (pos 0) x && leb_ℤ x (pos 100)

  clamp-in_score_range : (x : ℤ) → in_score_range (clamp d to_int64 c x) ≡ true
  clamp-in_score_range x = ground arith

  abbrev is_scored : Option ℤ → Bool
  is_scored none = true
  is_scored (some x) = in_score_range x

  latest_scored :
      (name : String) (x : ℤ) (same : Bool) (later : Option ℤ)
      → in_score_range x ≡ true
      → is_scored later ≡ true
      → is_scored (elim later [ some y ↦ some y | none ↦ if same then some x else none ]) ≡ true
  latest_scored name x same (some y) h k = k
  latest_scored name x true none h k = h
  latest_scored name x false none h k = refl

  value_at-clamped :
      (name : String) (scores : List NodeScore)
      → is_scored (value_at name (clamped d to_int64 c scores)) ≡ true
  unfolding value_at
  value_at-clamped name [] = refl
  value_at-clamped name (s ∷ scores) =
      latest_scored name (clamp d to_int64 c (to_int64 s.score)) (str_eq name s.node_name)
        (value_at name (clamped d to_int64 c scores)) (clamp-in_score_range (to_int64 s.score))
        (value_at-clamped name scores)

  nought_scored : (o : Option ℤ) → is_scored o ≡ true → in_score_range (or_nought o) ≡ true
  nought_scored none h = refl
  nought_scored (some x) h = h

  abbrev is_answer : Result DecisionResponse → Bool
  is_answer (ok resp) = true
  is_answer (err e) = false

  abbrev Answered : Trace → Result DecisionResponse → Type 0
  Answered past r = (is_answer r && not (served past)) ≡ false

  -- Each node's score is in the range, and is 0 where the placement server has not answered.
  abbrev pub Scored : Trace → CycleState → Type 0
  Scored past state =
      (node : Node)
      → (in_score_range (score state node) ≡ true)
        × ((ltb_ℤ (pos 0) (score state node) && not (served past)) ≡ false)

  decided-Scored :
      (state : CycleState) (past : Trace) (r : Result DecisionResponse)
      → Answered past r
      → Scored past (record state { scores = some (scores_from d to_int64 c r) })
  unfolding score value_at
  decided-Scored state past (err e) h node = (refl, refl)
  decided-Scored state past (ok resp) h node = (
    nought_scored (value_at node.name (clamped d to_int64 c resp.node_scores))
        (value_at-clamped node.name resp.node_scores),
    never (ltb_ℤ (pos 0) (or_nought (value_at node.name (clamped d to_int64 c resp.node_scores))))
        (not (served past)) h,
  )
    where
      never : (a b : Bool) → (true && b) ≡ false → (a && b) ≡ false
      never a b k = ground arith

  decode-Answered :
      (body : String) (past : Trace)
      → served past ≡ true
      → Wp (op (Op.decode_decision body)) past Answered
  decode-Answered body past h (ok resp) = rw h refl
  decode-Answered body past h (err e) = refl

  -- In every run of PreScore, whatever its calls are answered, and whatever int64 makes of a float64,
  -- Score then gives each node a score from 0 to 100, and 0 unless the placement server has answered
  -- with the status 200. What PreFilter has stored is left alone.
  pub pre_score-Scored :
      (state : CycleState) (pod : Pod) (infos : List (Option Node))
      → Wp
          (pre_score d to_int64 c state pod infos)
          []
          (λ past state'. Scored past state' × (state'.gate ≡ state.gate))
  unfolding pre_score decide
  pre_score-Scored state pod infos =
      Wp-bind (decide d to_int64 c pod (present d to_int64 c infos)) _ [] _ (
        Wp_mono (decide d to_int64 c pod (present d to_int64 c infos)) [] _ _
          (post-cases (score_url d to_int64 c) (score_texts d to_int64 c pod)
            (λ body. op (Op.decode_decision body)) _ Answered (λ past' e. refl) decode-Answered [])
          (λ past r h. (decided-Scored state past r h, refl)))

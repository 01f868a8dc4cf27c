-- ===== src/Placement/Server/Hints.antt =====
-- internal/placement-server/server.go: a waiting decision comes before the agent.
use hiro_adaptive_orchestrat.Base.{
  ◌≡◌, refl, ◌⊎◌, inl, inr, String, List, [], ◌∷◌, map, Option, none, some, Result, ok, err, Exit,
  returned, panicked, arith,
}
use hiro_adaptive_orchestrat.Types.{OrchestrationProfile}
use hiro_adaptive_orchestrat.Cluster.{Pod, Node}
use hiro_adaptive_orchestrat.Io.{Op, Answer}
use hiro_adaptive_orchestrat.Io.Wp.{Trace, Wp, Wp-bind, Wp_mono, Wp_and}
use hiro_adaptive_orchestrat.Io.Closed.{Keeping, Keeping-IsClosed}
use hiro_adaptive_orchestrat.Io.Effects.{IsRead}
use hiro_adaptive_orchestrat.Utils.Closed.{ClosedReads}
use hiro_adaptive_orchestrat.Placement.Types.{DecisionRequest, DecisionResponse}
use hiro_adaptive_orchestrat.Placement.Hint.{decision_store_response}
use hiro_adaptive_orchestrat.Placement.Client.{request_decision}
use hiro_adaptive_orchestrat.Placement.Client.Closed.{request_decision-Closed}
use hiro_adaptive_orchestrat.Placement.Client.Once.{asks, Settled, request_decision-Settled}
use hiro_adaptive_orchestrat.Placement.Builder.{find_profile_for_pod, build}
use hiro_adaptive_orchestrat.Placement.Builder.Closed.{find_profile_for_pod-Closed, build-Closed}
use hiro_adaptive_orchestrat.Placement.Server.{
  PlacementServer, consult_found, consult_store, send, ask_agent, score_after, score,
}

-- The first of two results.
abbrev or_else : {A : Type 0} → Option A → Option A → Option A
or_else none b = b
or_else (some a) b = some a

or_else-none : {A : Type 0} (o : Option A) → or_else o none ≡ o
or_else-none none = refl
or_else-none (some a) = refl

module _ (s : PlacementServer) (pod : Pod) (nodes : List Node) (id : String) where
  abbrev answer_of : (o : Op) → Answer o → Option DecisionResponse
  answer_of (Op.store_lookup key) entry =
      decision_store_response id (map (λ node. node.name) nodes) entry
  answer_of _ x = none

  -- What the decision store has given as an answer.
  abbrev pub hint : Trace → Option DecisionResponse
  hint [] = none
  hint (e ∷ past) = or_else (answer_of e.op e.answer) (hint past)

  -- Nobody was asked yet.
  abbrev Fresh : Trace → Type 0
  Fresh past = (asks past ≡ 0) × (hint past ≡ none)

  unread :
      (o : Op) (x : Answer o)
      → IsRead o
      → (past : Trace) → Fresh past
      → Fresh (record { op = o; answer = x } ∷ past)
  unread (Op.store_lookup key) x read past fresh = ground arith
  unread (Op.call_agent req) x read past fresh = ground arith
  unread _ x read past fresh = fresh

  unasked_reads : ClosedReads (Keeping Fresh)
  unasked_reads o read past fresh = λ x. unread o x read past fresh

  abbrev Unhinted : Trace → Type 0
  Unhinted past = hint past ≡ none

  unhinted :
      (o : Op) (x : Answer o)
      → IsRead o
      → (past : Trace) → Unhinted past
      → Unhinted (record { op = o; answer = x } ∷ past)
  unhinted (Op.store_lookup key) x read past h = ground arith
  unhinted _ x read past h = h

  -- The answer of the store, as the trace tells it.
  abbrev Consulted : Trace → Option DecisionResponse → Type 0
  Consulted past found = (asks past ≡ 0) × (hint past ≡ found)

  consult_found-Consulted :
      (found : Result (Option OrchestrationProfile)) (past : Trace)
      → Fresh past
      → Wp (consult_found s nodes id found) past Consulted
  unfolding consult_found
  consult_found-Consulted (err e) past fresh = fresh
  consult_found-Consulted (ok none) past fresh = fresh
  consult_found-Consulted (ok (some profile)) past fresh =
      λ entry. (fresh.0, rw (fresh.1) (or_else-none _))

  consult_store-Consulted : Wp (consult_store s pod nodes id) [] Consulted
  unfolding consult_store
  consult_store-Consulted =
      Wp-bind (find_profile_for_pod s.deps pod) (consult_found s nodes id) [] Consulted (
        Wp_mono (find_profile_for_pod s.deps pod) [] _ _
          (find_profile_for_pod-Closed (Keeping Fresh) (Keeping-IsClosed Fresh) unasked_reads s.deps
            pod [] (refl, refl))
          (λ past found fresh. consult_found-Consulted found past fresh))

  -- Either the store has answered, and nobody was asked, or the agent was asked at most once.
  abbrev pub Decided : Trace → Exit (Result DecisionResponse) → Type 0
  Decided past x =
      ((resp : DecisionResponse) × ((hint past ≡ some resp)
          × ((x ≡ returned (ok resp)) × (asks past ≡ 0))))
      ⊎ ((hint past ≡ none) × Settled past x)

  send-Decided :
      (built : Exit (Result DecisionRequest)) (past : Trace)
      → Fresh past
      → Wp (send s built) past Decided
  send-Decided panicked past fresh = inr (fresh.1, fresh.0)
  send-Decided (returned (err e)) past fresh = inr (fresh.1, (omega (arith, fresh.0), refl))
  send-Decided (returned (ok req)) past fresh =
      Wp_mono (request_decision s.deps s.client req) past _ _
        (Wp_and (request_decision s.deps s.client req) past (λ past' x. Unhinted past') Settled
          (request_decision-Closed (Keeping Unhinted) (Keeping-IsClosed Unhinted)
            (λ o read past' h x. unhinted o x read past' h) s.deps s.client (λ req' past' h x. h)
            req past fresh.1)
          (request_decision-Settled s.deps s.client req past fresh.0))
        (λ past' x h. inr h)

  score_after-Decided :
      (found : Option DecisionResponse) (past : Trace)
      → Consulted past found
      → Wp (score_after s pod nodes id found) past Decided
  unfolding score_after ask_agent
  score_after-Decided (some resp) past h = inl (resp, (h.1, (refl, h.0)))
  score_after-Decided none past h = Wp-bind (build s.deps pod nodes id) (send s) past Decided (
      Wp_mono (build s.deps pod nodes id) past _ _
        (build-Closed (Keeping Fresh) (Keeping-IsClosed Fresh) unasked_reads pod nodes id s.deps
          past h)
        (λ past' built fresh. send-Decided built past' fresh))

  -- In every run of score, whatever its calls are answered: if the decision store has an answer for
  -- the candidates, then that is the result, and the agent is not asked. If it has none, the agent is
  -- asked at most once, not at all if the scoring panics, and a result without an error comes of an
  -- answer of the agent with the status 200.
  pub score-Decided : Wp (score s pod nodes id) [] Decided
  unfolding score
  score-Decided = Wp-bind (consult_store s pod nodes id) (score_after s pod nodes id) [] Decided (
      Wp_mono (consult_store s pod nodes id) [] _ _ consult_store-Consulted
        (λ past found h. score_after-Decided found past h))

-- ===== src/Placement/Extender/Hinted.antt =====
-- internal/placement-server/extender.go: what becomes of a waiting decision on its way to the default
-- scheduler.
use hiro_adaptive_orchestrat.Base.{
  ◌≡◌, refl, sym, ap, ◌∙◌, ◌<>◌, String, str_eq, eq_iff, Bool, true, false, ◌||◌, if◌then◌else◌,
  List, [], ◌∷◌, map, All, Option, none, some, ℤ, pos, float_of, arith,
}
use hiro_adaptive_orchestrat.Cluster.{Node}
use hiro_adaptive_orchestrat.Placement.Types.{NodeScore, DecisionResponse}
use hiro_adaptive_orchestrat.Placement.Store.{DecisionStoreEntry}
use hiro_adaptive_orchestrat.Placement.Hint.{
  score_for, decision_store_response, decision_store_response-scores,
}
use hiro_adaptive_orchestrat.Placement.Extender.{
  HostPriority, normalize_score, score_of, priority, node_scores_to_host_priorities,
}
use hiro_adaptive_orchestrat.Placement.Extender.Filter.{is_among}

abbrev Among : List Node → List Node → Type 0
Among nodes = All (λ node. is_among node.name nodes ≡ true)

module _ (target : String) where
  -- What a waiting decision scores a node.
  abbrev value : String → ℤ
  value name = if str_eq name target then float_of 100 else pos 0

  abbrev hints : List Node → List NodeScore
  hints nodes = map (score_for target) (map (λ node. node.name) nodes)

  known :
      (name node : String) (here later : Bool)
      → str_eq name node ≡ here
      → (elim (if later then some (value name) else none) [
        | some x ↦ some x
        | none ↦ if str_eq name node then some (value node) else none
      ])
        ≡ (if here || later then some (value name) else none)
  known name node true true h = refl
  known name node true false h = rw (h, (eq_iff name node).0 h) refl
  known name node false true h = refl
  known name node false false h = rw h refl

  score_of-hints :
      (name : String) (nodes : List Node)
      → score_of name (hints nodes) ≡ (if is_among name nodes then some (value name) else none)
  unfolding score_of
  score_of-hints name [] = refl
  score_of-hints name (node ∷ nodes) =
      rw (score_of-hints name nodes) (known name node.name _ (is_among name nodes) refl)

  -- The target's priority is the highest, and that of all others the lowest.
  abbrev pub hinted : Node → HostPriority
  hinted node = record {
    host = node.name;
    score = if str_eq node.name target then pos 10 else pos 0;
  }

  normalize-value :
      (name : String)
      → normalize_score (value name) ≡ (if str_eq name target then pos 10 else pos 0)
  unfolding normalize_score
  normalize-value name = ground arith

  priority-hinted :
      (nodes : List Node) (node : Node)
      → is_among node.name nodes ≡ true
      → priority (hints nodes) node ≡ hinted node
  priority-hinted nodes node among =
      ap (λ x. record { host = node.name; score = x })
        (rw (score_of-hints node.name nodes, among) (normalize-value node.name))

  priorities-hinted :
      (nodes sub : List Node)
      → Among nodes sub
      → node_scores_to_host_priorities (hints nodes) sub ≡ map hinted sub
  unfolding node_scores_to_host_priorities
  priorities-hinted nodes [] h = refl
  priorities-hinted nodes (node ∷ sub) h =
      rw (priority-hinted nodes node h.0, priorities-hinted nodes sub h.1) refl

weaker : (a b : Bool) → b ≡ true → (a || b) ≡ true
weaker a b h = ground arith

weaken_all : (node : Node) (nodes sub : List Node) → Among nodes sub → Among (node ∷ nodes) sub
weaken_all node nodes [] h = tt
weaken_all node nodes (n ∷ sub) h =
    (weaker (str_eq n.name node.name) _ h.0, weaken_all node nodes sub h.1)

each_in_itself : (nodes : List Node) → Among nodes nodes
each_in_itself [] = tt
each_in_itself (node ∷ nodes) = (
  rw ((eq_iff node.name node.name).1 refl) refl,
  weaken_all node nodes nodes (each_in_itself nodes),
)

abbrev scores_of : Option DecisionResponse → List NodeScore
scores_of none = []
scores_of (some resp) = resp.node_scores

-- A waiting decision that answers for a pod reaches the default scheduler as it is meant: of the
-- priorities that the extender makes of the answer, the target has 10, and every other node 0.
pub node_scores_to_host_priorities-hinted :
    (id : String) (entry : DecisionStoreEntry) (nodes : List Node) (resp : DecisionResponse)
    → decision_store_response id (map (λ node. node.name) nodes) (some entry) ≡ some resp
    → node_scores_to_host_priorities resp.node_scores nodes ≡ map (hinted entry.target_node) nodes
node_scores_to_host_priorities-hinted id entry nodes resp h =
    scored _ (sym (decision_store_response-scores id (map (λ node. node.name) nodes) entry) ∙ h)
  where
    scored :
        (usable : Bool)
        → (if usable
            then some (record {
              request_id = id;
              node_scores = hints entry.target_node nodes;
              reason = "rebalance decision " <> entry.decision_id <> ": " <> entry.reason;
            })
            else none)
          ≡ some resp
        → node_scores_to_host_priorities resp.node_scores nodes
          ≡ map (hinted entry.target_node) nodes
    scored true e =
        rw (← ap scores_of e)
          (priorities-hinted entry.target_node nodes nodes (each_in_itself nodes))
    scored false e = ground arith

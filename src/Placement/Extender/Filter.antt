-- ===== src/Placement/Extender/Filter.antt =====
-- internal/placement-server/extender.go: how the filter route splits the nodes.
use hiro_adaptive_orchestrat.Base.{
  ◌≡◌, refl, sym, ◌∙◌, ◌⊎◌, inl, inr, Bool, true, false, not, ◌&&◌, ◌||◌, str_eq, eq_iff, no_clash,
  if◌then◌else◌, String, List, [], ◌∷◌, Option, none, some, ok, Exit, returned, arith,
}
use hiro_adaptive_orchestrat.Cluster.{Pod, Node}
use hiro_adaptive_orchestrat.Io.Wp.{Trace, Wp, Wp-bind, Wp_mono}
use hiro_adaptive_orchestrat.Placement.Types.{EnergyGateResponse}
use hiro_adaptive_orchestrat.Placement.Server.{PlacementServer, Request, Reply, filter, or_allow}
use hiro_adaptive_orchestrat.Placement.Server.FailOpen.{lookup_failed, filter-Opens}
use hiro_adaptive_orchestrat.Placement.Extender.{
  ExtenderArgs, ExtenderFilterResult, put_failed, fail_nodes, filter_result, filter_args,
  handle_extender_filter,
}

-- The reason of a failed node.
abbrev pub failure_of : String → List (String × String) → Option String
failure_of name [] = none
failure_of name (entry ∷ entries) =
    if str_eq name (entry.0) then some (entry.1) else failure_of name entries

abbrev pub is_among : String → List Node → Bool
is_among name [] = false
is_among name (node ∷ nodes) = str_eq name node.name || is_among name nodes

-- Two names that differ are not both a third.
apart :
    (name node other : String)
    → str_eq node other ≡ false
    → str_eq name node ≡ true
    → str_eq name other ≡ true
    → ⊥
apart name node other h p q =
    no_clash (str_eq node other)
      ((eq_iff node other).1 (sym ((eq_iff name node).0 p) ∙ (eq_iff name other).0 q)) h

module _ {A : Type 0} where
  once : (b : Bool) (x y z : A) → (if b then x else z) ≡ (if b then x else (if b then y else z))
  once b x y z = ground arith

  swap_tests :
      (b c : Bool) (x y z : A)
      → (b ≡ true → c ≡ true → ⊥)
      → (if c then y else (if b then x else z)) ≡ (if b then x else (if c then y else z))
  swap_tests true true x y z h = absurd (h refl refl)
  swap_tests true false x y z h = refl
  swap_tests false true x y z h = refl
  swap_tests false false x y z h = refl

module _ (name node reason : String) where
  abbrev Put : List (String × String) → List (String × String) → Type 0
  Put entries entries' =
      failure_of name entries' ≡ (if str_eq name node then some reason else failure_of name entries)

  place_one :
      (entry : String × String) (entries rest : List (String × String))
      → Put entries rest
      → (same : Bool) → str_eq node (entry.0) ≡ same
      → Put (entry ∷ entries) (if same then (node, reason) ∷ entries else entry ∷ rest)
  place_one entry entries rest ih true h =
      rw (← (eq_iff node (entry.0)).0 h)
        (once (str_eq name node) (some reason) (some (entry.1)) (failure_of name entries))
  place_one entry entries rest ih false h = rw ih (
      swap_tests (str_eq name node) (str_eq name (entry.0)) (some reason) (some (entry.1))
        (failure_of name entries) (apart name node (entry.0) h))

  failure_of-put_failed :
      (entries : List (String × String)) → Put entries (put_failed node reason entries)
  unfolding put_failed
  failure_of-put_failed [] = refl
  failure_of-put_failed (entry ∷ entries) =
      place_one entry entries _ (failure_of-put_failed entries) _ refl

module _ (name reason : String) where
  or_else :
      (b c : Bool) (x : Option String)
      → (if c then some reason else (if b then some reason else x))
        ≡ (if b || c then some reason else x)
  or_else b c x = ground arith

  failure_of-fail_nodes :
      (nodes : List Node) (entries : List (String × String))
      → failure_of name (fail_nodes reason nodes entries)
        ≡ (if is_among name nodes then some reason else failure_of name entries)
  unfolding fail_nodes
  failure_of-fail_nodes [] entries = refl
  failure_of-fail_nodes (node ∷ nodes) entries =
      rw
        (
          failure_of-fail_nodes nodes (put_failed node.name reason entries),
          failure_of-put_failed name node.name reason entries,
        )
        (or_else (str_eq name node.name) (is_among name nodes) (failure_of name entries))

-- The scheduler's request about a pod and nodes.
abbrev pub scheduler_post : Pod → List Node → Request ExtenderArgs
scheduler_post pod nodes = record {
  method = "POST";
  body = ok (record { pod = some pod; nodes = some nodes });
}

module _ (nodes : List Node) where
  abbrev pub Passed : ExtenderFilterResult → Type 0
  Passed r = (r.nodes ≡ nodes) × (r.failed_nodes ≡ [])

  -- Exactly the names of the nodes are in the map of failed nodes, with one reason.
  abbrev pub Blocked : ExtenderFilterResult → Type 0
  Blocked r =
      (r.nodes ≡ [])
      × ((reason : String) × ((name : String)
            → failure_of name r.failed_nodes ≡ (if is_among name nodes then some reason else none)))

  abbrev pub Splits : Trace → String → Exit (Reply ExtenderFilterResult) → Type 0
  Splits past id x =
      (r : ExtenderFilterResult) × ((x ≡ returned (Reply.json_reply id r))
        × (Passed r ⊎ (Blocked r × (lookup_failed past ≡ false))))

  gate-Splits :
      (past : Trace) (id : String) (gate : EnergyGateResponse) (passes : Bool)
      → gate.allowed ≡ passes
      → (lookup_failed past && not gate.allowed) ≡ false
      → Splits past id (returned (Reply.json_reply id (filter_result gate nodes)))
  unfolding filter_result
  gate-Splits past id gate true h opens =
      (filter_result gate nodes, (refl, inl (rw h refl, rw h refl)))
  gate-Splits past id gate false h opens = (
    filter_result gate nodes,
    (
      refl,
      inr (
        (rw h refl, (gate.reason, λ name. rw h (failure_of-fail_nodes name gate.reason nodes []))),
        ground (arith, opens, h),
      ),
    ),
  )

  -- In every run of the extender's filter route on a pod and nodes, whatever its calls are answered,
  -- the reply either passes all the nodes, in their order, and fails none, or it passes none and
  -- fails exactly the nodes given, by name, all for one reason. It passes them where a lookup of
  -- profiles or of energy resources has failed.
  pub handle_extender_filter-Splits :
      (s : PlacementServer) (pod : Pod)
      → Wp
          (handle_extender_filter s (scheduler_post pod nodes))
          []
          (λ past x. Splits past pod.uid x)
  unfolding handle_extender_filter filter_args
  handle_extender_filter-Splits s pod =
      Wp-bind (filter s pod) _ [] (λ past x. Splits past pod.uid x)
        (Wp_mono (filter s pod) [] _ _ (filter-Opens s pod)
          (λ past gate opens. gate-Splits past pod.uid (or_allow s gate) _ refl opens))

-- ===== src/Rebalance/Enact/Move/Intent.antt =====
-- internal/rebalance/move_enactor.go: the entry of the decision store around an eviction.
use hiro_adaptive_orchestrat.Base.{
  ◌≡◌, refl, ◌∙◌, Bool, true, false, if◌then◌else◌, String, str_eq, eq_iff, List, [], ◌∷◌, Option,
  none, some, Result, ok, err, wrap, Deps, clash,
}
use hiro_adaptive_orchestrat.Types.{Duration, RebalanceAction, OrchestrationProfile}
use hiro_adaptive_orchestrat.Cluster.{Pod}
use hiro_adaptive_orchestrat.Io.{Op, Answer, ret}
use hiro_adaptive_orchestrat.Io.Wp.{Event, Trace, Wp, Wp_mono, Keeps-then}
use hiro_adaptive_orchestrat.Io.Closed.{Property, Keeping, Keeping-IsClosed}
use hiro_adaptive_orchestrat.Io.Effects.{IsRead}
use hiro_adaptive_orchestrat.Utils.{on_ok, find_pods_for_application}
use hiro_adaptive_orchestrat.Rebalance.Settings.{positive_or}
use hiro_adaptive_orchestrat.Rebalance.Enact.{classify_schedule_timeout}
use hiro_adaptive_orchestrat.Rebalance.Enact.Closed.{
  ClosedReads, find_pods_for_application-Closed, classify_schedule_timeout-Closed,
}
use hiro_adaptive_orchestrat.Rebalance.Enact.Closed.Move.{
  await_replacement-Closed, find_pod_by_name-name,
}
use hiro_adaptive_orchestrat.Rebalance.Enact.Move.{
  find_pod_by_name, move_enactor, await_replacement, default_move_action_timeout, workload_key,
  evict_found, await_and_judge, evicted,
}

-- What an entry says: the action, the pod and the node, with its key.
pub record Intent : Type 0 where
  pub key : String
  pub act : RebalanceAction
  pub pod : String
  pub node : String

-- The entry under a key after a call.
abbrev held_after : String → (o : Op) → Option Intent → Option Intent
held_after k (Op.store_put key pod act node reason id) old =
    if str_eq k key then some (record { key = key; act = act; pod = pod; node = node }) else old
held_after k (Op.store_delete key) old = if str_eq k key then none else old
held_after k _ old = old

-- The entry that the calls of a trace leave in the store under a key.
abbrev pub held : String → Trace → Option Intent
held k [] = none
held k (e ∷ past) = held_after k e.op (held k past)

abbrev IsGuarded : Intent → Trace → Op → Type 0
IsGuarded it past (Op.evict_pod pod) =
    (held it.key past ≡ some it) × (str_eq pod.name it.pod ≡ true)
IsGuarded it past _ = Unit

-- At every eviction, which is one of the entry's pod, the store holds the entry under its key.
abbrev pub Guarded : Intent → Trace → Type 0
Guarded it [] = Unit
Guarded it (e ∷ past) = IsGuarded it past e.op × Guarded it past

-- The store at one moment, with this entry under the one key and none under any other, and the
-- evictions up to it.
abbrev Holds : Intent → Option Intent → Trace → Type 0
Holds it now past =
    ((k : String) → held k past ≡ (if str_eq k it.key then now else none)) × Guarded it past

after_read :
    (it : Intent) (now : Option Intent) (o : Op) (x : Answer o) (past : Trace)
    → IsRead o
    → Holds it now past
    → Holds it now (record { op = o; answer = x } ∷ past)
after_read it now (Op.store_put key pod act node reason id) x past h p = clash false h refl
after_read it now (Op.store_delete key) x past h p = clash false h refl
after_read it now (Op.evict_pod pod) x past h p = clash false h refl
after_read it now _ x past h p = (p.0, (tt, p.1))

-- What an assignment under the key leaves there and elsewhere.
assigned :
    (b : Bool) (new old now : Option Intent)
    → old ≡ (if b then now else none)
    → (if b then new else old) ≡ (if b then new else none)
assigned true new old now h = refl
assigned false new old now h = h

same : (b : Bool) → ◌≡◌ {A = Option Intent} none (if b then none else none)
same true = refl
same false = refl

nowhere : (b : Bool) (old : Option Intent) → old ≡ (if b then none else none) → old ≡ none
nowhere true old h = h
nowhere false old h = h

module _ (it : Intent) (now : Option Intent) where
  abbrev K : Property
  K = Keeping (Holds it now)

  reads : ClosedReads K
  reads o h past p x = after_read it now o x past h p

module _ (f : Deps) (profile : OrchestrationProfile) (pod_name : String) (target_node : String)
    (reason : String) (id : String) where
  -- The entry for this move.
  abbrev pub intent : Intent
  intent = record {
    key = workload_key profile.namespace profile.name;
    act = RebalanceAction.move;
    pod = pod_name;
    node = target_node;
  }

  abbrev Cleared : {A : Type 0} → Trace → A → Type 0
  Cleared past a = Holds intent none past

  -- The entry put under the key, and deleted from it.
  put_intent :
      (past : Trace)
      → Holds intent none past
      → (k : String)
      → (if str_eq k intent.key then some intent else held k past)
        ≡ (if str_eq k intent.key then some intent else none)
  put_intent past h k = assigned (str_eq k intent.key) (some intent) _ none (h.0 k)

  delete_intent :
      (now : Option Intent) (past : Trace)
      → Holds intent now past
      → (k : String)
      → (if str_eq k intent.key then none else held k past)
        ≡ (if str_eq k intent.key then none else none)
  delete_intent now past h k = assigned (str_eq k intent.key) none _ now (h.0 k)

  held-intent :
      (past : Trace) → Holds intent (some intent) past → held intent.key past ≡ some intent
  held-intent past h = h.0 intent.key ∙ rw ((eq_iff intent.key intent.key).1 refl) refl

  abbrev putting : Unit {0} → Event
  putting u = record {
    op = Op.store_put intent.key pod_name RebalanceAction.move target_node reason id;
    answer = u;
  }

  -- The entry is put, and then a pod of its name evicted.
  put_and_evicted :
      (pod : Pod) (past : Trace) (u : Unit {0}) (res : Result (Unit {0}))
      → str_eq pod.name pod_name ≡ true
      → Holds intent none past
      → Holds intent
          (some intent)
          (record { op = Op.evict_pod pod; answer = res } ∷ putting u ∷ past)
  put_and_evicted pod past u res named h =
      let stored : Holds intent (some intent) (putting u ∷ past) = (put_intent past h, (tt, h.1)) in
      (stored.0, ((held-intent (putting u ∷ past) stored, named), stored.1))

  module _ (timeout : Duration) where
    judged-Wp :
        (found : Result Pod) (past : Trace)
        → Holds intent (some intent) past
        → Wp (await_and_judge f profile pod_name target_node reason id timeout found) past Cleared
    judged-Wp (ok p) past h = λ _. (delete_intent _ past h, (tt, h.1))
    judged-Wp (err e) past h = λ _.
        Keeps-then (Holds intent none) (Holds intent none)
          (classify_schedule_timeout profile e.message) (λ classified. ret (ok classified)) _
          (classify_schedule_timeout-Closed (K intent none) (Keeping-IsClosed (Holds intent none))
            (reads intent none) profile e.message)
          (delete_intent _ past h, (tt, h.1)) (λ past' _ h'. h')

    evicted-Wp :
        (before : List Pod) (pod : Pod) (res : Result (Unit {0})) (past : Trace)
        → Holds intent (some intent) past
        → Wp (evicted f profile pod_name target_node reason id timeout before pod res) past Cleared
    evicted-Wp before pod (err e) past h = λ _. (delete_intent _ past h, (tt, h.1))
    evicted-Wp before pod (ok _) past h =
        Keeps-then (Holds intent (some intent)) (Holds intent none)
          (await_replacement f profile before timeout)
          (await_and_judge f profile pod_name target_node reason id timeout) past
          (await_replacement-Closed (K intent (some intent))
            (Keeping-IsClosed (Holds intent (some intent))) (reads intent (some intent)) f profile
            before timeout)
          h (λ past' found h'. judged-Wp found past' h')

    evict_found-Wp :
        (before : List Pod) (found : Option Pod) (past : Trace)
        → find_pod_by_name pod_name before ≡ found
        → Holds intent none past
        → Wp
            (evict_found f profile pod_name target_node reason id timeout before found)
            past
            Cleared
    evict_found-Wp before none past e h = h
    evict_found-Wp before (some pod) past e h = λ u res.
        evicted-Wp before pod res _
          (put_and_evicted pod past u res (find_pod_by_name-name pod_name before pod e) h)

  listed-Wp :
      (timeout : Duration) (listed : Result (List Pod)) (past : Trace)
      → Holds intent none past
      → Wp
          (on_ok
            (wrap "listing pods before eviction")
            (λ before.
              evict_found f profile pod_name target_node reason id timeout before
                (find_pod_by_name pod_name before))
            listed)
          past
          Cleared
  listed-Wp timeout (ok before) past h = evict_found-Wp timeout before _ past refl h
  listed-Wp timeout (err e) past h = h

  -- In every run of the move enactor, whatever its calls are answered, each eviction is one of a pod
  -- of the given name, the decision store then holds the move's entry under the workload's key, and at
  -- the end it holds no entry of the enactor under any key: also when the eviction is refused and when
  -- no replacement is seen in time.
  pub move_enactor-clears :
      (timeout : Duration)
      → Wp
          (move_enactor f profile pod_name target_node reason id timeout)
          []
          (λ past _. ((k : String) → held k past ≡ none) × Guarded intent past)
  unfolding move_enactor
  move_enactor-clears timeout =
      Wp_mono (move_enactor f profile pod_name target_node reason id timeout) [] _ _
        (Keeps-then (Holds intent none) (Holds intent none)
          (find_pods_for_application profile.spec.application_ref)
          (on_ok (wrap "listing pods before eviction") (λ before.
            evict_found f profile pod_name target_node reason id
              (positive_or default_move_action_timeout timeout) before
              (find_pod_by_name pod_name before)))
          []
          (find_pods_for_application-Closed (K intent none) (Keeping-IsClosed (Holds intent none))
            (reads intent none) profile.spec.application_ref)
          (λ k. same (str_eq k intent.key), tt) (λ past listed h. listed-Wp _ listed past h))
        (λ past _ h. (λ k. nowhere (str_eq k intent.key) _ (h.0 k), h.1))

-- ===== src/Rebalance/Enact/Retry/Count.antt =====
-- internal/rebalance/retry_enactor.go: which pods the retry deletes, and how many it counts.
use hiro_adaptive_orchestrat.Base.{
  ℕ, suc, ◌+◌, ◌≡◌, refl, ◌∙◌, ◌⊎◌, inl, inr, Bool, true, false, List, [], ◌∷◌, length, Result,
  Error, ok, err, is_not_found, wrap, ◌<>◌, if◌then◌else◌, arith,
}
use hiro_adaptive_orchestrat.Cluster.{Pod}
use hiro_adaptive_orchestrat.Io.{Op, Prog, ret, op, ◌>>=◌}
use hiro_adaptive_orchestrat.Io.Wp.{Event, Trace, Wp, Wp_mono}
use hiro_adaptive_orchestrat.Rebalance.Enact.Retry.{
  is_unscheduled, delete_unscheduled, after_delete,
}

-- The pods of a list that are pending on no node.
abbrev pub unscheduled : List Pod → List Pod
unscheduled [] = []
unscheduled (pod ∷ pods) =
    let rest = unscheduled pods in if is_unscheduled pod then pod ∷ rest else rest

-- An answer after which the pod is gone.
abbrev pub IsGone : Result (Unit {0}) → Type 0
IsGone (ok _) = Unit
IsGone (err e) = is_not_found e ≡ true

abbrev pub deletion : Pod → Result (Unit {0}) → Event
deletion pod x = record { op = Op.delete_pod pod; answer = x }

-- From one trace to another these pods were deleted, in this order, and nothing else was called.
abbrev pub Deleted : Trace → List Pod → Trace → Type 0
Deleted past [] past' = past' ≡ past
Deleted past (pod ∷ pods) past' =
    (x : Result (Unit {0})) × IsGone x × Deleted (deletion pod x ∷ past) pods past'

-- From one trace to another the pods were deleted in this order up to one whose deletion failed,
-- which is the error.
abbrev pub Stopped : Trace → List Pod → Trace → Error → Type 0
Stopped past [] past' e = ⊥
Stopped past (pod ∷ pods) past' e =
    (x : Result (Unit {0})) × ((IsGone x × Stopped (deletion pod x ∷ past) pods past' e)
      ⊎ ((y : Error) × (x ≡ err y)
          × (is_not_found y ≡ false)
          × (past' ≡ deletion pod x ∷ past)
          × (e ≡ wrap ("deleting pending pod " <> pod.name) y)))

-- All were deleted, and counted on from `n`; or one failed.
abbrev pub Counted : List Pod → ℕ → Trace → Trace → Result ℕ → Type 0
Counted pods n past past' (ok m) = Deleted past pods past' × (m ≡ n + length pods)
Counted pods n past past' (err e) = Stopped past pods past' e

module _ (pod : Pod) (left : List Pod) (n : ℕ) (past : Trace) where
  -- One deletion more in front.
  extended :
      (x : Result (Unit {0})) (past' : Trace) (r : Result ℕ)
      → IsGone x
      → Counted left (suc n) (deletion pod x ∷ past) past' r
      → Counted (pod ∷ left) n past past' r
  extended x past' (ok m) gone h = ((x, gone, h.0), h.1 ∙ ground arith)
  extended x past' (err e) gone h = (x, inl (gone, h))

  module _ (rest : Prog (Result ℕ))
      (h : (past : Trace) → Wp rest past (λ past' r. Counted left (suc n) past past' r)) where
    -- What follows the answer to one deletion.
    answered :
        (x : Result (Unit {0}))
        → Wp
            (after_delete pod rest x)
            (deletion pod x ∷ past)
            (λ past' r. Counted (pod ∷ left) n past past' r)
    answered (ok u) = Wp_mono rest _ _ _ (h _) (λ past' r. extended (ok u) past' r tt)
    answered (err y) = failed (is_not_found y) refl
      where
        failed :
            (b : Bool)
            → is_not_found y ≡ b
            → Wp
                (if b then rest else ret (err (wrap ("deleting pending pod " <> pod.name) y)))
                (deletion pod (err y) ∷ past)
                (λ past' r. Counted (pod ∷ left) n past past' r)
        failed true e = Wp_mono rest _ _ _ (h _) (λ past' r. extended (err y) past' r e)
        failed false e = (err y, inr (y, refl, e, refl, refl))

-- One pod.
counted_pod :
    (pod : Pod) (left : List Pod) (rest : ℕ → Prog (Result ℕ))
    → ((k : ℕ) (past : Trace) → Wp (rest k) past (λ past' r. Counted left k past past' r))
    → (n : ℕ) (past : Trace) (b : Bool)
    → Wp
        (elim b [
          | false ↦ rest n
          | true ↦ op (Op.delete_pod pod) >>= after_delete pod (rest (suc n))
        ])
        past
        (λ past' r. Counted (if b then pod ∷ left else left) n past past' r)
counted_pod pod left rest h n past false = h n past
counted_pod pod left rest h n past true = answered pod left n past (rest (suc n)) (h (suc n))

counted :
    (pods : List Pod) (n : ℕ) (past : Trace)
    → Wp (delete_unscheduled pods n) past (λ past' r. Counted (unscheduled pods) n past past' r)
unfolding delete_unscheduled
counted [] n past = (refl, ground arith)
counted (pod ∷ pods) n past =
    counted_pod pod (unscheduled pods) (delete_unscheduled pods) (counted pods) n past
      (is_unscheduled pod)

-- Every run of the retry's loop makes no call but deletions of the pods that are pending on no node,
-- in their order. If it ends without an error, all of them were deleted or were gone
-- already, and the result is their number. It ends with an error exactly at the first deletion that
-- fails for another reason, and that is the error.
pub delete_unscheduled-Counted :
    (pods : List Pod)
    → Wp (delete_unscheduled pods 0) [] (λ past r. Counted (unscheduled pods) 0 [] past r)
delete_unscheduled-Counted pods = counted pods 0 []

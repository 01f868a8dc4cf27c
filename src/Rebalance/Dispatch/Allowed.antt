-- ===== src/Rebalance/Dispatch/Allowed.antt =====
-- internal/rebalance/scale_enactor.go: the replica counts that the autoscalers of a namespace allow a
-- workload, told without the bounds that the code makes of them.
use hiro_adaptive_orchestrat.Base.{
  ◌≡◌, refl, ◌||◌, Bool, true, false, not, is_empty, List, [], ◌∷◌, Option, none, some, ℤ, pos,
  leb_ℤ, ltb_ℤ, if◌then◌else◌, Result, ok, err, arith,
}
use hiro_adaptive_orchestrat.Types.{ApplicationReference}
use hiro_adaptive_orchestrat.Cluster.{Autoscaler}
use hiro_adaptive_orchestrat.Rebalance.Settings.{
  Reconciler, positive_or, default_min_replicas, default_max_replicas,
}
use hiro_adaptive_orchestrat.Rebalance.Enact.Scale.{
  ReplicaBounds, targets, keda_scaled_object_owner, autoscaler_bounds, bounds_among,
  fallback_bounds, bounds_of_list,
}

-- `lo <= n <= hi`
abbrev pub Between : ℤ → ℤ → ℤ → Type 0
Between lo n hi = (leb_ℤ lo n ≡ true) × (leb_ℤ n hi ≡ true)

-- The least count of an autoscaler: 1 where it states none.
abbrev pub least : Option ℤ → ℤ
least (some lo) = lo
least none = pos 1

module _ (r : Reconciler) (ref : ApplicationReference) (n : ℤ) where
  -- The autoscalers allow a count: the first that targets the workload is not owned by a KEDA
  -- ScaledObject and has the count within its bounds; or there is none, and the count is within the
  -- engine's.
  pub data Allows : List Autoscaler → Type 0 where
    by_default :
        Between
          (positive_or default_min_replicas r.min_replicas)
          n
          (positive_or default_max_replicas r.max_replicas)
        → Allows []
    by_first :
        (hpa : Autoscaler) (hpas : List Autoscaler)
        → targets ref hpa ≡ true
        → is_empty (keda_scaled_object_owner hpa.owner_references) ≡ true
        → Between (least hpa.min_replicas) n hpa.max_replicas
        → Allows (hpa ∷ hpas)
    by_later :
        (hpa : Autoscaler) (hpas : List Autoscaler)
        → targets ref hpa ≡ false
        → Allows hpas
        → Allows (hpa ∷ hpas)

  -- A listing that failed is taken for an empty one.
  abbrev pub AllowedBy : Result (List Autoscaler) → Type 0
  AllowedBy (ok hpas) = Allows hpas
  AllowedBy (err e) = Allows []

  -- Bounds that the dispatcher lets the count pass.
  abbrev Passes : ReplicaBounds → Type 0
  Passes b = (b.keda_managed ≡ false) × ((ltb_ℤ n b.min || ltb_ℤ b.max n) ≡ false)

  in_bounds-Between : (lo hi : ℤ) → (ltb_ℤ n lo || ltb_ℤ hi n) ≡ false → Between lo n hi
  in_bounds-Between lo hi h = (ground arith, ground arith)

  unowned : (b : Bool) → not b ≡ false → b ≡ true
  unowned b h = ground arith

  fallback-Allows : Passes (fallback_bounds r.min_replicas r.max_replicas) → Allows []
  unfolding fallback_bounds
  fallback-Allows p = Allows.by_default (in_bounds-Between _ _ p.1)

  first-Between :
      (lo : Option ℤ) (hi : ℤ)
      → (ltb_ℤ n (elim lo [ some x ↦ x | none ↦ pos 1 ]) || ltb_ℤ hi n) ≡ false
      → Between (least lo) n hi
  first-Between (some x) hi h = in_bounds-Between x hi h
  first-Between none hi h = in_bounds-Between (pos 1) hi h

  first-Allows :
      (hpa : Autoscaler) (hpas : List Autoscaler)
      → targets ref hpa ≡ true
      → Passes (autoscaler_bounds hpa)
      → Allows (hpa ∷ hpas)
  unfolding autoscaler_bounds
  first-Allows hpa hpas t p =
      Allows.by_first hpa hpas t (unowned _ p.0)
        (first-Between hpa.min_replicas hpa.max_replicas p.1)

  chosen-Allows :
      (hpa : Autoscaler) (hpas : List Autoscaler) (rest : ReplicaBounds)
      → (Passes rest → Allows hpas)
      → (b : Bool) → targets ref hpa ≡ b
      → Passes (if b then autoscaler_bounds hpa else rest)
      → Allows (hpa ∷ hpas)
  chosen-Allows hpa hpas rest h true t p = first-Allows hpa hpas t p
  chosen-Allows hpa hpas rest h false t p = Allows.by_later hpa hpas t (h p)

  among-Allows :
      (hpas : List Autoscaler)
      → Passes (bounds_among ref (fallback_bounds r.min_replicas r.max_replicas) hpas)
      → Allows hpas
  unfolding bounds_among
  among-Allows [] p = fallback-Allows p
  among-Allows (hpa ∷ hpas) p =
      chosen-Allows hpa hpas _ (among-Allows hpas) (targets ref hpa) refl p

  pub listed-AllowedBy :
      (listed : Result (List Autoscaler))
      → Passes (bounds_of_list ref (fallback_bounds r.min_replicas r.max_replicas) listed)
      → AllowedBy listed
  listed-AllowedBy (ok hpas) p = among-Allows hpas p
  listed-AllowedBy (err e) p = fallback-Allows p

-- ===== src/Rebalance/Enact/Resource/Bounds.antt =====
-- internal/rebalance/resource_enactor.go: the range for the targets, and their parsing.
use hiro_adaptive_orchestrat.Base.{
  ◌*◌, String, ◌<>◌, Bool, not, ◌&&◌, ◌||◌, is_empty, if◌then◌else◌, Option, none, some, pos, ltb_ℤ,
  Result, ok, err, wrap, Deps,
}
use hiro_adaptive_orchestrat.Cluster.{Quantity}
use hiro_adaptive_orchestrat.Rebalance.Settings.{Reconciler}
use hiro_adaptive_orchestrat.Rebalance.Enact.Resource.{is_zero}

pub record ResourceBounds : Type 0 where
  pub min_cpu : Quantity
  pub max_cpu : Quantity
  pub min_memory : Quantity
  pub max_memory : Quantity

-- 50m, 2, 64Mi and 2Gi, in billionths.
abbrev pub default_min_cpu : Quantity
default_min_cpu = pos 50000000

abbrev pub default_max_cpu : Quantity
default_max_cpu = pos 2000000000

abbrev pub default_min_memory : Quantity
default_min_memory = pos (67108864 * 1000000000)

abbrev pub default_max_memory : Quantity
default_max_memory = pos (2147483648 * 1000000000)

abbrev pub or_default : Quantity → Quantity → Quantity
or_default default q = if is_zero q then default else q

-- `(r *Reconciler) resourceBounds`
unfoldable pub resource_bounds : Reconciler → ResourceBounds
resource_bounds r = record {
  min_cpu = or_default default_min_cpu r.min_cpu;
  max_cpu = or_default default_max_cpu r.max_cpu;
  min_memory = or_default default_min_memory r.min_memory;
  max_memory = or_default default_max_memory r.max_memory;
}

-- Whether a target is given and lies outside.
abbrev pub outside : Quantity → Quantity → Quantity → Bool
outside lo hi q = not (is_zero q) && (ltb_ℤ q lo || ltb_ℤ hi q)

abbrev range_text : Deps → String → Quantity → Quantity → Quantity → String
range_text f name q lo hi =
    name <> " " <> f.quantity q <> " outside [" <> f.quantity lo <> ", " <> f.quantity hi <> "]"

-- `resourceBounds.check`: `none` if the targets are within, or which bound is violated.
unfoldable pub check : Deps → ResourceBounds → Quantity → Quantity → Option String
check f b cpu memory =
    if outside b.min_cpu b.max_cpu cpu
    then some (range_text f "targetCpu" cpu b.min_cpu b.max_cpu)
    else if outside b.min_memory b.max_memory memory
    then some (range_text f "targetMemory" memory b.min_memory b.max_memory)
    else none

pub record Targets : Type 0 where
  pub cpu : Quantity
  pub memory : Quantity

-- An empty text is the zero quantity.
abbrev parse_target : Deps → String → String → Result Quantity
parse_target f name text = if is_empty text then ok (pos 0) else elim (f.parse_quantity text) [
  | ok q ↦ ok q
  | err e ↦ err (wrap (name <> " " <> f.quote text) e)
]

-- `parseTargetResources`
unfoldable pub parse_target_resources : Deps → String → String → Result Targets
parse_target_resources f cpu memory = elim (parse_target f "targetCpu" cpu) [
  | err e ↦ err e
  | ok c ↦ elim (parse_target f "targetMemory" memory) [
    | err e ↦ err e
    | ok m ↦ ok (record { cpu = c; memory = m })
  ]
]

-- ===== src/Io/Effects.antt =====
-- The calls by what they can change.
use hiro_adaptive_orchestrat.Base.{◌≡◌, Bool, true, false, not, ◌||◌}
use native.Mathlib.Omega.{arith}
use hiro_adaptive_orchestrat.Io.{Op}

-- A call that changes no object of the cluster and no shared state: a read, or a look at the clock.
abbrev pub reads_only : Op → Bool
reads_only (Op.update_status q) = false
reads_only (Op.emit_event warning reason message) = false
reads_only (Op.update_workload kind namespace w) = false
reads_only (Op.delete_pod pod) = false
reads_only (Op.evict_pod pod) = false
reads_only (Op.resize_pod pod) = false
reads_only (Op.store_put key pod act node reason id) = false
reads_only (Op.store_delete key) = false
reads_only (Op.store_lookup key) = false
reads_only (Op.call_agent request) = false
reads_only (Op.wait_for_token timeout) = false
reads_only _ = true

abbrev pub IsRead : Op → Type 0
IsRead o = reads_only o ≡ true

-- The writer's own calls: a profile's status, and an Event about it.
abbrev pub records_only : Op → Bool
records_only (Op.update_status q) = true
records_only (Op.emit_event warning reason message) = true
records_only _ = false

-- The question to the agent.
abbrev pub asks_agent : Op → Bool
asks_agent (Op.call_agent request) = true
asks_agent _ = false

-- A call of the writer, or a read.
abbrev pub IsBookkeeping : Op → Type 0
IsBookkeeping o = (reads_only o || records_only o) ≡ true

-- A call that leaves pods, workloads and the decision store alone.
abbrev pub IsHarmless : Op → Type 0
IsHarmless o = (reads_only o || (records_only o || asks_agent o)) ≡ true

abbrev pub writes_status : Op → Bool
writes_status (Op.update_status q) = true
writes_status _ = false

-- A call that writes no status.
abbrev pub LeavesStatus : Op → Type 0
LeavesStatus o = writes_status o ≡ false

pub IsRead-IsHarmless : (o : Op) → IsRead o → IsHarmless o
IsRead-IsHarmless o h = ground arith

pub IsRead-LeavesStatus : (o : Op) → IsRead o → LeavesStatus o
IsRead-LeavesStatus o h = ground arith

pub IsRead-IsBookkeeping : (o : Op) → IsRead o → IsBookkeeping o
IsRead-IsBookkeeping o h = ground arith

pub IsBookkeeping-IsHarmless : (o : Op) → IsBookkeeping o → IsHarmless o
IsBookkeeping-IsHarmless o h = ground arith

-- A call of an enactor that changes something, or that takes a token of the limiter.
abbrev pub is_enactment : Op → Bool
is_enactment o = not (reads_only o || (records_only o || asks_agent o))

abbrev pub IsEnactment : Op → Type 0
IsEnactment o = is_enactment o ≡ true

pub IsEnactment-LeavesStatus : (o : Op) → IsEnactment o → LeavesStatus o
IsEnactment-LeavesStatus o h = ground arith

pub IsBookkeeping-asks : (o : Op) → IsBookkeeping o → asks_agent o ≡ false
IsBookkeeping-asks o h = ground arith

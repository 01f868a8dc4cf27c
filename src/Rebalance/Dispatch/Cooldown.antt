-- ===== src/Rebalance/Dispatch/Cooldown.antt =====
-- internal/rebalance/dispatch.go: the cooldown as an int64 number of nanoseconds.
use native.Mathlib.Omega.{arith}
use hiro_adaptive_orchestrat.Base.{ℕ, ◌≡◌, ◌≤◌, ◌↔◌, ◌*◌, ◌%◌, pos, of_bits64}
use hiro_adaptive_orchestrat.Types.{OrchestrationProfile}
use hiro_adaptive_orchestrat.Rebalance.Settings.{second}
use hiro_adaptive_orchestrat.Rebalance.Dispatch.{cooldown_of}

small :
    (n : ℕ)
    → n ≤ 9223372036
    → of_bits64 (n * 1000000000 % 18446744073709551616) ≡ pos (n * 1000000000)
small n h = ground arith

exact :
    (n : ℕ)
    → of_bits64 (n * 1000000000 % 18446744073709551616) ≡ pos (n * 1000000000)
    → n ≤ 9223372036
exact n h = ground arith

-- A cooldown of some number of seconds is that many seconds in nanoseconds exactly if they are at
-- most 9223372036, some 292 years: beyond that, and only there, the product overflows.
pub cooldown_of-pos :
    (profile : OrchestrationProfile) (n : ℕ)
    → profile.spec.rebalancing.cooldown_seconds ≡ pos n
    → (cooldown_of profile ≡ pos (n * second)) ↔ (n ≤ 9223372036)
cooldown_of-pos profile n e = rw e (exact n, small n)

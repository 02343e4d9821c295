-- ===== src/Shared/Wrap.antt =====
-- In the range of `int64` the wrap-around changes nothing.
use Prim.Native.Nat.{ℕ, ◌≤◌}
use mathlib.Core.Path.{◌≡◌}
use native.Mathlib.Omega.{arith}
use ooblivion.Shared.Int.{pos, negsuc, max_int64, wrap64}

pub wrap64_small : (n : ℕ) → n ≤ max_int64 → wrap64 (pos n) ≡ pos n
unfolding wrap64
wrap64_small n h = ground arith

pub wrap64_negative : (n : ℕ) → n ≤ max_int64 → wrap64 (negsuc n) ≡ negsuc n
unfolding wrap64
wrap64_negative n h = ground arith

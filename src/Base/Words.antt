-- ===== src/Base/Words.antt =====
-- usize arithmetic on a 64-bit machine in a release build, where it wraps.
use Prim.Native.Nat.{ℕ, ◌+◌, ◌-◌, ◌%◌, ◌^◌, ◌≤◌, ◌<◌}
use mathlib.Core.Path.{◌≡◌}
use native.Mathlib.Omega.{arith}

abbrev pub add_usize : ℕ → ℕ → ℕ
add_usize a b = (a + b) % 2 ^ 64

abbrev pub sub_usize : ℕ → ℕ → ℕ
sub_usize a b = (a + 2 ^ 64 - b) % 2 ^ 64

pub sub_usize-le : (a b : ℕ) → b ≤ a → a < 2 ^ 64 → sub_usize a b ≡ a - b
sub_usize-le a b h k = omega arith

-- ===== src/Rdb/Bytewise.antt =====
-- The tag bits of a length byte. `bit_or` has no laws at a variable, so the two tags are tried on
-- each of the 64 values that a length byte can carry.
use Prim.Native.Nat.{bit_or}
use redvector.Base.{ℕ, zero, suc, ◌+◌, ◌<◌, ◌≡◌, refl, Bool, true, ◌&&◌, arith, ◌==◌}

tags_hold : ℕ → Bool
tags_hold zero = true
tags_hold (suc x) = (bit_or x 0 == x) && (bit_or x 64 == x + 64) && tags_hold x

tags_hold-lt :
    (bound x : ℕ) → x < bound → tags_hold bound ≡ true → (bit_or x 0 ≡ x) × (bit_or x 64 ≡ x + 64)
unfolding tags_hold
tags_hold-lt zero x lt h = elim lt [ ]
tags_hold-lt (suc bound) x lt h = ground (arith, tags_hold-lt bound x)

pub tag_lem : (x : ℕ) → x < 64 → (bit_or x 0 ≡ x) × (bit_or x 64 ≡ x + 64)
unfolding tags_hold
tag_lem x h = tags_hold-lt 64 x h refl

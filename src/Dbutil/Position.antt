-- ===== src/Dbutil/Position.antt =====
-- What `normalize_position` answers, in terms of the signed position.
use redvector.Base.{
  ℕ, suc, ◌-◌, ◌<◌, ◌≡◌, ◌↔◌, ◌⊎◌, true, false, ok, err, ℤ, pos, negsuc, ◌+ℤ◌, ◌≤ℤ◌, ltb,
  if◌then◌else◌, arith,
}
use redvector.Dbutil.{normalize_position}

pub normalize_position-pos :
    (n len : ℕ) → normalize_position (pos n) len ≡ (if ltb n len then ok n else err true)
unfolding normalize_position
normalize_position-pos n len = ground arith

pub normalize_position-negsuc :
    (n len : ℕ)
    → normalize_position (negsuc n) len ≡ (if ltb n len then ok (len - suc n) else err false)
unfolding normalize_position
normalize_position-negsuc n len = ground arith

-- An accepted position lies in the list.
pub normalize_position-lt : (p : ℤ) (len i : ℕ) → normalize_position p len ≡ ok i → i < len
unfolding normalize_position
normalize_position-lt p len i h = ground arith

-- A position is answered by an index exactly when that index is inside the sequence and the
-- position is the index itself, or falls short of it by the length; by `true` exactly when it is
-- past the end; by `false` exactly when it lies before the start even after the length is added.
pub normalize_position_iff :
    (p : ℤ) (len i : ℕ)
    → ((normalize_position p len ≡ ok i) ↔ ((i < len) × ((p ≡ pos i) ⊎ (p +ℤ pos len ≡ pos i))))
      × ((normalize_position p len ≡ err true) ↔ (pos len ≤ℤ p))
      × ((normalize_position p len ≡ err false) ↔ (p +ℤ pos len ≤ℤ negsuc 0))
unfolding normalize_position
normalize_position_iff (pos n) len i = (ground arith, ground arith, ground arith)
normalize_position_iff (negsuc n) len i = (ground arith, ground arith, ground arith)

-- ===== src/Dbutil/Numbers.antt =====
-- `usize_to_vec` and `vec_to_usize` undo one another, but for a plus sign.
use redvector.Base.{ℕ, ◌≤◌, ◌≡◌, ◌≢◌, [], ◌∷◌, Bytes, ok, ◌==◌, arith, Bool-cases, inl, inr}
use redvector.Decimal.{to_string, parse_usize, max_usize}
use redvector.Decimal.Digits.{to_string-Shape, to_string-ascii}
use redvector.Decimal.RoundTrip.{parse_usize-to_string, parse_unsigned-to_string}
use redvector.Decimal.Canonical.{to_string-parse_unsigned, parse_unsigned-zero, to_string-zero}
use redvector.Utf8.{is_utf8-ascii}
use redvector.Dbutil.{usize_to_vec, vec_to_usize}

-- Every usize survives being written and read back.
pub vec_to_usize-usize_to_vec : (n : ℕ) → n ≤ max_usize → vec_to_usize (usize_to_vec n) ≡ ok n
unfolding usize_to_vec vec_to_usize parse_usize
vec_to_usize-usize_to_vec n h =
    let shape = to_string-Shape n in
    ground (
      arith,
      shape.split,
      shape.leading,
      shape.alone,
      parse_usize-to_string n h,
      is_utf8-ascii (to_string n) (to_string-ascii n),
    )

-- Bytes that read as a number and do not begin with a plus sign are the text of that number.
pub usize_to_vec-vec_to_usize :
    (bytes : Bytes) (n : ℕ)
    → ((s : Bytes) → bytes ≢ b'+' ∷ s)
    → vec_to_usize bytes ≡ ok n
    → usize_to_vec n ≡ bytes
unfolding usize_to_vec vec_to_usize parse_usize
usize_to_vec-vec_to_usize [] n np h = ground arith
usize_to_vec-vec_to_usize (c ∷ []) n np h = elim (Bool-cases (c == b'0')) [
  | inl e ↦ ground (arith, np [], parse_unsigned-zero max_usize, to_string-zero)
  | inr e ↦ ground (arith, np [], to_string-parse_unsigned max_usize c [] n)
]
usize_to_vec-vec_to_usize (c ∷ d ∷ s) n np h =
    ground (arith, np (d ∷ s), to_string-parse_unsigned max_usize c (d ∷ s) n)

-- With a plus sign in front the text of a usize reads as the same number.
pub vec_to_usize-plus : (n : ℕ) → n ≤ max_usize → vec_to_usize (b'+' ∷ usize_to_vec n) ≡ ok n
unfolding usize_to_vec vec_to_usize parse_usize
vec_to_usize-plus n h =
    let shape = to_string-Shape n in
    ground (
      arith,
      shape.split,
      parse_unsigned-to_string max_usize n h,
      is_utf8-ascii (b'+' ∷ to_string n) (omega arith, to_string-ascii n),
    )

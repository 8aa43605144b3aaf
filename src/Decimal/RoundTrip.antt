-- ===== src/Decimal/RoundTrip.antt =====
-- Parsing what was printed gives the number back.
use redvector.Base.{
  ℕ, zero, suc, ◌+◌, ◌-◌, ◌*◌, ◌/◌, ◌%◌, ◌^◌, ◌≤◌, ◌<◌, ◌≡◌, refl, ap, ◌∙◌, inl, inr, none, some,
  Option, [], ◌∷◌, ◌++◌, arith, Bytes, ltb, Bool-cases, ltb→lt, ltb→le, ℤ, pos, negsuc, IsI64,
  max_i64,
}
use redvector.Decimal.{
  digits, to_string, to_string_i64, parse_digits, parse_unsigned, parse_usize, parse_i64, max_usize,
}
use redvector.Decimal.Digits.{digits_small, digits_step, to_string-Shape}

abbrev and_then : Option ℕ → (ℕ → Option ℕ) → Option ℕ
and_then none f = none
and_then (some a) f = f a

parse_digits-append :
    (top acc : ℕ) (xs ys : Bytes)
    → parse_digits top acc (xs ++ ys)
      ≡ and_then (parse_digits top acc xs) (λ a. parse_digits top a ys)
unfolding parse_digits
parse_digits-append top acc [] ys = refl
parse_digits-append top acc (c ∷ xs) ys =
    ground (arith, parse_digits-append top (acc * 10 + (c - 48)) xs ys)

parse_digits-digit :
    (top acc d : ℕ)
    → d < 10
    → acc * 10 + d ≤ top
    → parse_digits top acc ((48 + d) ∷ []) ≡ some (acc * 10 + d)
unfolding parse_digits
parse_digits-digit top acc d hd h = ground arith

parse_digits-digits : (top f n : ℕ) → n < f → n ≤ top → parse_digits top 0 (digits f n) ≡ some n
parse_digits-digits top zero n h t = elim h [ ]
parse_digits-digits top (suc f) n h t = elim (Bool-cases (ltb n 10)) [
  | inl small ↦
      rw (digits_small f n (ltb→lt n 10 small))
        (parse_digits-digit top 0 n (ltb→lt n 10 small) (omega arith) ∙ ap some (omega arith))
  | inr big ↦
      let le : 10 ≤ n = ltb→le n 10 big in
      rw
        (
          digits_step f n le,
          parse_digits-append top 0 (digits f (n / 10)) ((48 + n % 10) ∷ []),
          parse_digits-digits top f (n / 10) (omega arith) (omega arith),
        )
        (parse_digits-digit top (n / 10) (n % 10) (omega arith) (omega arith)
          ∙ ap some (omega arith))
]

pub parse_unsigned-to_string : (top n : ℕ) → n ≤ top → parse_unsigned top (to_string n) ≡ some n
unfolding to_string parse_unsigned
parse_unsigned-to_string top n h =
    let shape = to_string-Shape n in
    let whole = parse_digits-digits top (suc n) n (omega arith) h in
    ground (arith, shape.split, whole)

pub parse_usize-to_string : (n : ℕ) → n ≤ max_usize → parse_usize (to_string n) ≡ some n
unfolding parse_usize
parse_usize-to_string n h =
    let shape = to_string-Shape n in
    ground (arith, shape.split, shape.low, parse_unsigned-to_string max_usize n h)

-- Every i64 is printed so that parsing gives it back.
pub parse_i64-to_string_i64 : (i : ℤ) → IsI64 i → parse_i64 (to_string_i64 i) ≡ some i
unfolding parse_i64 to_string_i64
parse_i64-to_string_i64 (pos n) h =
    let shape = to_string-Shape n in
    ground (arith, shape.split, shape.low, parse_unsigned-to_string max_i64 n h)
parse_i64-to_string_i64 (negsuc n) h = rw (parse_unsigned-to_string (2 ^ 63) (suc n) (omega arith))

-- ===== src/StringValue/Numbers.antt =====
-- Values held as integers: `new` and `to_vec`, `append` and `incr`.
use redvector.Base.{
  ℕ, zero, suc, ◌≡◌, ◌≢◌, refl, ap, inl, inr, Option, none, some, [], ◌∷◌, ◌++◌, Bytes, ℤ, pos,
  negsuc, max_i64, ◌^◌, false, arith, Option-cases, Bool-cases, ◌==◌,
}
use redvector.Decimal.{to_string, to_string_i64, parse_i64, parse_unsigned, signed, negated, negate}
use redvector.Decimal.Canonical.{to_string-parse_unsigned, to_string-zero}
use redvector.Decimal.Digits.{to_string-Shape}
use redvector.StringValue.{ValueString, integer, data_, parse_utf8, new, to_vec, append}

-- The number that `incr` adds to: the integer, or what the text parses as.
abbrev pub number : ValueString → Option ℤ
number (integer i) = some i
number (data_ d) = parse_utf8 d

-- Bytes that begin with neither "+" nor "-0".
abbrev pub IsPlain : Bytes → Type 0
IsPlain s = ((t : Bytes) → s ≢ b'+' ∷ t) × ((t : Bytes) → s ≢ b'-' ∷ b'0' ∷ t)

parse_utf8-some :
    (c : ℕ) (s : Bytes) (i : ℤ)
    → parse_utf8 (c ∷ s) ≡ some i
    → (c ≢ b'0') × (parse_i64 (c ∷ s) ≡ some i)
unfolding parse_utf8
parse_utf8-some c s i e = ground arith

signed-some : (o : Option ℕ) (i : ℤ) → signed o ≡ some i → (n : ℕ) × (o ≡ some n) × (i ≡ pos n)
signed-some none i e = absurd (cc e)
signed-some (some n) i e = (n, refl, ground arith)

negated-some : (o : Option ℕ) (i : ℤ) → negated o ≡ some i → (n : ℕ) × (o ≡ some n) × (i ≡ negate n)
negated-some none i e = absurd (cc e)
negated-some (some n) i e = (n, refl, ground arith)

text_negate :
    (n d : ℕ) (s : Bytes) → d ≢ 48 → to_string n ≡ d ∷ s → to_string_i64 (negate n) ≡ b'-' ∷ d ∷ s
unfolding to_string_i64
text_negate zero d s h e = absurd (ground (arith, e, to_string-zero))
text_negate (suc n) d s h e = ap (λ r. b'-' ∷ r) e

negative-canonical :
    (s : Bytes) (i : ℤ)
    → ((t : Bytes) → s ≢ b'0' ∷ t)
    → negated (parse_unsigned (2 ^ 63) s) ≡ some i
    → to_string_i64 i ≡ b'-' ∷ s
unfolding parse_unsigned
negative-canonical [] i h e = absurd (cc e)
negative-canonical (d ∷ s) i h e =
    let (n, parsed, same) = negated-some (parse_unsigned (2 ^ 63) (d ∷ s)) i e in
    let digit : d ≢ 48 = λ z. h s (rw z refl) in
    let text = to_string-parse_unsigned (2 ^ 63) d s n digit parsed in
    rw same (text_negate n d s digit text)

positive-canonical :
    (c : ℕ) (s : Bytes) (i : ℤ)
    → c ≢ 48
    → signed (parse_unsigned max_i64 (c ∷ s)) ≡ some i
    → to_string_i64 i ≡ c ∷ s
unfolding to_string_i64
positive-canonical c s i h e =
    let (n, parsed, same) = signed-some (parse_unsigned max_i64 (c ∷ s)) i e in
    rw same (to_string-parse_unsigned max_i64 c s n h parsed)

parse_utf8-canonical : (s : Bytes) (i : ℤ) → IsPlain s → parse_utf8 s ≡ some i → to_string_i64 i ≡ s
unfolding parse_i64 parse_utf8
parse_utf8-canonical [] i h e = absurd (cc e)
parse_utf8-canonical (c ∷ s) i h e =
    let (digit, parsed) = parse_utf8-some c s i e in
    elim (Bool-cases (c == b'-')) [
      | inl f ↦
          let minus : c ≡ b'-' = ground (arith, f) in
          rw minus (
            negative-canonical s i (λ t z. h.1 t (rw (minus, z) refl))
              (rw (parse_i64, f) at parsed))
      | inr f ↦
          let no_plus : (c == b'+') ≡ false = ground (arith, h.0 s) in
          positive-canonical c s i digit (rw (parse_i64, f, no_plus) at parsed)
    ]

-- What is stored reads back as it is, unless it begins with "+" or with "-0".
pub to_vec-new : (s : Bytes) → IsPlain s → to_vec (new s) ≡ s
unfolding to_vec new
to_vec-new s h = elim (Option-cases (parse_utf8 s)) [
  | inl e ↦ rw e refl
  | inr (i, e) ↦ rw e (parse_utf8-canonical s i h e)
]

IsPlain-text : (i : ℤ) (s : Bytes) → IsPlain (to_string_i64 i ++ s)
unfolding to_string_i64
IsPlain-text (pos n) s =
    let shape = to_string-Shape n in
    (
      λ t e. ground (arith, shape.split, shape.low, shape.high, e),
      λ t e. ground (arith, shape.split, shape.low, shape.high, e),
    )
IsPlain-text (negsuc n) s =
    let shape = to_string-Shape (suc n) in
    (λ t e. ground (arith, e), λ t e. ground (arith, shape.split, shape.leading, e))

-- `append` puts its bytes behind those of the value, whichever way the value is held.
pub to_vec-append : (v : ValueString) (s : Bytes) → to_vec (append v s) ≡ to_vec v ++ s
unfolding append to_vec
to_vec-append (data_ d) s = refl
to_vec-append (integer i) s = to_vec-new (to_string_i64 i ++ s) (IsPlain-text i s)

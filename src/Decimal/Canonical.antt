-- ===== src/Decimal/Canonical.antt =====
-- Text that parses and has no sign and no leading zero is the text that is printed for its value.
use redvector.Base.{
  ℕ, ◌+◌, ◌-◌, ◌*◌, ◌≤◌, ◌<◌, ◌≡◌, ◌≢◌, some, [], ◌∷◌, ◌++◌, append-nil, append_assoc, arith, Bytes,
}
use redvector.Decimal.{to_string, parse_digits, parse_unsigned}
use redvector.Decimal.Digits.{digits_small, to_string-snoc}

-- What one digit of a successful parse says.
pub parse_digits-cons :
    (top acc c : ℕ) (s : Bytes) (n : ℕ)
    → parse_digits top acc (c ∷ s) ≡ some n
    → (48 ≤ c)
      × (c ≤ 57)
      × (acc * 10 + (c - 48) ≤ top)
      × (parse_digits top (acc * 10 + (c - 48)) s ≡ some n)
unfolding parse_digits
parse_digits-cons top acc c s n h = ground arith

to_string-parse_digits :
    (top acc : ℕ) (s : Bytes) (n : ℕ)
    → 0 < acc
    → parse_digits top acc s ≡ some n
    → to_string n ≡ to_string acc ++ s
unfolding parse_digits
to_string-parse_digits top acc [] n ha h = let e : acc ≡ n = ground arith in rw (append-nil, e)
to_string-parse_digits top acc (c ∷ s) n ha h =
    let step = parse_digits-cons top acc c s n h in
    let e : 48 + (c - 48) ≡ c = omega arith in
    rw
      (
        to_string-parse_digits top (acc * 10 + (c - 48)) s n (omega arith) step.3,
        to_string-snoc acc (c - 48) ha (omega arith),
        e,
      )
      (append_assoc (to_string acc) (c ∷ []) s)

to_string-digit : (d : ℕ) → d < 10 → to_string d ≡ (48 + d) ∷ []
unfolding to_string
to_string-digit d h = digits_small d d h

pub to_string-parse_unsigned :
    (top c : ℕ) (s : Bytes) (n : ℕ)
    → c ≢ 48
    → parse_unsigned top (c ∷ s) ≡ some n
    → to_string n ≡ c ∷ s
unfolding parse_unsigned
to_string-parse_unsigned top c s n hc h =
    let step = parse_digits-cons top 0 c s n h in
    let e : 48 + (c - 48) ≡ c = omega arith in
    let z : 0 * 10 + (c - 48) ≡ c - 48 = omega arith in
    let first = to_string-digit (c - 48) (omega arith) in
    rw (to_string-parse_digits top (0 * 10 + (c - 48)) s n (omega arith) step.3, z, first, e)

pub first_digit :
    (top c : ℕ) (s : Bytes) (n : ℕ) → parse_unsigned top (c ∷ s) ≡ some n → (48 ≤ c) × (c ≤ 57)
unfolding parse_unsigned
first_digit top c s n h = let step = parse_digits-cons top 0 c s n h in (step.0, step.1)

-- A zero in front is read and forgotten.
pub parse_unsigned-zero : (top : ℕ) → parse_unsigned top (48 ∷ []) ≡ some 0
unfolding parse_unsigned parse_digits
parse_unsigned-zero top = ground arith

pub to_string-zero : to_string 0 ≡ 48 ∷ []
to_string-zero = to_string-digit 0 (omega arith)

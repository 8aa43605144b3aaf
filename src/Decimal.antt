-- ===== src/Decimal.antt =====
-- Decimal text as Rust's standard library prints and parses it: `to_string` and `format!("{}")` of
-- usize and i64, and `str::parse` for them. The proofs are in the modules below.
pub mod Digits
pub mod RoundTrip
pub mod Canonical
use redvector.Base.{
  ℕ, zero, suc, ◌+◌, ◌-◌, ◌*◌, ◌/◌, ◌%◌, ◌^◌, Bool, true, false, ◌&&◌, Option, none, some, [], ◌∷◌,
  ◌++◌, Bytes, ℤ, pos, negsuc, max_i64, ltb, leb, ◌==◌, if◌then◌else◌,
}

-- The largest usize, on a 64-bit machine.
abbrev pub max_usize : ℕ
max_usize = 2 ^ 64 - 1

pub digits : ℕ → ℕ → Bytes
digits zero n = []
digits (suc f) n = elim (ltb n 10) [
  | true ↦ (48 + n) ∷ []
  | false ↦ digits f (n / 10) ++ (48 + n % 10) ∷ []
]

-- A number has fewer digits than `suc n`.
unfoldable pub to_string : ℕ → Bytes
unfolding digits
to_string n = digits (suc n) n

unfoldable pub to_string_i64 : ℤ → Bytes
unfolding to_string
to_string_i64 (pos n) = to_string n
to_string_i64 (negsuc n) = b'-' ∷ to_string (suc n)

abbrev pub is_digit : ℕ → Bool
is_digit c = leb 48 c && leb c 57

-- `checked_mul` and `checked_add`: a prefix above `top` is an error.
unfoldable pub parse_digits : ℕ → ℕ → Bytes → Option ℕ
parse_digits top acc [] = some acc
parse_digits top acc (c ∷ s) =
    let next = acc * 10 + (c - 48) in
    if is_digit c then (if leb next top then parse_digits top next s else none) else none

unfoldable pub parse_unsigned : ℕ → Bytes → Option ℕ
unfolding parse_digits
parse_unsigned top [] = none
parse_unsigned top (c ∷ s) = parse_digits top 0 (c ∷ s)

unfoldable pub parse_usize : Bytes → Option ℕ
unfolding parse_unsigned
parse_usize [] = none
parse_usize (c ∷ s) =
    if c == b'+' then parse_unsigned max_usize s else parse_unsigned max_usize (c ∷ s)

abbrev pub negate : ℕ → ℤ
negate zero = pos 0
negate (suc n) = negsuc n

abbrev pub signed : Option ℕ → Option ℤ
signed none = none
signed (some n) = some (pos n)

abbrev pub negated : Option ℕ → Option ℤ
negated none = none
negated (some n) = some (negate n)

unfoldable pub parse_i64 : Bytes → Option ℤ
unfolding parse_unsigned
parse_i64 [] = none
parse_i64 (c ∷ s) =
    if c == b'-'
    then negated (parse_unsigned (2 ^ 63) s)
    else if c == b'+'
    then signed (parse_unsigned max_i64 s)
    else signed (parse_unsigned max_i64 (c ∷ s))

-- ===== src/Parser/Lengths.antt =====
-- A printed number and a separator, as `parse_int` and `arg_head` read them.
use redvector.Base.{ℕ, ◌+◌, ◌-◌, ◌*◌, ◌≤◌, ◌≡◌, none, some, [], ◌∷◌, ◌++◌, Bytes, length, arith}
use redvector.Decimal.{to_string, parse_digits, parse_unsigned, max_usize}
use redvector.Decimal.Digits.{to_string-Shape}
use redvector.Decimal.RoundTrip.{parse_unsigned-to_string}
use redvector.Decimal.Canonical.{parse_digits-cons}
use redvector.Response.{crlf}
use redvector.Parser.{
  ok, Complaint, int_loop, parse_int, add_digit, arg_head, max_arglen, invalid_bulk_length,
}

int_loop_digits :
    (invalid : Complaint) (s rest : Bytes) (i argc n : ℕ)
    → parse_digits max_usize argc s ≡ some n
    → int_loop invalid (s ++ crlf ++ rest) i argc (some argc) ≡ ok (some n, i + length s + 2)
unfolding int_loop parse_digits
int_loop_digits invalid [] rest i argc n h = ground (arith, h)
int_loop_digits invalid (c ∷ s) rest i argc n h =
    let step = parse_digits-cons max_usize argc c s n h in
    let exact : add_digit argc c ≡ argc * 10 + (c - 48) = omega (arith, step.2) in
    ground (
      arith,
      step.0,
      step.1,
      exact,
      int_loop_digits invalid s rest (i + 1) (argc * 10 + (c - 48)) n step.3,
    )

int_loop_first :
    (invalid : Complaint) (c : ℕ) (s rest : Bytes) (n : ℕ)
    → parse_digits max_usize 0 (c ∷ s) ≡ some n
    → int_loop invalid (c ∷ s ++ crlf ++ rest) 0 0 none ≡ ok (some n, length (c ∷ s) + 2)
unfolding int_loop
int_loop_first invalid c s rest n h =
    let step = parse_digits-cons max_usize 0 c s n h in
    let exact : add_digit 0 c ≡ 0 * 10 + (c - 48) = omega (arith, step.2) in
    ground (
      arith,
      step.0,
      step.1,
      exact,
      int_loop_digits invalid s rest (0 + 1) (0 * 10 + (c - 48)) n step.3,
    )

-- A printed usize with its separator is read as that number, to its end.
pub parse_int-to_string :
    (invalid : Complaint) (n : ℕ) (rest : Bytes)
    → n ≤ max_usize
    → parse_int invalid (to_string n ++ crlf ++ rest) ≡ ok (some n, length (to_string n) + 2)
unfolding parse_int
parse_int-to_string invalid n rest h =
    let shape = to_string-Shape n in
    let whole = parse_unsigned-to_string max_usize n h in
    rw shape.split (
      int_loop_first invalid shape.first shape.rest rest n
        (unfold parse_unsigned in (rw shape.split at whole)))

-- The position of an argument's bytes, where its head stands at `pos`.
abbrev pub start_of : ℕ → ℕ → ℕ
start_of pos n = pos + 1 + (length (to_string n) + 2)

pub arg_head-to_string :
    (n pos : ℕ) (rest : Bytes)
    → n ≤ max_arglen
    → arg_head (b'$' ∷ to_string n ++ crlf ++ rest) pos
      ≡ ok (record { pos = start_of pos n; len = n })
unfolding arg_head
arg_head-to_string n pos rest h =
    rw (parse_int-to_string invalid_bulk_length n rest (omega arith)) (ground (arith, h))

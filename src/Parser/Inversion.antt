-- ===== src/Parser/Inversion.antt =====
-- What each step of the parser did, where its answer is a success.
use redvector.Base.{
  ℕ, suc, ◌+◌, ◌-◌, ◌≤◌, ◌<◌, ◌≡◌, refl, inl, inr, false, Option, none, some, List, [], ◌∷◌, ◌++◌,
  Bytes, length, drop, arith, ◌==◌, Bool-cases,
}
use redvector.Parser.{
  Argument, Parsed, ok, err, panics, Complaint, separator, skip_negative, int_loop, parse_int,
  add_digit, arg_head, arg_loop, runs_out, invalid_bulk_length, bulk_length, ◌>>=◌,
}

-- The two steps of a chain that succeeds.
pub >>=-ok {ℓ κ} :
    {A : Type ℓ} {B : Type κ} (first : Parsed A) (then_do : A → Parsed B) {answer : B}
    → first >>= then_do ≡ ok answer
    → (found : A) × (first ≡ ok found) × (then_do found ≡ ok answer)
>>=-ok panics then_do e = absurd (cc e)
>>=-ok (err reason) then_do e = absurd (cc e)
>>=-ok (ok found) then_do e = (found, refl, e)

-- A number and its separator end inside the slice.
separator_end :
    (s : Bytes) (i : ℕ) (o o' : Option ℕ) (n : ℕ)
    → separator s i o ≡ ok (o', n)
    → (i < n) × (n ≤ i + length s)
unfolding separator
separator_end [] i o o' n h = ground arith
separator_end (c ∷ s) i o o' n h = ground arith

skip_negative_end :
    (s : Bytes) (i : ℕ) (o : Option ℕ) (n : ℕ)
    → skip_negative s i ≡ ok (o, n)
    → (i < n) × (n ≤ i + length s)
unfolding skip_negative
skip_negative_end [] i o n h = ground arith
skip_negative_end (c ∷ s) i o n h =
    ground (arith, separator_end s (i + 1) none o n, skip_negative_end s (i + 1) o n)

int_loop_end :
    (invalid : Complaint) (s : Bytes) (i argc : ℕ) (o o' : Option ℕ) (n : ℕ)
    → int_loop invalid s i argc o ≡ ok (o', n)
    → (i < n) × (n ≤ i + length s)
unfolding int_loop
int_loop_end invalid [] i argc o o' n h = ground arith
int_loop_end invalid (c ∷ s) i argc o o' n h =
    let next = add_digit argc c in
    ground (
      arith,
      separator_end s (i + 1) o o' n,
      skip_negative_end (c ∷ s) i o' n,
      int_loop_end invalid s (i + 1) next (some next) o' n,
    )

pub parse_int_end :
    (invalid : Complaint) (s : Bytes) (o : Option ℕ) (n : ℕ)
    → parse_int invalid s ≡ ok (o, n)
    → (0 < n) × (n ≤ length s)
unfolding parse_int
parse_int_end invalid s o n h =
    let e = int_loop_end invalid s 0 0 none o n h in (e.0, omega (arith, e.1))

-- What the head of an argument was, where it was read.
pub record Head (s : Bytes) (pos : ℕ) (arg : Argument) : Type 0 where
  pub digits : Bytes
  pub value : Option ℕ
  pub width : ℕ
  pub dollar : s ≡ b'$' ∷ digits
  pub number : parse_int invalid_bulk_length digits ≡ ok (value, width)
  pub bulk : bulk_length value ≡ ok arg.len
  pub start : arg.pos ≡ pos + 1 + width

pub arg_head-Head :
    (s : Bytes) (pos : ℕ) (arg : Argument) → arg_head s pos ≡ ok arg → Head s pos arg
unfolding arg_head
arg_head-Head [] pos arg h = absurd (cc h)
arg_head-Head (c ∷ s) pos arg h = elim (Bool-cases (c == b'$')) [
  | inr e ↦ absurd (ground (arith, h))
  | inl e ↦
      let body = rw (e, arg_head) at h in
      let (answer, number, after) = >>=-ok (parse_int invalid_bulk_length s) _ body in
      let (arglen, bulk, made) = >>=-ok (bulk_length answer.0) _ after in
      record {
        digits = s;
        value = answer.0;
        width = answer.1;
        dollar = ground (arith, e);
        number = number;
        bulk = ground (arith, bulk, made);
        start = ground (arith, made);
      }
]

-- One round of `arg_loop` that succeeds.
pub record Round (left len : ℕ) (s : Bytes) (pos : ℕ) (argv found : List Argument) (end : ℕ)
    : Type 0 where
  pub arg : Argument
  pub head : arg_head s pos ≡ ok arg
  pub fits : runs_out left (arg.pos + (arg.len + 2)) len ≡ false
  pub later :
      arg_loop left len
        (drop (arg.pos + (arg.len + 2) - pos) s)
        (arg.pos + (arg.len + 2))
        (argv ++ arg ∷ [])
      ≡ ok (found, end)

pub arg_loop-Round :
    (left len : ℕ) (s : Bytes) (pos : ℕ) (argv found : List Argument) (end : ℕ)
    → arg_loop (suc left) len s pos argv ≡ ok (found, end)
    → Round left len s pos argv found end
unfolding arg_loop
arg_loop-Round left len s pos argv found end h =
    let (arg, head, after) = >>=-ok (arg_head s pos) _ h in
    elim (Bool-cases (runs_out left (arg.pos + (arg.len + 2)) len)) [
      | inl e ↦ absurd (ground (arith, rw e at after))
      | inr e ↦ record { arg = arg; head = head; fits = e; later = rw e at after }
    ]

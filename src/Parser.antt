-- ===== src/Parser.antt =====
-- parser/src/lib.rs: commands as a client sends them, and the stream that they are read from. A
-- slice `input[pos..]` is the list of the bytes that are left; an index past its end panics.
pub mod Inversion
pub mod Bounds
pub mod Extension
pub mod RoundTrip
pub mod Requests
pub mod Lengths
pub mod Panics
mod Examples
use redvector.Base.{
  ℕ, zero, suc, ◌+◌, ◌-◌, ◌*◌, ◌%◌, ◌^◌, Bool, true, false, ◌&&◌, ◌||◌, Option, none, some, List,
  [], ◌∷◌, ◌++◌, Bytes, ℤ, ltb, ◌==◌, if◌then◌else◌, length, get_elem?, take, drop,
}
use redvector.Decimal.{parse_i64}
use redvector.Utf8.{is_utf8}

pub record Argument : Type 0 where
  pub pos : ℕ
  pub len : ℕ

-- `ParsedCommand`, and `OwnedParsedCommand`, which owns the same two parts.
pub record ParsedCommand : Type 0 where
  pub bytes : Bytes
  pub argv : List Argument

-- What a `BadProtocol` message says, with the bytes that are formatted into it.
pub data Complaint : Type 0 where
  invalid_multibulk_length invalid_bulk_length : Complaint
  expected_separator : ℕ → Complaint
  expected_star expected_dollar : ℕ → Complaint

pub data ParseError : Type 0 where
  incomplete : ParseError
  bad_protocol : Complaint → ParseError
  invalid_argument : ParseError

pub data Parsed {ℓ} (A : Type ℓ) : Type ℓ where
  ok : A → Parsed A
  err : ParseError → Parsed A
  panics : Parsed A

infixl 5 ◌>>=◌
abbrev pub ◌>>=◌ {ℓ κ} : {A : Type ℓ} {B : Type κ} → Parsed A → (A → Parsed B) → Parsed B
ok a >>= f = f a
err e >>= f = err e
panics >>= f = panics

-- The end of `parse_int`: `i` is the index behind the '\r'.
unfoldable pub separator : Bytes → ℕ → Option ℕ → Parsed (Option ℕ × ℕ)
separator [] i argco = err incomplete
separator (c ∷ s) i argco =
    if c == 10 then ok (argco, i + 1) else err (bad_protocol (expected_separator c))

-- `while input[i] as char != '\r' { i += 1; }`, which nothing stops at the end of the slice.
unfoldable pub skip_negative : Bytes → ℕ → Parsed (Option ℕ × ℕ)
unfolding separator
skip_negative [] i = panics
skip_negative (c ∷ s) i = if c == 13 then separator s (i + 1) none else skip_negative s (i + 1)

-- `argc *= 10; argc += input[i] as usize - '0' as usize`, in usize.
abbrev pub add_digit : ℕ → ℕ → ℕ
add_digit argc c = (argc * 10 + (c - 48)) % 2 ^ 64

-- The loop of `parse_int`. The empty slice is reached at the start (`input.is_empty()`) or behind a
-- digit (`i == len`), and both report that the input is incomplete.
unfoldable pub int_loop : Complaint → Bytes → ℕ → ℕ → Option ℕ → Parsed (Option ℕ × ℕ)
unfolding separator skip_negative
int_loop invalid [] i argc argco = err incomplete
int_loop invalid (c ∷ s) i argc argco =
    let rest = int_loop invalid s (i + 1) (add_digit argc c) (some (add_digit argc c)) in
    if c == 13
    then separator s (i + 1) argco
    else if argc == 0 && c == b'-'
    then skip_negative (c ∷ s) i
    else if ltb c 48 || ltb 57 c
    then err (bad_protocol invalid)
    else rest

unfoldable pub parse_int : Complaint → Bytes → Parsed (Option ℕ × ℕ)
unfolding int_loop
parse_int invalid input = int_loop invalid input 0 0 none

-- Leading blank lines. The answer is what follows them, with its position.
unfoldable pub skip_blank : Bytes → ℕ → Parsed (Bytes × ℕ)
skip_blank [] pos = err incomplete
skip_blank (c ∷ []) pos = if c == 13 then err incomplete else ok (c ∷ [], pos)
skip_blank (c ∷ d ∷ s) pos =
    let rest = skip_blank s (pos + 2) in
    if c == 13
    then (if d == 10 then rest else err (bad_protocol (expected_separator d)))
    else ok (c ∷ d ∷ s, pos)

abbrev pub max_argc : ℕ
max_argc = 1024 * 1024

abbrev pub max_arglen : ℕ
max_arglen = 512 * 1024 * 1024

abbrev pub bulk_length : Option ℕ → Parsed ℕ
bulk_length none = err (bad_protocol invalid_bulk_length)
bulk_length (some n) = if ltb max_arglen n then err (bad_protocol invalid_bulk_length) else ok n

-- `pos > len || (pos == len && i != argc - 1)`, where `left` arguments follow this one.
abbrev pub runs_out : ℕ → ℕ → ℕ → Bool
runs_out left pos len = ltb len pos || (pos == len && ltb 0 left)

-- The head of one argument: its '$', its length and the position behind its separator.
unfoldable pub arg_head : Bytes → ℕ → Parsed Argument
unfolding parse_int
arg_head [] pos = err incomplete
arg_head (c ∷ s) pos =
    if c == b'$'
    then (do
      (arglen_o, arglen_len) ← parse_int invalid_bulk_length s
      arglen ← bulk_length arglen_o
      ok (record { pos = pos + 1 + arglen_len; len = arglen }))
    else err (bad_protocol (expected_dollar c))

-- `for i in 0..argc`: the arguments still to come, the length of the input, what is left of it and
-- the position of that, and the arguments found. The answer ends with the position behind them.
unfoldable pub arg_loop : ℕ → ℕ → Bytes → ℕ → List Argument → Parsed (List Argument × ℕ)
unfolding arg_head
arg_loop zero len s pos argv = ok (argv, pos)
arg_loop (suc left) len s pos argv = do
  arg ← arg_head s pos
  let next = arg.pos + (arg.len + 2)
  let rest = arg_loop left len (drop (next - pos) s) next (argv ++ arg ∷ [])
  if runs_out left next len then err incomplete else rest

abbrev pub multibulk : Option ℕ → Parsed ℕ
multibulk none = ok 0
multibulk (some n) = if ltb max_argc n then err (bad_protocol invalid_multibulk_length) else ok n

-- What follows the blank lines, at its position: '*', the number of arguments, and those.
unfoldable pub parse_command : Bytes → Bytes → ℕ → Parsed (ParsedCommand × ℕ)
unfolding arg_loop
parse_command input [] pos = err incomplete
parse_command input (c ∷ s) pos =
    if c == b'*'
    then (do
      (argc_o, intlen) ← parse_int invalid_multibulk_length s
      argc ← multibulk argc_o
      (argv, end) ← arg_loop argc (length input) (drop intlen s) (pos + 1 + intlen) []
      ok (record { bytes = input; argv = argv }, end))
    else err (bad_protocol (expected_star c))

unfoldable pub parse : Bytes → Parsed (ParsedCommand × ℕ)
unfolding skip_blank parse_command
parse input = do (s, pos) ← skip_blank input 0; parse_command input s pos

-- `&self.data[arg.pos..arg.pos + arg.len]`, which panics where that is not inside the data.
abbrev pub slice : Bytes → Argument → Parsed Bytes
slice bytes arg =
    if ltb (length bytes) (arg.pos + arg.len)
    then panics
    else ok (take arg.len (drop arg.pos bytes))

unfoldable pub get_slice : ParsedCommand → ℕ → Parsed Bytes
get_slice c i = elim (get_elem? c.argv i) [
  | none ↦ err invalid_argument
  | some arg ↦ slice c.bytes arg
]

unfoldable pub get_vec : ParsedCommand → ℕ → Parsed Bytes
unfolding get_slice
get_vec c i = get_slice c i

unfoldable pub get_str : ParsedCommand → ℕ → Parsed Bytes
unfolding get_slice
get_str c i = do s ← get_slice c i; if is_utf8 s then ok s else err invalid_argument

abbrev or_invalid : Option ℤ → Parsed ℤ
or_invalid none = err invalid_argument
or_invalid (some i) = ok i

unfoldable pub get_i64 : ParsedCommand → ℕ → Parsed ℤ
unfolding get_str
get_i64 c i = do s ← get_str c i; or_invalid (parse_i64 s)

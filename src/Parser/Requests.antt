-- ===== src/Parser/Requests.antt =====
-- Whole requests: what `parse` makes of them, and what `get_slice` then returns.
use redvector.Base.{
  ℕ, zero, suc, ◌+◌, ◌≤◌, ◌≡◌, refl, ap, none, some, List, [], ◌∷◌, ◌++◌, append-nil, append_assoc,
  Bytes, All, length, length-append, drop, get_elem?, drop-length-append, take-length-append, arith,
}
use redvector.Decimal.{to_string}
use redvector.Response.{Response, as_bytes, all_bytes, array, crlf, count}
use redvector.Parser.{
  ParsedCommand, Parsed, ok, err, invalid_argument, skip_blank, parse_command, parse, multibulk,
  get_slice, slice, max_argc, invalid_multibulk_length,
}
use redvector.Parser.Lengths.{start_of, parse_int-to_string}
use redvector.Parser.RoundTrip.{
  request, IsBulk, after_arg, locate, arg_loop-request, all_bytes-request, bulk_layout, length-bulk,
}

-- The bytes of a request.
abbrev pub request_bytes : List Bytes → Bytes
request_bytes args = as_bytes (array (request args))

-- Where the arguments of a whole request begin.
abbrev first_arg : List Bytes → ℕ
first_arg args = 0 + 1 + (length (to_string (length args)) + 2)

count-request : (args : List Bytes) → count (request args) ≡ length args
unfolding count
count-request [] = refl
count-request (a ∷ args) = ap suc (count-request args)

request_layout :
    (args : List Bytes) (rest : Bytes)
    → request_bytes args ++ rest
      ≡ b'*' ∷ to_string (length args) ++ crlf ++ (all_bytes (request args) ++ rest)
unfolding as_bytes
request_layout args rest = simp (count-request, append_assoc)

length-request :
    (args : List Bytes)
    → length (request_bytes args) ≡ first_arg args + length (all_bytes (request args))
length-request args =
    let n = to_string (length args) in
    let body = all_bytes (request args) in
    omega (
      arith,
      ap length (request_layout args []),
      ap length (append-nil (request_bytes args)),
      ap length (append-nil body),
      length-append (n ++ crlf) (body ++ []),
      length-append n crlf,
    )

skip_blank-star : (s : Bytes) (pos : ℕ) → skip_blank (b'*' ∷ s) pos ≡ ok (b'*' ∷ s, pos)
unfolding skip_blank
skip_blank-star [] pos = refl
skip_blank-star (c ∷ s) pos = refl

drop_head : (n more : Bytes) → drop (length n + 2) (n ++ crlf ++ more) ≡ more
drop_head n more =
    let k : length n + 2 ≡ length (n ++ crlf) = omega (arith, length-append n crlf) in
    rw k (drop-length-append (n ++ crlf) more)

multibulk_few : (n : ℕ) → n ≤ max_argc → multibulk (some n) ≡ ok n
multibulk_few n h = ground arith

parse_command-request :
    (args : List Bytes) (rest input : Bytes)
    → length args ≤ max_argc
    → All IsBulk args
    → length input ≡ length (request_bytes args ++ rest)
    → parse_command input
        (b'*' ∷ to_string (length args) ++ crlf ++ (all_bytes (request args) ++ rest))
        0
      ≡ ok (
        record { bytes = input; argv = locate (first_arg args) args },
        length (request_bytes args),
      )
unfolding parse_command
parse_command-request args rest input few short e =
    let n = length args in
    let more = all_bytes (request args) ++ rest in
    let at_args : first_arg args + length more ≡ length input = omega (
      arith,
      length-request args,
      length-append (request_bytes args) rest,
      length-append (all_bytes (request args)) rest,
    ) in
    rw (
      parse_int-to_string invalid_multibulk_length n more (omega arith),
      multibulk_few n few,
      drop_head (to_string n) more,
      arg_loop-request args rest (length input) (first_arg args) [] short at_args,
      length-request args,
    )

pub parse-request :
    (args : List Bytes) (rest : Bytes)
    → length args ≤ max_argc
    → All IsBulk args
    → parse (request_bytes args ++ rest)
      ≡ ok (
        record { bytes = request_bytes args ++ rest; argv = locate (first_arg args) args },
        length (request_bytes args),
      )
unfolding parse
parse-request args rest few short =
    let input : Bytes = request_bytes args ++ rest in
    let layout = request_layout args rest in
    let found : skip_blank input 0
        ≡ ok (b'*' ∷ to_string (length args) ++ crlf ++ (all_bytes (request args) ++ rest), 0) =
      rw layout (skip_blank-star _ 0) in
    rw found (parse_command-request args rest input few short refl)

length-locate : (args : List Bytes) (pos : ℕ) → length (locate pos args) ≡ length args
length-locate [] pos = refl
length-locate (a ∷ args) pos = ap suc (length-locate args (after_arg pos a))

slice_at :
    (front a behind : Bytes) (start : ℕ)
    → length front ≡ start
    → slice (front ++ (a ++ behind)) (record { pos = start; len = length a }) ≡ ok a
slice_at front a behind start e =
    let l = length-append front (a ++ behind) in
    let l' = length-append a behind in
    rw (← e, drop-length-append front (a ++ behind), take-length-append a behind)
      (ground (arith, l, l'))

-- The argument of a request at an index.
abbrev pub argument : List Bytes → ℕ → Parsed Bytes
argument args i = elim (get_elem? args i) [ none ↦ err invalid_argument | some a ↦ ok a ]

slice_first :
    (a : Bytes) (front more : Bytes) (pos : ℕ)
    → length front ≡ pos
    → slice
        (front ++ (as_bytes (Response.bytes a) ++ more))
        (record { pos = start_of pos (length a); len = length a })
      ≡ ok a
slice_first a front more pos e =
    let head : Bytes = b'$' ∷ to_string (length a) ++ crlf in
    let start : length (front ++ head) ≡ start_of pos (length a) =
      omega (arith, length-append front head, length-append (to_string (length a)) crlf) in
    rw (bulk_layout a more, ← append_assoc front head (a ++ (crlf ++ more)))
      (slice_at (front ++ head) a (crlf ++ more) (start_of pos (length a)) start)

get_slice-locate :
    (args : List Bytes) (front rest : Bytes) (pos i : ℕ)
    → length front ≡ pos
    → get_slice
        (record { bytes = front ++ (all_bytes (request args) ++ rest); argv = locate pos args })
        i
      ≡ argument args i
unfolding get_slice
get_slice-locate [] front rest pos i e = refl
get_slice-locate (a ∷ args) front rest pos zero e =
    rw (all_bytes-request a args rest)
      (slice_first a front (all_bytes (request args) ++ rest) pos e)
get_slice-locate (a ∷ args) front rest pos (suc i) e =
    let bulk = as_bytes (Response.bytes a) in
    rw (all_bytes-request a args rest, ← append_assoc front bulk (all_bytes (request args) ++ rest))
      (get_slice-locate args (front ++ bulk) rest (after_arg pos a) i
        (omega (arith, length-append front bulk, length-bulk a)))

-- A request of at most 2^20 arguments, each of at most 2^29 bytes, whatever follows it, is read to
-- its end as a command whose arguments are those of the request, in order.
pub parse-request_bytes :
    (args : List Bytes) (rest : Bytes)
    → length args ≤ max_argc
    → All IsBulk args
    → (command : ParsedCommand) × (parse (request_bytes args ++ rest)
        ≡ ok (command, length (request_bytes args)))
      × (length command.argv ≡ length args)
      × ((i : ℕ) → get_slice command i ≡ argument args i)
parse-request_bytes args rest few short =
    let head : Bytes = b'*' ∷ to_string (length args) ++ crlf in
    (
      record { bytes = request_bytes args ++ rest; argv = locate (first_arg args) args },
      parse-request args rest few short,
      length-locate args (first_arg args),
      λ i. rw (request_layout args rest) (
          get_slice-locate args head rest (first_arg args) i
            (omega (arith, length-append (to_string (length args)) crlf))),
    )

-- ===== src/Parser/RoundTrip.antt =====
-- A request as a client sends it, an array of bulk strings in the encoding of response/src/lib.rs,
-- is read back as the arguments that it was made of.
use redvector.Base.{
  ℕ, suc, ◌+◌, ◌-◌, ◌≤◌, ◌<◌, ◌≡◌, refl, ap, ap₂, sym, false, List, [], ◌∷◌, ◌++◌, append-nil,
  append_assoc, Bytes, All, length, length-append, drop, drop-length-append, arith,
}
use redvector.Decimal.{to_string}
use redvector.Response.{Response, Responses, as_bytes, all_bytes, done, then_, crlf}
use redvector.Parser.{Argument, ok, arg_head, arg_loop, runs_out, max_arglen}
use redvector.Parser.Lengths.{start_of, arg_head-to_string}

-- The arguments of a request as the elements of an array.
abbrev pub request : List Bytes → Responses
request [] = done
request (a ∷ args) = then_ (Response.bytes a) (request args)

abbrev pub IsBulk : Bytes → Type 0
IsBulk a = length a ≤ max_arglen

-- Where the arguments of a request lie, where the first of them begins at `pos`.
abbrev pub after_arg : ℕ → Bytes → ℕ
after_arg pos a = start_of pos (length a) + (length a + 2)

abbrev pub locate : ℕ → List Bytes → List Argument
locate pos [] = []
locate pos (a ∷ args) =
    record { pos = start_of pos (length a); len = length a } ∷ locate (after_arg pos a) args

pub bulk_layout :
    (a more : Bytes)
    → as_bytes (Response.bytes a) ++ more
      ≡ b'$' ∷ to_string (length a) ++ crlf ++ (a ++ (crlf ++ more))
unfolding as_bytes
bulk_layout a more = simp append_assoc

pub length-bulk :
    (a : Bytes)
    → length (as_bytes (Response.bytes a))
      ≡ 1 + (length (to_string (length a)) + 2) + (length a + 2)
unfolding as_bytes
length-bulk a =
    let n = to_string (length a) in
    omega (
      arith,
      length-append (n ++ crlf ++ a) crlf,
      length-append (n ++ crlf) a,
      length-append n crlf,
    )

drop-bulk :
    (pos : ℕ) (a more : Bytes)
    → drop (after_arg pos a - pos) (as_bytes (Response.bytes a) ++ more) ≡ more
drop-bulk pos a more =
    let k : after_arg pos a - pos ≡ length (as_bytes (Response.bytes a)) =
      omega (arith, length-bulk a) in
    rw k (drop-length-append (as_bytes (Response.bytes a)) more)

pub all_bytes-request :
    (a : Bytes) (args : List Bytes) (rest : Bytes)
    → all_bytes (request (a ∷ args)) ++ rest
      ≡ as_bytes (Response.bytes a) ++ (all_bytes (request args) ++ rest)
unfolding as_bytes
all_bytes-request a args rest =
    append_assoc (as_bytes (Response.bytes a)) (all_bytes (request args)) rest

all_bytes-none : all_bytes (request []) ≡ []
unfolding as_bytes
all_bytes-none = refl

bulk-pos : (a : Bytes) → 0 < length (as_bytes (Response.bytes a))
bulk-pos a = omega (arith, length-bulk a)

-- One round of `arg_loop` over an argument that a client wrote.
arg_loop_round :
    (left len : ℕ) (a more : Bytes) (pos : ℕ) (argv : List Argument)
    → IsBulk a
    → runs_out left (after_arg pos a) len ≡ false
    → arg_loop (suc left) len (as_bytes (Response.bytes a) ++ more) pos argv
      ≡ arg_loop left len more
          (after_arg pos a)
          (argv ++ record { pos = start_of pos (length a); len = length a } ∷ [])
unfolding arg_loop
arg_loop_round left len a more pos argv h fits =
    let head : arg_head (as_bytes (Response.bytes a) ++ more) pos
        ≡ ok (record { pos = start_of pos (length a); len = length a }) =
      rw (bulk_layout a more) (arg_head-to_string (length a) pos (a ++ (crlf ++ more)) h) in
    rw (head, fits, drop-bulk pos a more)

arg_loop_none :
    (rest : Bytes) (len pos : ℕ) (argv : List Argument)
    → arg_loop 0 len (all_bytes (request []) ++ rest) pos argv
      ≡ ok (argv ++ [], pos + length (all_bytes (request [])))
unfolding arg_loop
arg_loop_none rest len pos argv =
    rw all_bytes-none
      (ap₂ (λ (l : List Argument) (n : ℕ). ok (l, n)) (sym (append-nil argv)) (omega arith))

fits_request :
    (args : List Bytes) (rest : Bytes) (next len : ℕ)
    → next + length (all_bytes (request args) ++ rest) ≡ len
    → runs_out (length args) next len ≡ false
fits_request [] rest next len e = ground (arith, e)
fits_request (b ∷ args) rest next len e =
    let more : 0 < length (all_bytes (request (b ∷ args)) ++ rest) = omega (
      arith,
      ap length (all_bytes-request b args rest),
      length-append (as_bytes (Response.bytes b)) (all_bytes (request args) ++ rest),
      bulk-pos b,
    ) in
    ground (arith, e, more)

pub arg_loop-request :
    (args : List Bytes) (rest : Bytes) (len pos : ℕ) (argv : List Argument)
    → All IsBulk args
    → pos + length (all_bytes (request args) ++ rest) ≡ len
    → arg_loop (length args) len (all_bytes (request args) ++ rest) pos argv
      ≡ ok (argv ++ locate pos args, pos + length (all_bytes (request args)))
arg_loop-request [] rest len pos argv h e = arg_loop_none rest len pos argv
arg_loop-request (a ∷ args) rest len pos argv h e =
    let next = after_arg pos a in
    let arg : Argument = record { pos = start_of pos (length a); len = length a } in
    let more = all_bytes (request args) ++ rest in
    let at_next : next + length more ≡ len = omega (
      arith,
      ap length (all_bytes-request a args rest),
      length-append (as_bytes (Response.bytes a)) more,
      length-bulk a,
    ) in
    let end : next + length (all_bytes (request args))
        ≡ pos + length (all_bytes (request (a ∷ args))) =
      omega (
        arith,
        ap length (all_bytes-request a args []),
        ap length (append-nil (all_bytes (request (a ∷ args)))),
        ap length (append-nil (all_bytes (request args))),
        length-append (as_bytes (Response.bytes a)) (all_bytes (request args) ++ []),
        length-bulk a,
      ) in
    rw (
      all_bytes-request a args rest,
      arg_loop_round (length args) len a more pos argv h.0
          (fits_request args rest next len at_next),
      arg_loop-request args rest len next (argv ++ arg ∷ []) h.1 at_next,
      append_assoc argv (arg ∷ []) (locate next args),
      end,
    )

-- ===== src/Parser/Examples.antt =====
-- Runs of parser/src/lib.rs on concrete inputs.
use redvector.Base.{
  ℕ, ◌+◌, ◌≤◌, ◌≡◌, refl, ◌⊎◌, some, [], ◌∷◌, ◌++◌, Bytes, codes, length, get_elem?, take, drop,
  pos, arith,
}
use redvector.Utf8.{is_utf8}
use redvector.Decimal.{parse_i64}
use redvector.Response.{crlf}
use redvector.Parser.{
  Argument, ParsedCommand, ok, err, panics, incomplete, bad_protocol, invalid_argument,
  expected_dollar, parse, get_slice, get_str, get_i64, get_vec,
}
use redvector.Parser.Bounds.{Located, parse-Located, get_slice-parse}
use redvector.Parser.Extension.{parse-append, parse-append_error}
use redvector.Parser.Requests.{request_bytes, argument, parse-request_bytes}
use redvector.Parser.Panics.{parse-panics}

-- A blank line, and the request INCR k 12.
abbrev incr_k : Bytes
incr_k =
    crlf
    ++ codes "*3"
    ++ crlf
    ++ codes "$4"
    ++ crlf
    ++ codes "INCR"
    ++ crlf
    ++ codes "$1"
    ++ crlf
    ++ codes "k"
    ++ crlf
    ++ codes "$2"
    ++ crlf
    ++ codes "12"
    ++ crlf

abbrev incr_k_command : ParsedCommand
incr_k_command = record {
  bytes = incr_k;
  argv =
      record { pos = 10; len = 4 }
      ∷ record { pos = 20; len = 1 }
      ∷ record { pos = 27; len = 2 }
      ∷ [];
}

parse-incr_k : parse incr_k ≡ ok (incr_k_command, 31)
unfolding parse
parse-incr_k = refl

arguments :
    (get_str incr_k_command 0 ≡ ok (codes "INCR"))
    × (get_vec incr_k_command 1 ≡ ok (codes "k"))
    × (get_i64 incr_k_command 2 ≡ ok (pos 12))
    × (get_i64 incr_k_command 1 ≡ err invalid_argument)
    × (get_slice incr_k_command 3 ≡ err invalid_argument)
unfolding get_str get_vec get_i64 get_slice is_utf8 parse_i64
arguments = (refl, refl, refl, refl, refl)

parts : (parse (take 12 incr_k) ≡ err incomplete) × (parse (take 30 incr_k) ≡ err incomplete)
unfolding parse
parts = (refl, refl)

parse-Located_example : Located incr_k incr_k_command 31
parse-Located_example = parse-Located incr_k incr_k_command 31 parse-incr_k

get_slice-parse_example :
    ((3 ≤ 1) × (get_slice incr_k_command 1 ≡ err invalid_argument))
    ⊎ ((arg : Argument) × (get_elem? incr_k_command.argv 1 ≡ some arg)
        × (arg.pos + arg.len + 2 ≤ 31)
        × (get_slice incr_k_command 1 ≡ ok (take arg.len (drop arg.pos incr_k))))
get_slice-parse_example = get_slice-parse incr_k incr_k_command 31 1 parse-incr_k

parse-append_example :
    parse (incr_k ++ codes "*1")
    ≡ ok (record { bytes = incr_k ++ codes "*1"; argv = incr_k_command.argv }, 31)
parse-append_example = parse-append incr_k (codes "*1") incr_k_command 31 parse-incr_k

inline : parse (codes "*1" ++ crlf ++ codes "PING") ≡ err (bad_protocol (expected_dollar b'P'))
unfolding parse
inline = refl

parse-append_error_example :
    parse ((codes "*1" ++ crlf ++ codes "PING") ++ crlf) ≡ err (bad_protocol (expected_dollar b'P'))
parse-append_error_example =
    parse-append_error (codes "*1" ++ crlf ++ codes "PING") crlf (expected_dollar b'P') inline

parse-request_bytes_example :
    (command : ParsedCommand) × (parse (request_bytes (codes "GET" ∷ codes "k" ∷ []) ++ codes "*")
      ≡ ok (command, length (request_bytes (codes "GET" ∷ codes "k" ∷ []))))
    × (length command.argv ≡ 2)
    × ((i : ℕ) → get_slice command i ≡ argument (codes "GET" ∷ codes "k" ∷ []) i)
parse-request_bytes_example =
    parse-request_bytes (codes "GET" ∷ codes "k" ∷ []) (codes "*") (omega arith)
      (omega arith, (omega arith, tt))

parse-panics_example : parse (codes "*-1") ≡ panics
parse-panics_example = parse-panics (codes "1") (λ e. cc e, tt)

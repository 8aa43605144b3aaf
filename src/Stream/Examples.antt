-- ===== src/Stream/Examples.antt =====
-- Runs of the stream parser on concrete inputs.
use redvector.Base.{ℕ, ◌≡◌, ◌↔◌, refl, true, [], ◌∷◌, ◌++◌, Bytes, codes, length, drop, arith}
use redvector.Decimal.{to_string}
use redvector.Response.{crlf, as_bytes}
use redvector.Parser.{ParsedCommand, ok, err, incomplete, parse, get_slice}
use redvector.Parser.Requests.{request_bytes, argument}
use redvector.Stream.{Stream, new, allocate, receive, is_incomplete, next}
use redvector.Stream.Queue.{IsValid, pending}
use redvector.Stream.Commands.{next_lem, is_incomplete_iff, next-request}

abbrev ping : Bytes
ping = codes "*1" ++ crlf ++ codes "$4" ++ crlf ++ codes "PING" ++ crlf

-- The parser after one read of a request and the first byte of another.
abbrev read_once : Stream
read_once = record { buffer = ping ++ codes "*0"; position = 0; written = 15 }

read_once-IsValid : IsValid read_once
read_once-IsValid = record { parsed = omega arith; filled = omega arith }

first_read :
    receive (allocate new) (ping ++ codes "*")
    ≡ record { buffer = ping ++ codes "*" ++ 0 ∷ []; position = 0; written = 15 }
unfolding receive allocate
first_read = refl

abbrev ping_command : ParsedCommand
ping_command = record { bytes = ping ++ codes "*"; argv = record { pos = 8; len = 4 } ∷ [] }

next_ping : next read_once ≡ ok (ping_command, record read_once { position = 14 })
unfolding next parse
next_ping = refl

next_lem_example :
    (len : ℕ) × (parse (ping ++ codes "*") ≡ ok (ping_command, len))
    × IsValid (record read_once { position = 14 })
    × (pending (record read_once { position = 14 }) ≡ drop len (ping ++ codes "*"))
next_lem_example =
    next_lem read_once (record read_once { position = 14 }) ping_command read_once-IsValid next_ping

is_incomplete_iff_example : (is_incomplete read_once ≡ ok true) ↔ (next read_once ≡ err incomplete)
is_incomplete_iff_example = is_incomplete_iff read_once read_once-IsValid

ping_request : pending read_once ≡ request_bytes (codes "PING" ∷ []) ++ codes "*"
unfolding as_bytes to_string
ping_request = refl

next-request_example :
    (command : ParsedCommand) × (s' : Stream) × (next read_once ≡ ok (command, s'))
    × (length command.argv ≡ 1)
    × ((i : ℕ) → get_slice command i ≡ argument (codes "PING" ∷ []) i)
    × IsValid s'
    × (pending s' ≡ codes "*")
next-request_example =
    next-request read_once (codes "PING" ∷ []) (codes "*") read_once-IsValid (omega arith)
      (omega arith, tt) ping_request

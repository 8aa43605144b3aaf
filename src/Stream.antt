-- ===== src/Stream.antt =====
-- The stream parser of parser/src/lib.rs, and the read of networking/src/lib.rs that fills it.
pub mod Queue
pub mod Commands
mod Examples
use redvector.Base.{
  ℕ, zero, suc, ◌+◌, ◌-◌, ◌*◌, Bool, true, false, ◌&&◌, ◌||◌, List, [], ◌∷◌, ◌++◌, Bytes, length,
  take, drop, replicate, ltb, ◌==◌, if◌then◌else◌,
}
use redvector.Parser.{ParsedCommand, Parsed, ok, err, panics, ParseError, incomplete, parse, ◌>>=◌}

-- `struct Parser`: the buffer, how much of it was parsed and how much of it was read.
pub record Stream : Type 0 where
  pub buffer : Bytes
  pub position : ℕ
  pub written : ℕ

abbrev pub new : Stream
new = record { buffer = []; position = 0; written = 0 }

-- All that was read has been parsed: start again at the front.
abbrev pub rewind : Stream → Stream
rewind s =
    if ltb 0 s.position && s.written == s.position
    then record s { position = 0; written = 0 }
    else s

abbrev pub growth : Stream → ℕ
growth s =
    let len = length s.buffer in if len == 0 then 16 else if ltb len (s.written * 2) then len else 0

abbrev pub grow : Stream → Stream
grow s = record s { buffer = s.buffer ++ replicate (growth s) 0 }

unfoldable pub allocate : Stream → Stream
allocate s = grow (rewind s)

-- `stream.read(&mut buffer[pos..])` at `pos = parser.written`, then `parser.written += len`. The
-- chunk is what the socket delivers, at most as many bytes as that part of the buffer holds.
unfoldable pub receive : Stream → Bytes → Stream
receive s chunk = record s {
  buffer = take s.written s.buffer ++ (chunk ++ drop (s.written + length chunk) s.buffer);
  written = s.written + length chunk;
}

-- `&self.data[self.position..self.written]`
abbrev pub window : Stream → Parsed Bytes
window s =
    if ltb s.written s.position || ltb (length s.buffer) s.written
    then panics
    else ok (take (s.written - s.position) (drop s.position s.buffer))

abbrev waits : Parsed (ParsedCommand × ℕ) → Parsed Bool
waits (ok a) = ok false
waits (err incomplete) = ok true
waits (err _) = ok false
waits panics = panics

unfoldable pub is_incomplete : Stream → Parsed Bool
is_incomplete s = do input ← window s; waits (parse input)

-- An error leaves the parser as it is.
unfoldable pub next : Stream → Parsed (ParsedCommand × Stream)
next s = do
  input ← window s
  (command, len) ← parse input
  ok (command, record s { position = s.position + len })

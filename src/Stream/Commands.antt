-- ===== src/Stream/Commands.antt =====
-- What `next` and `is_incomplete` of the stream parser make of the bytes that are waiting.
use redvector.Base.{
  ℕ, zero, suc, ◌+◌, ◌-◌, ◌≤◌, ◌≡◌, ◌↔◌, refl, ◌∙◌, ap, sym, subst, true, List, [], ◌∷◌, ◌++◌,
  Bytes, All, length, length-append, length-take, length-drop, drop, arith, drop-take, drop_nil,
  drop-length-append,
}
use redvector.Parser.{
  ParsedCommand, Parsed, ok, err, panics, incomplete, invalid_argument, bad_protocol, parse,
  get_slice, max_argc, ◌>>=◌,
}
use redvector.Parser.Inversion.{>>=-ok}
use redvector.Parser.Bounds.{parse-Located}
use redvector.Parser.RoundTrip.{IsBulk}
use redvector.Parser.Requests.{request_bytes, argument, parse-request_bytes}
use redvector.Stream.{Stream, next, is_incomplete, waits}
use redvector.Stream.Queue.{IsValid, pending, window-pending}

drop-drop : (m n : ℕ) (xs : Bytes) → drop n (drop m xs) ≡ drop (m + n) xs
drop-drop zero n xs = ap (λ k. drop k xs) (omega arith)
drop-drop (suc m) n [] = drop_nil n ∙ sym (drop_nil (suc m + n))
drop-drop (suc m) n (x ∷ xs) =
    let e : suc m + n ≡ suc (m + n) = omega arith in rw e (drop-drop m n xs)

abbrev advance : Stream → ℕ → Stream
advance s len = record s { position = s.position + len }

length-pending : (s : Stream) → IsValid s → length (pending s) ≡ s.written - s.position
length-pending s v = omega (
  arith,
  length-take (s.written - s.position) (drop s.position s.buffer),
  length-drop s.position s.buffer,
  v.parsed,
  v.filled,
)

advance_lem :
    (s : Stream) (len : ℕ)
    → IsValid s
    → len ≤ length (pending s)
    → IsValid (advance s len) × (pending (advance s len) ≡ drop len (pending s))
advance_lem s len v h =
    let l = length-pending s v in
    let e : s.written - (s.position + len) ≡ s.written - s.position - len = omega arith in
    (
      record { parsed = omega (arith, v.parsed); filled = v.filled },
      rw (
        e,
        drop-take len (s.written - s.position) (drop s.position s.buffer),
        drop-drop s.position len s.buffer,
      ),
    )

next-window :
    (s : Stream) → IsValid s → next s ≡ (parse (pending s) >>= λ r. ok (r.0, advance s r.1))
unfolding next
next-window s v = rw (window-pending s v)

-- On a valid parser, a command that `next` returns is what `parse` reads in the bytes that wait;
-- the parser stays valid and what waits then is what followed the command.
pub next_lem :
    (s s' : Stream) (command : ParsedCommand)
    → IsValid s
    → next s ≡ ok (command, s')
    → (len : ℕ) × (parse (pending s) ≡ ok (command, len))
      × IsValid s'
      × (pending s' ≡ drop len (pending s))
next_lem s s' command v h =
    let (found, parsed, made) = >>=-ok (parse (pending s)) _ (sym (next-window s v) ∙ h) in
    let same : found.0 ≡ command = ground (arith, made) in
    let after : advance s found.1 ≡ s' = ground (arith, made) in
    let located = parse-Located (pending s) found.0 found.1 parsed in
    let (v', left) = advance_lem s found.1 v located.ends in
    (found.1, ground (arith, parsed, same), subst IsValid after v', ap pending (sym after) ∙ left)

abbrev answer : Stream → Parsed (ParsedCommand × ℕ) → Parsed (ParsedCommand × Stream)
answer s r = r >>= λ a. ok (a.0, advance s a.1)

waits_iff :
    (r : Parsed (ParsedCommand × ℕ)) (s : Stream)
    → (waits r ≡ ok true) ↔ (answer s r ≡ err incomplete)
waits_iff (ok a) s = (λ h. absurd (ground (arith, h)), λ h. absurd (cc h))
waits_iff (err incomplete) s = (λ h. refl, λ h. refl)
waits_iff (err (bad_protocol m)) s =
    (λ h. absurd (ground (arith, h)), λ h. absurd (ground (arith, h)))
waits_iff (err invalid_argument) s =
    (λ h. absurd (ground (arith, h)), λ h. absurd (ground (arith, h)))
waits_iff panics s = (λ h. absurd (cc h), λ h. absurd (cc h))

-- `is_incomplete` is true exactly where `next` would fail for want of more bytes.
pub is_incomplete_iff :
    (s : Stream) → IsValid s → (is_incomplete s ≡ ok true) ↔ (next s ≡ err incomplete)
unfolding is_incomplete next
is_incomplete_iff s v = rw (window-pending s v) (waits_iff (parse (pending s)) s)

-- Where the bytes that wait begin with a whole request (at most 2^20 arguments, each of at most 2^29
-- bytes), `next` on a valid parser returns a command with exactly its arguments, and leaves a valid
-- parser in which the bytes behind the request wait.
pub next-request :
    (s : Stream) (args : List Bytes) (rest : Bytes)
    → IsValid s
    → length args ≤ max_argc
    → All IsBulk args
    → pending s ≡ request_bytes args ++ rest
    → (command : ParsedCommand) × (s' : Stream) × (next s ≡ ok (command, s'))
      × (length command.argv ≡ length args)
      × ((i : ℕ) → get_slice command i ≡ argument args i)
      × IsValid s'
      × (pending s' ≡ rest)
next-request s args rest v few short e =
    let (command, found, n, same) = parse-request_bytes args rest few short in
    let len = length (request_bytes args) in
    let fits : len ≤ length (pending s) =
      rw e (omega (arith, length-append (request_bytes args) rest)) in
    let (v', left) = advance_lem s len v fits in
    let parsed : next s ≡ ok (command, advance s len) = next-window s v ∙ rw (e, found) in
    (
      command,
      advance s len,
      parsed,
      n,
      same,
      v',
      left ∙ rw (e, drop-length-append (request_bytes args) rest),
    )

-- ===== src/Stream/Queue.antt =====
-- A stream parser as a queue of the bytes that were read and not yet parsed.
use redvector.Base.{
  ℕ, zero, suc, ◌+◌, ◌-◌, ◌≤◌, ◌<◌, ◌≡◌, refl, ◌∙◌, ap, [], ◌∷◌, ◌++◌, append_assoc, Bytes, length,
  length-append, length-take, length-drop, length-replicate, take, drop, replicate, drop-take,
  take_all, arith, ltb, ◌==◌, ◌&&◌, Bool-cases, inl, inr,
}
use redvector.Parser.{ok}
use redvector.Stream.{Stream, new, allocate, receive, window, rewind, grow, growth}

pub record IsValid (s : Stream) : Type 0 where
  pub parsed : s.position ≤ s.written
  pub filled : s.written ≤ length s.buffer

-- The bytes that were read and not yet parsed.
abbrev pub pending : Stream → Bytes
pending s = take (s.written - s.position) (drop s.position s.buffer)

pub new-IsValid : IsValid new
new-IsValid = record { parsed = omega arith; filled = omega arith }

pub window-pending : (s : Stream) → IsValid s → window s ≡ ok (pending s)
window-pending s v = ground arith

take-drop-append :
    (n p : ℕ) (xs ys : Bytes) → p + n ≤ length xs → take n (drop p (xs ++ ys)) ≡ take n (drop p xs)
take-drop-append zero p xs ys h = refl
take-drop-append (suc n) zero [] ys h = absurd (omega arith)
take-drop-append (suc n) zero (x ∷ xs) ys h =
    ap (λ r. x ∷ r) (take-drop-append n zero xs ys (omega arith))
take-drop-append (suc n) (suc p) [] ys h = absurd (omega arith)
take-drop-append (suc n) (suc p) (x ∷ xs) ys h = take-drop-append (suc n) p xs ys (omega arith)

pending-take :
    (s : Stream) (more : Bytes)
    → IsValid s
    → take (s.written - s.position) (drop s.position (s.buffer ++ more)) ≡ pending s
pending-take s more v =
    take-drop-append (s.written - s.position) s.position s.buffer more
      (omega (arith, v.parsed, v.filled))

rewind_lem : (s : Stream) → IsValid s → IsValid (rewind s) × (pending (rewind s) ≡ pending s)
rewind_lem s v = elim (Bool-cases (ltb 0 s.position && s.written == s.position)) [
  | inr e ↦ rw e (v, refl)
  | inl e ↦
      let none_left : s.written - s.position ≡ 0 = ground (arith, e) in
      rw (e, none_left) (record { parsed = omega arith; filled = omega arith }, refl)
]

grow_lem :
    (s : Stream)
    → IsValid s
    → IsValid (grow s)
      × (pending (grow s) ≡ pending s)
      × ((grow s).written < length (grow s).buffer)
grow_lem s v =
    let room : s.written < length s.buffer + growth s = ground (arith, v.filled) in
    let len = length-append s.buffer (replicate (growth s) 0) in
    let added = length-replicate {A = ℕ} (growth s) 0 in
    (
      record { parsed = v.parsed; filled = omega (arith, len, added, room) },
      pending-take s (replicate (growth s) 0) v,
      omega (arith, len, added, room),
    )

-- `allocate` keeps the parser valid and the queue as it is, and leaves room for one byte at least.
pub allocate_lem :
    (s : Stream)
    → IsValid s
    → IsValid (allocate s)
      × (pending (allocate s) ≡ pending s)
      × ((allocate s).written < length (allocate s).buffer)
unfolding allocate
allocate_lem s v =
    let (v', same) = rewind_lem s v in
    let (v'', same', room) = grow_lem (rewind s) v' in (v'', same' ∙ same, room)

take-drop-behind :
    (p : ℕ) (xs ys : Bytes)
    → p ≤ length xs
    → take (length xs + length ys - p) (drop p (xs ++ ys)) ≡ drop p xs ++ ys
take-drop-behind zero xs ys h =
    let e : length xs + length ys - 0 ≡ length (xs ++ ys) = omega (arith, length-append xs ys) in
    rw e (take_all _ (xs ++ ys) (omega arith))
take-drop-behind (suc p) [] ys h = absurd (omega arith)
take-drop-behind (suc p) (x ∷ xs) ys h =
    let e : suc (length xs) + length ys - suc p ≡ length xs + length ys - p = omega arith in
    rw e (take-drop-behind p xs ys (omega arith))

-- A chunk that fits behind what was read goes to the end of the queue, and the parser stays valid.
pub receive_lem :
    (s : Stream) (chunk : Bytes)
    → IsValid s
    → s.written + length chunk ≤ length s.buffer
    → IsValid (receive s chunk) × (pending (receive s chunk) ≡ pending s ++ chunk)
unfolding receive
receive_lem s chunk v h =
    let front = take s.written s.buffer in
    let behind = drop (s.written + length chunk) s.buffer in
    let read : length front ≡ s.written = omega (arith, length-take s.written s.buffer, v.filled) in
    let both : length (front ++ chunk) ≡ s.written + length chunk =
      omega (arith, length-append front chunk) in
    let inside : s.position + (s.written + length chunk - s.position) ≤ length (front ++ chunk) =
      omega (arith, v.parsed) in
    let queue : take (s.written + length chunk - s.position) (drop s.position (front ++ chunk))
        ≡ drop s.position front ++ chunk =
      rw read at (take-drop-behind s.position front chunk (omega (arith, v.parsed, read))) in
    (
      record {
        parsed = omega (arith, v.parsed);
        filled = omega (
          arith,
          length-append front (chunk ++ behind),
          length-append chunk behind,
          length-drop (s.written + length chunk) s.buffer,
        );
      },
      (rw (← append_assoc front chunk behind)
            (take-drop-append _ s.position (front ++ chunk) behind inside)
          ∙ queue
          ∙ ap (λ r. r ++ chunk) (drop-take s.position s.written s.buffer)),
    )

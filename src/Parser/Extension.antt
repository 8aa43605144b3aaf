-- ===== src/Parser/Extension.antt =====
-- More bytes behind an input change neither the command that was read nor a protocol error.
use redvector.Base.{
  ℕ, zero, suc, ◌+◌, ◌-◌, ◌≤◌, ◌≡◌, refl, inl, inr, true, false, Option, none, some, List, [], ◌∷◌,
  ◌++◌, Bytes, length, length-append, length-drop, drop, arith, ltb, ◌==◌, ◌&&◌, ◌||◌, Bool-cases,
  Bool, if◌then◌else◌,
}
use redvector.Parser.{
  Argument, ParsedCommand, Parsed, ok, err, panics, incomplete, bad_protocol, invalid_argument,
  Complaint, separator, skip_negative, int_loop, parse_int, add_digit, skip_blank, arg_head,
  arg_loop, parse_command, parse, runs_out, multibulk, invalid_bulk_length,
  invalid_multibulk_length, ◌>>=◌, expected_separator,
}
use redvector.Parser.Inversion.{parse_int_end, arg_head-Head}
use redvector.Parser.Bounds.{skip_blank_position}

-- The second result is the first one, unless the first was waiting for more input or ran off its
-- end.
abbrev pub Settled {ℓ} : {A : Type ℓ} → Parsed A → Parsed A → Type ℓ
Settled (ok a) r = r ≡ ok a
Settled (err incomplete) r = Unit
Settled (err (bad_protocol m)) r = r ≡ err (bad_protocol m)
Settled (err invalid_argument) r = r ≡ err invalid_argument
Settled panics r = Unit

module _ {ℓ κ} {A : Type ℓ} {B : Type κ} where
  Settled-bind :
      (m m' : Parsed A) (f g : A → Parsed B)
      → Settled m m'
      → ((a : A) → m ≡ ok a → Settled (f a) (g a))
      → Settled (m >>= f) (m' >>= g)
  Settled-bind (ok a) m' f g h k = rw h (k a refl)
  Settled-bind (err incomplete) m' f g h k = tt
  Settled-bind (err (bad_protocol m)) m' f g h k = rw h
  Settled-bind (err invalid_argument) m' f g h k = rw h
  Settled-bind panics m' f g h k = tt

module _ {ℓ} {A : Type ℓ} where
  Settled-refl : (m : Parsed A) → Settled m m
  Settled-refl (ok a) = refl
  Settled-refl (err incomplete) = tt
  Settled-refl (err (bad_protocol m)) = refl
  Settled-refl (err invalid_argument) = refl
  Settled-refl panics = tt

  Settled-if :
      (b : Bool) (x x' y y' : Parsed A)
      → Settled x x'
      → Settled y y'
      → Settled (if b then x else y) (if b then x' else y')
  Settled-if true x x' y y' h k = h
  Settled-if false x x' y y' h k = k

separator-Settled :
    (s t : Bytes) (i : ℕ) (o : Option ℕ) → Settled (separator s i o) (separator (s ++ t) i o)
unfolding separator
separator-Settled [] t i o = tt
separator-Settled (c ∷ s) t i o =
    Settled-refl (if c == 10 then ok (o, i + 1) else err (bad_protocol (expected_separator c)))

skip_negative-Settled :
    (s t : Bytes) (i : ℕ) → Settled (skip_negative s i) (skip_negative (s ++ t) i)
unfolding skip_negative
skip_negative-Settled [] t i = tt
skip_negative-Settled (c ∷ s) t i =
    Settled-if (c == 13) _ _ _ _ (separator-Settled s t (i + 1) none)
      (skip_negative-Settled s t (i + 1))

int_loop-Settled :
    (invalid : Complaint) (s t : Bytes) (i argc : ℕ) (o : Option ℕ)
    → Settled (int_loop invalid s i argc o) (int_loop invalid (s ++ t) i argc o)
unfolding int_loop
int_loop-Settled invalid [] t i argc o = tt
int_loop-Settled invalid (c ∷ s) t i argc o =
    let next = add_digit argc c in
    Settled-if (c == 13) _ _ _ _ (separator-Settled s t (i + 1) o) (
      Settled-if (argc == 0 && c == b'-') _ _ _ _ (skip_negative-Settled (c ∷ s) t i) (
        Settled-if (ltb c 48 || ltb 57 c) _ _ _ _ refl
          (int_loop-Settled invalid s t (i + 1) next (some next))))

parse_int-Settled :
    (invalid : Complaint) (s t : Bytes) → Settled (parse_int invalid s) (parse_int invalid (s ++ t))
unfolding parse_int
parse_int-Settled invalid s t = int_loop-Settled invalid s t 0 0 none

arg_head-Settled : (s t : Bytes) (pos : ℕ) → Settled (arg_head s pos) (arg_head (s ++ t) pos)
unfolding arg_head
arg_head-Settled [] t pos = tt
arg_head-Settled (c ∷ s) t pos =
    Settled-if (c == b'$') _ _ _ _
      (Settled-bind (parse_int invalid_bulk_length s) (parse_int invalid_bulk_length (s ++ t)) _ _
        (parse_int-Settled invalid_bulk_length s t) (λ a e. Settled-refl _))
      refl

drop-append : (n : ℕ) (s t : Bytes) → n ≤ length s → drop n (s ++ t) ≡ drop n s ++ t
drop-append zero s t h = refl
drop-append (suc n) [] t h = absurd (omega arith)
drop-append (suc n) (c ∷ s) t h = drop-append n s t (omega arith)

runs_out-more :
    (left next len more : ℕ)
    → runs_out left next len ≡ false
    → runs_out left next (len + more) ≡ false
runs_out-more left next len more h = ground arith

arg_loop-Settled :
    (left len : ℕ) (s t : Bytes) (pos : ℕ) (argv : List Argument)
    → pos + length s ≡ len
    → Settled (arg_loop left len s pos argv) (arg_loop left (len + length t) (s ++ t) pos argv)
unfolding arg_loop
arg_loop-Settled zero len s t pos argv h = refl
arg_loop-Settled (suc left) len s t pos argv h =
    Settled-bind (arg_head s pos) (arg_head (s ++ t) pos) _ _ (arg_head-Settled s t pos)
      λ arg found.
        let next = arg.pos + (arg.len + 2) in
        let head = arg_head-Head s pos arg found in
        elim (Bool-cases (runs_out left next len)) [
          | inl e ↦ rw e tt
          | inr e ↦
              let inside : next ≤ len = ground (arith, e) in
              let k : next - pos ≤ length s = omega arith in
              let at_next : next + length (drop (next - pos) s) ≡ len =
                omega (arith, length-drop (next - pos) s, head.start) in
              rw (e, runs_out-more left next len (length t) e, drop-append (next - pos) s t k)
                (arg_loop-Settled left len (drop (next - pos) s) t next (argv ++ arg ∷ []) at_next)
        ]

-- What a command that was read in the first bytes of an input is, seen in the whole input.
abbrev pub in_whole : Bytes → Parsed (ParsedCommand × ℕ) → Parsed (ParsedCommand × ℕ)
in_whole input r = r >>= λ a. ok (record { bytes = input; argv = a.0.argv }, a.1)

in_whole-bind {ℓ} :
    {A : Type ℓ} (input : Bytes) (m m' : Parsed A) (f g : A → Parsed (ParsedCommand × ℕ))
    → Settled m m'
    → ((a : A) → m ≡ ok a → Settled (in_whole input (f a)) (g a))
    → Settled (in_whole input (m >>= f)) (m' >>= g)
in_whole-bind input (ok a) m' f g h k = rw h (k a refl)
in_whole-bind input (err incomplete) m' f g h k = tt
in_whole-bind input (err (bad_protocol m)) m' f g h k = rw h
in_whole-bind input (err invalid_argument) m' f g h k = rw h
in_whole-bind input panics m' f g h k = tt

args-Settled :
    (input s t : Bytes) (pos : ℕ) (a : Option ℕ × ℕ) (argc : ℕ)
    → pos + suc (length s) ≡ length input
    → parse_int invalid_multibulk_length s ≡ ok a
    → Settled
        (arg_loop argc (length input) (drop a.1 s) (pos + 1 + a.1) [])
        (arg_loop argc (length (input ++ t)) (drop a.1 (s ++ t)) (pos + 1 + a.1) [])
args-Settled input s t pos a argc h number =
    let width = parse_int_end invalid_multibulk_length s a.0 a.1 number in
    rw (length-append input t, drop-append a.1 s t width.1)
      (arg_loop-Settled argc (length input) (drop a.1 s) t (pos + 1 + a.1) []
        (omega (arith, length-drop a.1 s, width.1)))

parse_command-Settled :
    (input s t : Bytes) (pos : ℕ)
    → pos + length s ≡ length input
    → Settled
        (in_whole (input ++ t) (parse_command input s pos))
        (parse_command (input ++ t) (s ++ t) pos)
unfolding parse_command
parse_command-Settled input [] t pos h = tt
parse_command-Settled input (c ∷ s) t pos h = elim (Bool-cases (c == b'*')) [
  | inr e ↦ rw e refl
  | inl e ↦ rw e (
      in_whole-bind (input ++ t) (parse_int invalid_multibulk_length s) _ _ _
        (parse_int-Settled invalid_multibulk_length s t)
        λ (a : Option ℕ × ℕ) number.
          in_whole-bind (input ++ t) (multibulk a.0) _ _ _ (Settled-refl (multibulk a.0)) λ argc _.
            in_whole-bind (input ++ t)
              (arg_loop argc (length input) (drop a.1 s) (pos + 1 + a.1) []) _ _ _
              (args-Settled input s t pos a argc h number) λ found _. refl)
]

skip_blank-Settled :
    (s t : Bytes) (pos : ℕ)
    → Settled (skip_blank s pos >>= λ a. ok (a.0 ++ t, a.1)) (skip_blank (s ++ t) pos)
unfolding skip_blank
skip_blank-Settled [] t pos = tt
skip_blank-Settled (c ∷ []) [] pos = elim (Bool-cases (c == 13)) [ inl e ↦ rw e tt | inr e ↦ rw e ]
skip_blank-Settled (c ∷ []) (d ∷ t) pos = elim (Bool-cases (c == 13)) [
  | inl e ↦ rw e tt
  | inr e ↦ rw e
]
skip_blank-Settled (c ∷ d ∷ s) t pos = elim (Bool-cases (c == 13)) [
  | inr e ↦ rw e
  | inl e ↦ elim (Bool-cases (d == 10)) [
    | inr f ↦ rw (e, f)
    | inl f ↦ rw (e, f) (skip_blank-Settled s t (pos + 2))
  ]
]

parse-Settled : (s t : Bytes) → Settled (in_whole (s ++ t) (parse s)) (parse (s ++ t))
unfolding parse
parse-Settled s t = go (skip_blank s 0) refl (skip_blank-Settled s t 0)
  where
    go :
        (m : Parsed (Bytes × ℕ))
        → skip_blank s 0 ≡ m
        → Settled (m >>= λ a. ok (a.0 ++ t, a.1)) (skip_blank (s ++ t) 0)
        → Settled
            (in_whole (s ++ t) (m >>= λ a. parse_command s a.0 a.1))
            (skip_blank (s ++ t) 0 >>= λ a. parse_command (s ++ t) a.0 a.1)
    go (ok (u, pos)) e h =
        rw h (parse_command-Settled s u t pos (omega (arith, skip_blank_position s u 0 pos e)))
    go (err incomplete) e h = tt
    go (err (bad_protocol m)) e h = rw h
    go (err invalid_argument) e h = rw h
    go panics e h = tt

-- A command that was read, and the number of bytes that it took, are the same when more bytes
-- follow the input.
pub parse-append :
    (s t : Bytes) (command : ParsedCommand) (end : ℕ)
    → parse s ≡ ok (command, end)
    → parse (s ++ t) ≡ ok (record { bytes = s ++ t; argv = command.argv }, end)
parse-append s t command end h = rw h at (parse-Settled s t)

-- A protocol error stays the same error when more bytes follow the input.
pub parse-append_error :
    (s t : Bytes) (m : Complaint)
    → parse s ≡ err (bad_protocol m)
    → parse (s ++ t) ≡ err (bad_protocol m)
parse-append_error s t m h = rw h at (parse-Settled s t)

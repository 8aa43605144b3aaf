-- ===== src/Parser/Bounds.antt =====
-- Where a parsed command lies in its input: every argument, with its separator, is inside.
use redvector.Base.{
  ℕ, zero, suc, ◌+◌, ◌-◌, ◌≤◌, ◌≡◌, ap, subst, inl, inr, ◌⊎◌, none, some, List, [], ◌∷◌, ◌++◌,
  Bytes, All, All-append, length, length-append, length-drop, get_elem?, take, drop, arith, ◌==◌,
  Bool-cases, Option-cases,
}
use redvector.Parser.{
  Argument, ParsedCommand, ok, err, invalid_argument, parse_int, skip_blank, arg_loop,
  parse_command, parse, get_slice, multibulk, invalid_multibulk_length,
}
use redvector.Parser.Inversion.{>>=-ok, parse_int_end, arg_head-Head, arg_loop-Round}

-- An argument and its separator lie inside an input of `len` bytes.
abbrev pub Inside : ℕ → Argument → Type 0
Inside len arg = arg.pos + arg.len + 2 ≤ len

pub arg_loop_bounds :
    (left len : ℕ) (s : Bytes) (pos : ℕ) (argv found : List Argument) (end : ℕ)
    → pos + length s ≡ len
    → All (Inside len) argv
    → arg_loop left len s pos argv ≡ ok (found, end)
    → All (Inside len) found × (end ≤ len) × (length found ≡ length argv + left)
unfolding arg_loop
arg_loop_bounds zero len s pos argv found end e a h =
    let same : argv ≡ found = ground arith in
    let at_end : pos ≡ end = ground arith in
    (subst (All (Inside len)) same a, omega arith, omega (arith, ap length same))
arg_loop_bounds (suc left) len s pos argv found end e a h =
    let round = arg_loop-Round left len s pos argv found end h in
    let next = round.arg.pos + (round.arg.len + 2) in
    let head = arg_head-Head s pos round.arg round.head in
    let ok_len : next ≤ len = ground (arith, round.fits) in
    let later =
      arg_loop_bounds left len (drop (next - pos) s) next (argv ++ round.arg ∷ []) found end
        (omega (arith, length-drop (next - pos) s, head.start))
        (All-append (Inside len) argv (round.arg ∷ []) a (omega arith, tt)) round.later in
    (later.0, later.1, omega (arith, later.2, length-append argv (round.arg ∷ [])))

pub skip_blank_position :
    (t s : Bytes) (p pos : ℕ) → skip_blank t p ≡ ok (s, pos) → pos + length s ≡ p + length t
unfolding skip_blank
skip_blank_position [] s p pos h = absurd (cc h)
skip_blank_position (c ∷ []) s p pos h = ground arith
skip_blank_position (c ∷ d ∷ t) s p pos h = ground (arith, skip_blank_position t s (p + 2) pos)

-- A command that was read: the bytes it points into are the input, its end is inside the input, and
-- so is each of its arguments with the separator behind it.
pub record Located (input : Bytes) (command : ParsedCommand) (end : ℕ) : Type 0 where
  pub whole : command.bytes ≡ input
  pub ends : end ≤ length input
  pub inside : All (Inside (length input)) command.argv

parse_command_bounds :
    (input s : Bytes) (pos : ℕ) (command : ParsedCommand) (end : ℕ)
    → pos + length s ≡ length input
    → parse_command input s pos ≡ ok (command, end)
    → Located input command end
unfolding parse_command
parse_command_bounds input [] pos command end e h = absurd (cc h)
parse_command_bounds input (c ∷ s) pos command end e h = elim (Bool-cases (c == b'*')) [
  | inr f ↦ absurd (ground (arith, h))
  | inl f ↦
      let body = rw (f, parse_command) at h in
      let (answer, number, after) = >>=-ok (parse_int invalid_multibulk_length s) _ body in
      let (argc, multi, after') = >>=-ok (multibulk answer.0) _ after in
      let (found, args, made) =
        >>=-ok (arg_loop argc (length input) (drop answer.1 s) (pos + 1 + answer.1) []) _ after' in
      let width = parse_int_end invalid_multibulk_length s answer.0 answer.1 number in
      let b =
        arg_loop_bounds argc (length input) (drop answer.1 s) (pos + 1 + answer.1) [] found.0
          found.1 (omega (arith, length-drop answer.1 s, width.1)) tt args in
      record {
        whole = ground (arith, made);
        ends = ground (arith, made, b.1);
        inside =
            let argv : found.0 ≡ command.argv = ground (arith, made) in
            subst (All (Inside (length input))) argv b.0;
      }
]

-- Whatever is read successfully lies inside its input.
pub parse-Located :
    (input : Bytes) (command : ParsedCommand) (end : ℕ)
    → parse input ≡ ok (command, end)
    → Located input command end
unfolding parse
parse-Located input command end h =
    let (found, blank, body) = >>=-ok (skip_blank input 0) _ h in
    parse_command_bounds input found.0 found.1 command end
      (omega (arith, skip_blank_position input found.0 0 found.1 blank)) body

argument-Inside :
    (len : ℕ) (argv : List Argument) (i : ℕ) (arg : Argument)
    → All (Inside len) argv
    → get_elem? argv i ≡ some arg
    → Inside len arg
argument-Inside len [] i arg a h = absurd (cc h)
argument-Inside len (x ∷ argv) zero arg a h =
    let e : x ≡ arg = ground (arith, h) in subst (Inside len) e a.0
argument-Inside len (x ∷ argv) (suc i) arg a h = argument-Inside len argv i arg a.1 h

no_argument : (argv : List Argument) (i : ℕ) → get_elem? argv i ≡ none → length argv ≤ i
no_argument [] i h = omega arith
no_argument (x ∷ argv) zero h = absurd (cc h)
no_argument (x ∷ argv) (suc i) h = omega (arith, no_argument argv i h)

-- After a successful parse `get_slice` never panics: it is an invalid argument exactly from the
-- number of arguments on, and below it is the bytes of the input where the argument points.
pub get_slice-parse :
    (input : Bytes) (command : ParsedCommand) (end i : ℕ)
    → parse input ≡ ok (command, end)
    → ((length command.argv ≤ i) × (get_slice command i ≡ err invalid_argument))
      ⊎ ((arg : Argument) × (get_elem? command.argv i ≡ some arg)
          × (arg.pos + arg.len + 2 ≤ length input)
          × (get_slice command i ≡ ok (take arg.len (drop arg.pos input))))
unfolding get_slice
get_slice-parse input command end i h =
    let located = parse-Located input command end h in
    elim (Option-cases (get_elem? command.argv i)) [
      | inl e ↦ inl (no_argument command.argv i e, rw (e, get_slice))
      | inr (arg, e) ↦
          let inside = argument-Inside (length input) command.argv i arg located.inside e in
          let whole = located.whole in
          inr (arg, e, inside, rw (e, get_slice, whole) (ground (arith, inside)))
    ]

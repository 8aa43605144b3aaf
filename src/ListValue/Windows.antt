-- ===== src/ListValue/Windows.antt =====
-- `lrange` and `ltrim` against the window of positions, and what they do with a reversed range.
use redvector.Base.{
  ℕ, suc, ◌+◌, ◌-◌, ◌%◌, ◌^◌, ◌≤◌, ◌<◌, ◌≡◌, sym, ap, ◌∙◌, ◌⊎◌, none, some, [], ◌∷◌, Bytes, ok,
  returns, panics, ℤ, pos, negsuc, ◌+ℤ◌, ◌≤ℤ◌, length, take, drop, arith, add_usize, sub_usize,
  length-drop, length-drop, drop-take, length-take, take_all, inl, inr, Option-cases,
}
use redvector.Dbutil.{normalize_position}
use redvector.Dbutil.Position.{normalize_position-lt}
use redvector.ListValue.{ValueList, lrange, ltrim, range_start, range_stop, cut}
use redvector.ListValue.Ranges.{resolve, between, start_lem, stop_lem, Starts, Stops}

-- The stop is not more than one position before the start.
abbrev pub IsOrdered : ℤ → ℤ → ℕ → Type 0
IsOrdered s t len = resolve s len ≤ℤ resolve t len +ℤ pos 1

ordered_bounds :
    (s t : ℤ) (len last a b : ℕ)
    → len ≤ suc last
    → IsOrdered s t len
    → range_start (normalize_position s len) ≡ some a
    → range_stop last (normalize_position t len) ≡ some b
    → a ≤ suc b
unfolding normalize_position ◌+ℤ◌
ordered_bounds (pos n) (pos m) len last a b h o ea eb = ground arith
ordered_bounds (pos n) (negsuc m) len last a b h o ea eb = ground arith
ordered_bounds (negsuc n) (pos m) len last a b h o ea eb = ground arith
ordered_bounds (negsuc n) (negsuc m) len last a b h o ea eb = ground arith

stop_bound :
    (t : ℤ) (len last b : ℕ)
    → range_stop last (normalize_position t len) ≡ some b
    → (b < len) ⊎ (b ≡ last)
unfolding normalize_position
stop_bound t len last b e = ground arith

take_count : (a b : ℕ) → a ≤ suc b → b < 2 ^ 63 → add_usize (sub_usize b a) 1 ≡ suc b - a
take_count a b h k = omega arith

-- For every list shorter than 2^63 and every range whose stop is not more than one position before
-- its start, `lrange` returns the elements whose positions lie in the range, both ends included.
pub lrange-between :
    (xs : ValueList) (s t : ℤ)
    → length xs < 2 ^ 63
    → IsOrdered s t (length xs)
    → lrange xs s t ≡ between 0 (resolve s (length xs)) (resolve t (length xs)) xs
unfolding lrange
lrange-between xs s t short o =
    let len = length xs in
    elim (Option-cases (range_start (normalize_position s len))) [
      | inl e ↦
          let none_starts : Starts xs s none = rw e at (start_lem xs s) in
          rw (e, lrange) (sym (none_starts (resolve t len)))
      | inr (a, e) ↦
          let starts : Starts xs s (some a) = rw e at (start_lem xs s) in
          elim (Option-cases (range_stop len (normalize_position t len))) [
            | inl f ↦
                let none_stops : Stops xs t none = rw f at (stop_lem xs t len (omega arith)) in
                rw (e, f, lrange) (sym (starts (resolve t len) ∙ none_stops a))
            | inr (b, f) ↦
                let stops : Stops xs t (some b) = rw f at (stop_lem xs t len (omega arith)) in
                let le : a ≤ suc b = ordered_bounds s t len len a b (omega arith) o e f in
                let lt : b < 2 ^ 63 = ground (arith, stop_bound t len len b f) in
                rw (e, f, lrange)
                  (ap (λ k. take k (drop a xs)) (take_count a b le lt)
                    ∙ sym (starts (resolve t len) ∙ stops a))
          ]
    ]

cut_lem :
    (xs : ValueList) (a b : ℕ)
    → a ≤ suc b
    → suc b ≤ length xs
    → length xs < 2 ^ 63
    → cut xs a b ≡ returns (take (suc b - a) (drop a xs))
cut_lem xs a b h k short =
    let l : length (take (suc b) xs) ≡ suc b = omega (arith, length-take (suc b) xs) in
    ground (arith, l, drop-take a (suc b) xs)

ltrim_nil : (s t : ℤ) → ltrim [] s t ≡ returns (between 0 (resolve s 0) (resolve t 0) [])
unfolding ltrim between normalize_position
ltrim_nil s t = ground arith

ltrim_cons :
    (x : Bytes) (rest : ValueList) (s t : ℤ)
    → length (x ∷ rest) < 2 ^ 63
    → IsOrdered s t (length (x ∷ rest))
    → ltrim (x ∷ rest) s t
      ≡ returns
          (between 0 (resolve s (length (x ∷ rest))) (resolve t (length (x ∷ rest))) (x ∷ rest))
unfolding ltrim
ltrim_cons x rest s t short o =
    let xs : ValueList = x ∷ rest in
    let len = length xs in
    let last = sub_usize len 1 in
    let last_lem : last ≡ length rest = omega arith in
    elim (Option-cases (range_start (normalize_position s len))) [
      | inl e ↦
          let none_starts : Starts xs s none = rw e at (start_lem xs s) in
          rw (e, ltrim) (ap returns (sym (none_starts (resolve t len))))
      | inr (a, e) ↦
          let starts : Starts xs s (some a) = rw e at (start_lem xs s) in
          elim (Option-cases (range_stop last (normalize_position t len))) [
            | inl f ↦
                let none_stops : Stops xs t none = rw f at (stop_lem xs t last (omega arith)) in
                rw (e, f, ltrim) (ap returns (sym (starts (resolve t len) ∙ none_stops a)))
            | inr (b, f) ↦
                let stops : Stops xs t (some b) = rw f at (stop_lem xs t last (omega arith)) in
                let le : a ≤ suc b = ordered_bounds s t len last a b (omega arith) o e f in
                let lt : b < len = ground (arith, stop_bound t len last b f) in
                rw (e, f, ltrim)
                  (cut_lem xs a b le lt short ∙ ap returns (sym (starts (resolve t len) ∙ stops a)))
          ]
    ]

-- Under the same conditions `ltrim` does not panic and leaves exactly those elements.
pub ltrim-between :
    (xs : ValueList) (s t : ℤ)
    → length xs < 2 ^ 63
    → IsOrdered s t (length xs)
    → ltrim xs s t ≡ returns (between 0 (resolve s (length xs)) (resolve t (length xs)) xs)
ltrim-between [] s t short o = ltrim_nil s t
ltrim-between (x ∷ rest) s t short o = ltrim_cons x rest s t short o

-- A range whose stop lies two or more positions before its start, both inside the list: `lrange`
-- returns everything from the start to the end of the list, and `ltrim` panics.
pub reversed_range :
    (xs : ValueList) (s t : ℤ) (i j : ℕ)
    → length xs < 2 ^ 63
    → normalize_position s (length xs) ≡ ok i
    → normalize_position t (length xs) ≡ ok j
    → suc j < i
    → (lrange xs s t ≡ drop i xs) × (ltrim xs s t ≡ panics)
unfolding lrange ltrim
reversed_range xs s t i j short e f h =
    let lt : i < length xs = normalize_position-lt s (length xs) i e in
    let wrapped : length (drop i xs) ≤ (((j + 2 ^ 64 - i) % 2 ^ 64) + 1) % 2 ^ 64 =
      omega (arith, length-drop i xs) in
    let kept : length (take (suc j) xs) ≡ suc j = omega (arith, length-take (suc j) xs) in
    (rw (e, f, lrange) (take_all _ (drop i xs) wrapped), rw (e, f, ltrim) (ground (arith, kept)))

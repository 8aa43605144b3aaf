-- ===== src/ListValue/Ends.antt =====
-- The ends of a list, and reads, writes and insertions at one place of it.
use mathlib.Core.List.{reverse-cons}
use redvector.Base.{
  ℕ, zero, suc, ◌+◌, ◌-◌, ◌≤◌, ◌<◌, ◌≡◌, ◌≢◌, refl, ap, ◌∙◌, Bool, true, false, none, some, [], ◌∷◌,
  ◌++◌, reverse, append_assoc, Bytes, Result, ok, err, ◌==◌, if◌then◌else◌, ℤ, pos, negsuc, ltb,
  length, get_elem?, set, take, drop, All, eq_bytes_iff, arith, inl, inr, ◌⊎◌, ap₂, Bool-cases,
  length-append, length-set, get_elem?-set_self, get_elem?-set, get_elem?-none, take-length-append,
  drop-length-append, ltb→lt, ltb→le,
}
use redvector.Dbutil.{normalize_position, out_of_bounds_error}
use redvector.Dbutil.Position.{
  normalize_position-pos, normalize_position-negsuc, normalize_position-lt,
}
use redvector.ListValue.{ValueList, push, pop, pop_back, lindex, position, linsert, lset}

pop_back-append : (list : ValueList) (el : Bytes) → pop_back (list ++ el ∷ []) ≡ (list, some el)
unfolding pop_back
pop_back-append [] el = refl
pop_back-append (x ∷ []) el = refl
pop_back-append (x ∷ y ∷ xs) el = rw (pop_back-append (y ∷ xs) el)

-- Popping the end that was pushed gives the element back and the list as it was.
pub pop-push :
    (list : ValueList) (el : Bytes) (right : Bool)
    → pop (push list el right) right ≡ (list, some el)
unfolding pop push
pop-push list el true = pop_back-append list el
pop-push list el false = refl

get_elem?-append_left :
    (xs ys : ValueList) (i : ℕ) → i < length xs → get_elem? (xs ++ ys) i ≡ get_elem? xs i
get_elem?-append_left [] ys i h = elim h [ ]
get_elem?-append_left (x ∷ xs) ys zero h = refl
get_elem?-append_left (x ∷ xs) ys (suc i) h = get_elem?-append_left xs ys i (omega arith)

get_elem?-append_last : (xs : ValueList) (y : Bytes) → get_elem? (xs ++ y ∷ []) (length xs) ≡ some y
get_elem?-append_last [] y = refl
get_elem?-append_last (x ∷ xs) y = get_elem?-append_last xs y

pub length-reverse : (xs : ValueList) → length (reverse xs) ≡ length xs
length-reverse [] = refl
length-reverse (x ∷ xs) =
    omega
      (arith, ap length (reverse-cons x xs), length-append (reverse xs) (x ∷ []), length-reverse xs)

get_elem?-reverse :
    (xs : ValueList) (n : ℕ)
    → n < length xs
    → get_elem? (reverse xs) n ≡ get_elem? xs (length xs - suc n)
get_elem?-reverse [] n h = elim h [ ]
get_elem?-reverse (x ∷ xs) n h = elim (Bool-cases (ltb n (length xs))) [
  | inl inside ↦
      let lt : n < length xs = ltb→lt n (length xs) inside in
      let e : suc (length xs) - suc n ≡ suc (length xs - suc n) = omega arith in
      rw (reverse-cons x xs, e)
        (get_elem?-append_left (reverse xs) (x ∷ []) n (omega (arith, length-reverse xs))
          ∙ get_elem?-reverse xs n lt)
  | inr last ↦
      let le : length xs ≤ n = ltb→le n (length xs) last in
      let e : suc (length xs) - suc n ≡ 0 = omega arith in
      let k : n ≡ length (reverse xs) = omega (arith, length-reverse xs) in
      rw (reverse-cons x xs, e, k) (get_elem?-append_last (reverse xs) x)
]

-- A negative index counts from the back: it reads the reversed list at the index that many places in.
pub lindex-negsuc : (list : ValueList) (n : ℕ) → lindex list (negsuc n) ≡ get_elem? (reverse list) n
unfolding lindex
lindex-negsuc list n = ground (
  arith,
  normalize_position-negsuc n (length list),
  get_elem?-reverse list n,
  get_elem?-none (reverse list) n,
  length-reverse list,
)

lindex-pos : (list : ValueList) (n : ℕ) → lindex list (pos n) ≡ get_elem? list n
unfolding lindex
lindex-pos list n = ground (arith, normalize_position-pos n (length list), get_elem?-none list n)

-- The tests that `position` fails before it finds the pivot.
abbrev pub Lacks : Bytes → ValueList → Type 0
Lacks pivot = All (λ x. x ≢ pivot)

position_first :
    (pivot : Bytes) (before after : ValueList)
    → Lacks pivot before
    → position pivot (before ++ pivot ∷ after) ≡ some (length before)
unfolding position
position_first pivot [] after h = rw ((eq_bytes_iff pivot pivot).1 refl)
position_first pivot (x ∷ before) after h =
    ground (arith, h.0, eq_bytes_iff x pivot, position_first pivot before after h.1)

position-none : (pivot : Bytes) (list : ValueList) → Lacks pivot list → position pivot list ≡ none
unfolding position
position-none pivot [] h = refl
position-none pivot (x ∷ list) h =
    ground (arith, h.0, eq_bytes_iff x pivot, position-none pivot list h.1)

take-length_suc :
    (xs ys : ValueList) (y : Bytes) → take (length xs + 1) (xs ++ y ∷ ys) ≡ xs ++ y ∷ []
take-length_suc [] ys y = refl
take-length_suc (x ∷ xs) ys y =
    let e : suc (length xs) + 1 ≡ suc (length xs + 1) = omega arith in
    rw e (ap (λ r. x ∷ r) (take-length_suc xs ys y))

drop-length_suc : (xs ys : ValueList) (y : Bytes) → drop (length xs + 1) (xs ++ y ∷ ys) ≡ ys
drop-length_suc [] ys y = refl
drop-length_suc (x ∷ xs) ys y =
    let e : suc (length xs) + 1 ≡ suc (length xs + 1) = omega arith in
    rw e (drop-length_suc xs ys y)

-- `linsert` puts the new value on the asked side of the first occurrence of the pivot and returns
-- the new length; without an occurrence it changes nothing and returns `none`.
pub linsert_lem :
    (before after : ValueList) (pivot newvalue : Bytes)
    → Lacks pivot before
    → (linsert (before ++ pivot ∷ after) true pivot newvalue
        ≡ (before ++ newvalue ∷ pivot ∷ after, some (length before + length after + 2)))
      × (linsert (before ++ pivot ∷ after) false pivot newvalue
          ≡ (before ++ pivot ∷ newvalue ∷ after, some (length before + length after + 2)))
      × (linsert before true pivot newvalue ≡ (before, none))
      × (linsert before false pivot newvalue ≡ (before, none))
unfolding linsert
linsert_lem before after pivot newvalue h =
    let found = position_first pivot before after h in
    let absent = position-none pivot before h in
    (
      rw
          (
            found,
            linsert,
            take-length-append before (pivot ∷ after),
            drop-length-append before (pivot ∷ after),
          )
          (ap (λ (n : ℕ). (before ++ newvalue ∷ pivot ∷ after, some n))
            (omega (arith, length-append before (newvalue ∷ pivot ∷ after)))),
      rw (found, linsert, take-length_suc before after pivot, drop-length_suc before after pivot)
          (ap₂ (λ (l : ValueList) (n : ℕ). (l, some n))
            (append_assoc before (pivot ∷ []) (newvalue ∷ after))
            (omega (
              arith,
              length-append (before ++ pivot ∷ []) (newvalue ∷ after),
              length-append before (pivot ∷ []),
            ))),
      rw (absent, linsert),
      rw (absent, linsert),
    )

-- `lset` fails, leaving the list alone, where there is nothing at the index to read; otherwise the
-- index reads the new value afterwards, the length is as it was, and so is every other place.
pub lset_lem :
    (list : ValueList) (index : ℤ) (newvalue : Bytes) (j : ℕ)
    → ((lindex list index ≡ none) × (lset list index newvalue ≡ (list, err out_of_bounds_error)))
      ⊎ ((i : ℕ) × (updated : ValueList) × (normalize_position index (length list) ≡ ok i)
          × (lset list index newvalue ≡ (updated, ok tt))
          × (lindex updated index ≡ some newvalue)
          × (length updated ≡ length list)
          × (get_elem? updated j ≡ (if i == j then some newvalue else get_elem? list j)))
unfolding lset lindex
lset_lem list index newvalue j = go (normalize_position index (length list)) refl
  where
    go :
        (r : Result ℕ Bool)
        → normalize_position index (length list) ≡ r
        → ((lindex list index ≡ none)
            × (lset list index newvalue ≡ (list, err out_of_bounds_error)))
          ⊎ ((i : ℕ) × (updated : ValueList) × (normalize_position index (length list) ≡ ok i)
              × (lset list index newvalue ≡ (updated, ok tt))
              × (lindex updated index ≡ some newvalue)
              × (length updated ≡ length list)
              × (get_elem? updated j ≡ (if i == j then some newvalue else get_elem? list j)))
    go (err g) e = inl (rw (e, lindex), rw (e, lset))
    go (ok i) e =
        let lt : i < length list = normalize_position-lt index (length list) i e in
        let kept = length-set list i newvalue in
        inr (
          i,
          set list i newvalue,
          e,
          rw (e, lset),
          rw (kept, e, lindex) (get_elem?-set_self list i newvalue lt),
          kept,
          get_elem?-set list i j newvalue lt,
        )

-- ===== src/ListValue.antt =====
-- database/src/list.rs: the Redis list. `ValueList` has one variant, a linked list of byte strings;
-- its front is the head here. Each method that takes `&mut self` returns the new list.
pub mod Ends
pub mod Ranges
pub mod Windows
pub mod Removal
pub mod Dump
mod Examples
use redvector.Base.{
  ℕ, zero, suc, ◌+◌, ◌-◌, Bool, true, false, ◌||◌, Option, none, some, List, [], ◌∷◌, ◌++◌, reverse,
  Bytes, Result, ok, err, Run, returns, panics, ℤ, ltb, leb, ◌==◌, if◌then◌else◌, length, get_elem?,
  set, take, drop, eq_bytes, add_usize, sub_usize,
}
use redvector.Dbutil.{normalize_position, OperationError, out_of_bounds_error}

abbrev pub ValueList : Type 0
ValueList = List Bytes

abbrev pub new : ValueList
new = []

unfoldable pub push : ValueList → Bytes → Bool → ValueList
push list el right = if right then list ++ el ∷ [] else el ∷ list

-- `LinkedList::pop_front` and `pop_back`.
abbrev pop_front : ValueList → ValueList × Option Bytes
pop_front [] = ([], none)
pop_front (x ∷ xs) = (xs, some x)

unfoldable pub pop_back : ValueList → ValueList × Option Bytes
pop_back [] = ([], none)
pop_back (x ∷ []) = ([], some x)
pop_back (x ∷ y ∷ xs) = let (rest, last) = pop_back (y ∷ xs) in (x ∷ rest, last)

unfoldable pub pop : ValueList → Bool → ValueList × Option Bytes
unfolding pop_back
pop list right = if right then pop_back list else pop_front list

unfoldable pub lindex : ValueList → ℤ → Option Bytes
lindex list index = elim (normalize_position index (length list)) [
  | ok i ↦ get_elem? list i
  | err _ ↦ none
]

-- `iter().position(|x| x == pivot)`.
unfoldable pub position : Bytes → ValueList → Option ℕ
position pivot [] = none
position pivot (x ∷ xs) =
    if eq_bytes x pivot
    then some 0
    else elim (position pivot xs) [ none ↦ none | some i ↦ some (suc i) ]

-- `split_off(pos)`, then the new value and the part that was split off.
abbrev insert_at : ValueList → ℕ → Bytes → ValueList
insert_at list p newvalue = take p list ++ newvalue ∷ drop p list

unfoldable pub linsert : ValueList → Bool → Bytes → Bytes → ValueList × Option ℕ
unfolding position
linsert list before pivot newvalue = elim (position pivot list) [
  | none ↦ (list, none)
  | some p ↦
      let inserted = insert_at list (if before then p else p + 1) newvalue in
      (inserted, some (length inserted))
]

abbrev pub llen : ValueList → ℕ
llen list = length list

-- The start and the stop that `lrange` and `ltrim` make of a normalized position; `none` is the
-- early return with nothing. They differ in `last`, the stop for a position past the end.
abbrev pub range_start : Result ℕ Bool → Option ℕ
range_start (ok i) = some i
range_start (err false) = some 0
range_start (err true) = none

abbrev pub range_stop : ℕ → Result ℕ Bool → Option ℕ
range_stop last (ok i) = some i
range_stop last (err false) = none
range_stop last (err true) = some last

unfoldable pub lrange : ValueList → ℤ → ℤ → List Bytes
lrange list start_ stop_ =
    let len = length list in
    elim (range_start (normalize_position start_ len)) [
      | none ↦ []
      | some start ↦ elim (range_stop len (normalize_position stop_ len)) [
        | none ↦ []
        | some stop ↦ take (add_usize (sub_usize stop start) 1) (drop start list)
      ]
    ]

-- `while limit == 0 || count < limit`
abbrev goes_on : ℕ → ℕ → Bool
goes_on limit count = limit == 0 || ltb count limit

unfoldable pub lrem_left : ℕ → Bytes → ℕ → ValueList → ValueList → ValueList × ℕ
lrem_left limit value count [] newlist = (newlist, count)
lrem_left limit value count (el ∷ list) newlist =
    let hit = eq_bytes el value in
    let rest =
      lrem_left limit value (if hit then count + 1 else count) list
        (if hit then newlist else newlist ++ el ∷ []) in
    if goes_on limit count then rest else (newlist ++ el ∷ list, count)

-- The third argument is the list read from its back.
unfoldable pub lrem_right : ℕ → Bytes → ℕ → ValueList → ValueList → ValueList × ℕ
lrem_right limit value count [] newlist = (newlist, count)
lrem_right limit value count (el ∷ list) newlist =
    let hit = eq_bytes el value in
    let rest =
      lrem_right limit value (if hit then count + 1 else count) list
        (if hit then newlist else el ∷ newlist) in
    if goes_on limit count then rest else (reverse (el ∷ list) ++ newlist, count)

unfoldable pub lrem : ValueList → Bool → ℕ → Bytes → ValueList × ℕ
unfolding lrem_left lrem_right
lrem list left limit newvalue =
    if left
    then lrem_left limit newvalue 0 list []
    else lrem_right limit newvalue 0 (reverse list) []

unfoldable pub lset : ValueList → ℤ → Bytes → ValueList × Result (Unit {0}) OperationError
lset list index newvalue = elim (normalize_position index (length list)) [
  | err _ ↦ (list, err out_of_bounds_error)
  | ok i ↦ (set list i newvalue, ok tt)
]

-- `LinkedList::split_off` keeps the first part and returns the second; past the end it panics.
abbrev pub split_off : ValueList → ℕ → Run (ValueList × ValueList)
split_off list at = if leb at (length list) then returns (take at list, drop at list) else panics

-- `list.split_off(stop + 1); list.split_off(start)`
abbrev pub cut : ValueList → ℕ → ℕ → Run ValueList
cut list start stop = elim (split_off list (add_usize stop 1)) [
  | panics ↦ panics
  | returns (kept, _) ↦ elim (split_off kept start) [
    | panics ↦ panics
    | returns (_, trimmed) ↦ returns trimmed
  ]
]

-- It returns `Ok(())` or panics.
unfoldable pub ltrim : ValueList → ℤ → ℤ → Run ValueList
ltrim list start_ stop_ =
    let len = length list in
    elim (range_start (normalize_position start_ len)) [
      | none ↦ returns []
      | some start ↦ elim (range_stop (sub_usize len 1) (normalize_position stop_ len)) [
        | none ↦ returns []
        | some stop ↦ cut list start stop
      ]
    ]

-- ===== src/StringValue.antt =====
-- database/src/string.rs: a string value, held as an integer where its text allows that. The
-- operations on floats and on HyperLogLog registers are not modelled.
pub mod Numbers
pub mod Writes
pub mod Reads
pub mod Bits
pub mod Dump
mod Examples
use redvector.Base.{
  ℕ, zero, suc, ◌+◌, ◌-◌, ◌*◌, ◌/◌, ◌%◌, ◌^◌, Bool, true, false, not, ◌||◌, Option, none, some,
  List, [], ◌∷◌, ◌++◌, Bytes, Result, ok, err, Run, returns, panics, ℤ, ◌+ℤ◌, fits_i64, ltb, ◌==◌,
  if◌then◌else◌, length, set, take, drop, replicate, get_elem?, add_usize, sub_usize,
}
use redvector.Decimal.{to_string_i64, parse_i64}
use redvector.Utf8.{is_utf8}
use redvector.Dbutil.{OperationError, value_error, overflow_error, normalize_position}

pub data ValueString : Type 0 where
  integer : ℤ → ValueString
  data_ : Bytes → ValueString

-- `parse_utf8::<i64>`
unfoldable pub parse_utf8 : Bytes → Option ℤ
parse_utf8 [] = none
parse_utf8 (c ∷ s) = if c == b'0' then none else if is_utf8 (c ∷ s) then parse_i64 (c ∷ s) else none

abbrev held : Bytes → Option ℤ → ValueString
held newvalue none = data_ newvalue
held newvalue (some i) = integer i

unfoldable pub new : Bytes → ValueString
unfolding parse_utf8
new newvalue = held newvalue (parse_utf8 newvalue)

unfoldable pub to_vec : ValueString → Bytes
to_vec (data_ d) = d
to_vec (integer i) = to_string_i64 i

unfoldable pub strlen : ValueString → ℕ
strlen (data_ d) = length d
strlen (integer i) = length (to_string_i64 i)

unfoldable pub append : ValueString → Bytes → ValueString
unfolding new
append (data_ d) newvalue = data_ (d ++ newvalue)
append (integer i) newvalue = new (to_string_i64 i ++ newvalue)

abbrev pub not_an_integer : OperationError
not_an_integer = value_error "ERR value is not a valid integer"

-- `checked_add` and the assignment. An error leaves the value as it was.
abbrev pub add_to : ValueString → ℤ → ℤ → ValueString × Result ℤ OperationError
add_to v val incr =
    let newval = val +ℤ incr in
    if fits_i64 newval then (integer newval, ok newval) else (v, err overflow_error)

unfoldable pub incr : ValueString → ℤ → ValueString × Result ℤ OperationError
unfolding parse_utf8 ◌+ℤ◌
incr (integer i) by = add_to (integer i) i by
incr (data_ d) by = elim (parse_utf8 d) [
  | none ↦ (data_ d, err not_an_integer)
  | some i ↦ add_to (data_ d) i by
]

-- Start and stop as `getrange` makes them of a normalized position; `none` returns nothing. For an
-- empty string `len - 1` wraps, as in a build without overflow checks.
abbrev pub getrange_start : Result ℕ Bool → Option ℕ
getrange_start (ok i) = some i
getrange_start (err false) = some 0
getrange_start (err true) = none

abbrev pub getrange_stop : ℕ → Result ℕ Bool → Option ℕ
getrange_stop len (ok i) = some i
getrange_stop len (err false) = none
getrange_stop len (err true) = some (sub_usize len 1)

-- `s[start..stop + 1]`, which panics where that is not inside `s`.
abbrev pub slice : Bytes → ℕ → ℕ → Run Bytes
slice s start end =
    if ltb end start || ltb (length s) end
    then panics
    else returns (take (end - start) (drop start s))

unfoldable pub getrange : ValueString → ℤ → ℤ → Run Bytes
unfolding to_vec
getrange v start_ stop_ =
    let s = to_vec v in
    let len = length s in
    elim (getrange_start (normalize_position start_ len)) [
      | none ↦ returns []
      | some start ↦ elim (getrange_stop len (normalize_position stop_ len)) [
        | none ↦ returns []
        | some stop ↦ if ltb stop start then returns [] else slice s start (add_usize stop 1)
      ]
    ]

-- The byte at an index, 0 past the end.
abbrev pub byte_at : Bytes → ℕ → ℕ
byte_at [] i = 0
byte_at (b ∷ d) zero = b
byte_at (b ∷ d) (suc i) = byte_at d i

-- `byteval & (1 << bit) != 0`
abbrev pub has_bit : ℕ → ℕ → Bool
has_bit byteval bit = not (byteval / 2 ^ bit % 2 == 0)

-- `byteval &= !(1 << bit); byteval |= on << bit`
abbrev pub with_bit : ℕ → ℕ → Bool → ℕ
with_bit byteval bit on = byteval - byteval / 2 ^ bit % 2 * 2 ^ bit + (if on then 2 ^ bit else 0)

-- `while n > d.len() { d.push(0) }`
abbrev pub pad : Bytes → ℕ → Bytes
pad d n = d ++ replicate (n - length d) 0

unfoldable pub setbit : ValueString → ℕ → Bool → ValueString × Bool
unfolding to_vec
setbit v bitoffset on =
    let byte = bitoffset / 8 in
    let d = pad (to_vec v) (byte + 1) in
    let byteval = byte_at d byte in
    let bit = 7 - bitoffset % 8 in
    (data_ (set d byte (with_bit byteval bit on)), has_bit byteval bit)

unfoldable pub getbit : ValueString → ℕ → Bool
unfolding to_vec
getbit v bitoffset =
    let d = to_vec v in
    let byte = bitoffset / 8 in
    let bit = 7 - bitoffset % 8 in
    if ltb byte (length d) then has_bit (byte_at d byte) bit else false

-- `d.push(c)`, and `d.swap_remove(index)` where that is not the byte just pushed: it moves the
-- byte at the end to `index`.
abbrev pub put : Bytes → ℕ → ℕ → Bytes
put d index c = if ltb index (length d) then set d index c else d ++ c ∷ []

unfoldable pub put_all : Bytes → ℕ → Bytes → Bytes
put_all d index [] = d
put_all d index (c ∷ cs) = put_all (put d index c) (index + 1) cs

unfoldable pub setrange : ValueString → ℕ → Bytes → ValueString × ℕ
unfolding to_vec strlen put_all
setrange v index [] = (v, strlen v)
setrange v index (c ∷ cs) =
    let d = put_all (pad (to_vec v) index) index (c ∷ cs) in (data_ d, length d)

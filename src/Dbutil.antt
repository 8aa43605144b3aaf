-- ===== src/Dbutil.antt =====
-- database/src/dbutil.rs and the error type of database/src/error.rs.
pub mod Position
pub mod Numbers
mod Examples
use Prim.Native.String.{String}
use redvector.Base.{
  ℕ, ◌+◌, Bool, true, false, ◌&&◌, ◌||◌, Option, none, some, List, [], ◌∷◌, Bytes, Result, ok, err,
  ℤ, pos, negsuc, ◌+ℤ◌, ltb_ℤ, leb_ℤ, pos_part, ltb, ◌==◌, if◌then◌else◌, length,
}
use redvector.Decimal.{to_string, parse_usize}
use redvector.Utf8.{is_utf8}

-- `IOError` carries an error of the operating system, which nothing here reads.
pub data OperationError : Type 0 where
  overflow_error not_a_number_error : OperationError
  value_error : String → OperationError
  unknown_key_error wrong_type_error out_of_bounds_error io_error : OperationError

-- A length is below 2^63, so `_len as i64` is the length itself, and the sum does not overflow.
unfoldable pub normalize_position : ℤ → ℕ → Result ℕ Bool
unfolding ◌+ℤ◌
normalize_position position len =
    let p = if ltb_ℤ position (pos 0) then position +ℤ pos len else position in
    if ltb_ℤ p (pos 0) then err false else if leb_ℤ (pos len) p then err true else ok (pos_part p)

unfoldable pub usize_to_vec : ℕ → Bytes
usize_to_vec i = to_string i

abbrev pub is_empty {ℓ} : {A : Type ℓ} → List A → Bool
is_empty [] = true
is_empty (x ∷ xs) = false

-- `data[0] == b`, which is only asked of data that is not empty.
abbrev pub starts_with : ℕ → Bytes → Bool
starts_with b [] = false
starts_with b (c ∷ s) = c == b

abbrev number_or : Option ℕ → OperationError → Result ℕ OperationError
number_or none e = err e
number_or (some n) e = ok n

unfoldable pub vec_to_usize : Bytes → Result ℕ OperationError
vec_to_usize bytes =
    if is_empty bytes || ltb 1 (length bytes) && starts_with b'0' bytes
    then err (value_error "ERR value is not an integer")
    else if is_utf8 bytes
    then number_or (parse_usize bytes) (value_error "ERR value is not a integer")
    else err (value_error "ERR value is not a string")

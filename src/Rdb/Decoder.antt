-- ===== src/Rdb/Decoder.antt =====
-- A reader of the dump format, after the layout that constants.rs describes: a description of what
-- the encoders are to produce. It takes a value off the front and returns the rest.
use redvector.Base.{
  ℕ, ◌+◌, ◌-◌, ◌*◌, ◌/◌, ◌%◌, ◌^◌, Option, none, some, [], ◌∷◌, Bytes, ℤ, pos, negsuc, ltb, leb,
  ◌==◌, if◌then◌else◌, length, take, drop,
}
use redvector.Decimal.{to_string_i64}

-- 00 and six bits; 01, six bits and a byte; 10 and four bytes, the highest first.
unfoldable pub read_len : Bytes → Option (ℕ × Bytes)
read_len [] = none
read_len (b ∷ s) =
    if b / 64 == 0
    then some (b % 64, s)
    else if b / 64 == 1
    then elim s [ [] ↦ none | c ∷ s' ↦ some (b % 64 * 256 + c, s') ]
    else if b / 64 == 2
    then elim s [
      | c3 ∷ c2 ∷ c1 ∷ c0 ∷ s' ↦ some (((c3 * 256 + c2) * 256 + c1) * 256 + c0, s')
      | _ ↦ none
    ]
    else none

-- The signed number that a pattern of `2 * half` values stands for.
abbrev pub signed_of : ℕ → ℕ → ℤ
signed_of half w = if ltb w half then pos w else negsuc (2 * half - w - 1)

-- 11 and the width of the integer that follows, the lowest byte first.
unfoldable pub read_i64 : Bytes → Option (ℤ × Bytes)
read_i64 [] = none
read_i64 (b ∷ s) =
    if b == 192
    then elim s [ c0 ∷ s' ↦ some (signed_of (2 ^ 7) c0, s') | _ ↦ none ]
    else if b == 193
    then elim s [ c0 ∷ c1 ∷ s' ↦ some (signed_of (2 ^ 15) (c0 + 256 * c1), s') | _ ↦ none ]
    else if b == 194
    then elim s [
      | c0 ∷ c1 ∷ c2 ∷ c3 ∷ s' ↦
          some (signed_of (2 ^ 31) (c0 + 256 * (c1 + 256 * (c2 + 256 * c3))), s')
      | _ ↦ none
    ]
    else none

abbrev pub is_encoded : Bytes → ℕ
is_encoded [] = 0
is_encoded (b ∷ s) = b / 64

abbrev pub split_at : Option (ℕ × Bytes) → Option (Bytes × Bytes)
split_at none = none
split_at (some (n, s)) = if leb n (length s) then some (take n s, drop n s) else none

abbrev pub printed : Option (ℤ × Bytes) → Option (Bytes × Bytes)
printed none = none
printed (some (i, s)) = some (to_string_i64 i, s)

-- A string: an encoded integer, which stands for its decimal text, or a length and the bytes.
unfoldable pub read_string : Bytes → Option (Bytes × Bytes)
unfolding read_len read_i64
read_string s = if is_encoded s == 3 then printed (read_i64 s) else split_at (read_len s)

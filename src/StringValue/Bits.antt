-- ===== src/StringValue/Bits.antt =====
-- A bit that `setbit` writes, and the bits that it leaves.
use redvector.Base.{
  ℕ, zero, suc, ◌+◌, ◌-◌, ◌*◌, ◌/◌, ◌%◌, ◌^◌, ◌≤◌, ◌<◌, ◌≡◌, refl, ◌∙◌, sym, true, false, Bool, [],
  ◌∷◌, ◌++◌, Bytes, length, length-append, length-replicate, max, ltb→le, set, replicate, arith,
  ltb, ◌==◌, if◌then◌else◌, Bool-cases, inl, inr,
}
use native.Mathlib.Nat.{div-div-eq-div-mul, div-mul-le_self, mul-le-mul_right, mod-le}
use redvector.StringValue.{
  ValueString, data_, to_vec, setbit, getbit, pad, byte_at, has_bit, with_bit,
}

half_bit : (b j : ℕ) → has_bit b (suc j) ≡ has_bit (b / 2) j
half_bit b j =
    let p : 2 ^ suc j ≡ 2 * 2 ^ j = omega arith in
    let q : b / (2 * 2 ^ j) ≡ b / 2 / 2 ^ j = sym (div-div-eq-div-mul b 2 (2 ^ j)) in rw (p, q)

half_with : (b i : ℕ) (on : Bool) → with_bit b (suc i) on ≡ b % 2 + 2 * with_bit (b / 2) i on
half_with b i on =
    let p : 2 ^ suc i ≡ 2 * 2 ^ i = omega arith in
    let q : b / (2 * 2 ^ i) ≡ b / 2 / 2 ^ i = sym (div-div-eq-div-mul b 2 (2 ^ i)) in
    let t = b / 2 / 2 ^ i in
    let le : t * 2 ^ i ≤ b / 2 = div-mul-le_self (b / 2) (2 ^ i) in
    let less : t % 2 * 2 ^ i ≤ t * 2 ^ i = mul-le-mul_right (2 ^ i) (mod-le t 2) in
    let twice : t % 2 * (2 * 2 ^ i) ≡ 2 * (t % 2 * 2 ^ i) = omega arith in
    rw (p, q, twice) (ground (arith, le, less))

with_bit-has_bit :
    (b i j : ℕ) (on : Bool) → has_bit (with_bit b i on) j ≡ (if i == j then on else has_bit b j)
with_bit-has_bit b zero zero true = ground arith
with_bit-has_bit b zero zero false = ground arith
with_bit-has_bit b zero (suc j) on =
    let half : with_bit b 0 on / 2 ≡ b / 2 = ground arith in
    rw (half_bit (with_bit b 0 on) j, half_bit b j, half) (ground arith)
with_bit-has_bit b (suc i) zero on = rw (half_with b i on) (ground arith)
with_bit-has_bit b (suc i) (suc j) on =
    let w = with_bit (b / 2) i on in
    let half : (b % 2 + 2 * w) / 2 ≡ w = omega arith in
    rw
      (
        half_with b i on,
        half_bit (b % 2 + 2 * w) j,
        half_bit b j,
        half,
        with_bit-has_bit (b / 2) i j on,
      )
      (ground arith)

byte_at-set :
    (d : Bytes) (i j b : ℕ)
    → i < length d
    → byte_at (set d i b) j ≡ (if i == j then b else byte_at d j)
byte_at-set [] i j b h = absurd (omega arith)
byte_at-set (x ∷ d) zero zero b h = ground arith
byte_at-set (x ∷ d) zero (suc j) b h = ground arith
byte_at-set (x ∷ d) (suc i) zero b h = ground arith
byte_at-set (x ∷ d) (suc i) (suc j) b h = ground (arith, byte_at-set d i j b (omega arith))

byte_at-zeros : (n i : ℕ) → byte_at (replicate n 0) i ≡ 0
byte_at-zeros zero i = refl
byte_at-zeros (suc n) zero = refl
byte_at-zeros (suc n) (suc i) = byte_at-zeros n i

byte_at-append_zeros : (d : Bytes) (n i : ℕ) → byte_at (d ++ replicate n 0) i ≡ byte_at d i
byte_at-append_zeros [] n i = byte_at-zeros n i
byte_at-append_zeros (x ∷ d) n zero = refl
byte_at-append_zeros (x ∷ d) n (suc i) = byte_at-append_zeros d n i

byte_at_past : (d : Bytes) (i : ℕ) → length d ≤ i → byte_at d i ≡ 0
byte_at_past [] i h = refl
byte_at_past (x ∷ d) zero h = absurd (omega arith)
byte_at_past (x ∷ d) (suc i) h = byte_at_past d i (omega arith)

-- The bit at an offset, of a text that goes on with zeros.
abbrev bit_of : Bytes → ℕ → Bool
bit_of d j = has_bit (byte_at d (j / 8)) (7 - j % 8)

no_bit : (j : ℕ) → has_bit 0 j ≡ false
no_bit j = let z : 0 / 2 ^ j ≡ 0 = omega arith in ground (arith, z)

getbit-bit_of : (v : ValueString) (j : ℕ) → getbit v j ≡ bit_of (to_vec v) j
unfolding getbit
getbit-bit_of v j = elim (Bool-cases (ltb (j / 8) (length (to_vec v)))) [
  | inl e ↦ rw e
  | inr e ↦
      rw (e, byte_at_past (to_vec v) (j / 8) (ltb→le (j / 8) (length (to_vec v)) e))
        (sym (no_bit (7 - j % 8)))
]

length-pad : (d : Bytes) (n : ℕ) → length (pad d n) ≡ max n (length d)
length-pad d n =
    omega (
      arith,
      length-append d (replicate (n - length d) 0),
      length-replicate {A = ℕ} (n - length d) 0,
    )

same_offset : (i j : ℕ) → i / 8 ≡ j / 8 → ((7 - i % 8) == (7 - j % 8)) ≡ (i == j)
same_offset i j h = ground arith

other_byte : (i j : ℕ) → (i / 8 == j / 8) ≡ false → (i == j) ≡ false
other_byte i j h = ground arith

-- After `setbit` the bit at its offset reads as it was set, and every other bit as before; what
-- `setbit` returns is the bit that was there.
pub getbit-setbit :
    (v : ValueString) (i j : ℕ) (on : Bool)
    → (getbit (setbit v i on).0 j ≡ (if i == j then on else getbit v j))
      × ((setbit v i on).1 ≡ getbit v i)
unfolding setbit
getbit-setbit v i j on =
    let d = pad (to_vec v) (i / 8 + 1) in
    let old = byte_at d (i / 8) in
    let b = with_bit old (7 - i % 8) on in
    let room : i / 8 < length d = omega (arith, length-pad (to_vec v) (i / 8 + 1)) in
    let padded : (k : ℕ) → byte_at d k ≡ byte_at (to_vec v) k =
      λ k. byte_at-append_zeros (to_vec v) (i / 8 + 1 - length (to_vec v)) k in
    let written : bit_of (set d (i / 8) b) j ≡ (if i == j then on else bit_of (to_vec v) j) =
      elim (Bool-cases (i / 8 == j / 8)) [
        | inr e ↦ rw (byte_at-set d (i / 8) (j / 8) b room, e, other_byte i j e, padded (j / 8))
        | inl e ↦
            let same : i / 8 ≡ j / 8 = ground (arith, e) in
            rw (
              byte_at-set d (i / 8) (j / 8) b room,
              e,
              with_bit-has_bit old (7 - i % 8) (7 - j % 8) on,
              same_offset i j same,
              padded (i / 8),
              same,
            )
      ] in
    (
      getbit-bit_of (data_ (set d (i / 8) b)) j ∙ written ∙ rw (getbit-bit_of v j),
      rw (padded (i / 8)) (sym (getbit-bit_of v i)),
    )

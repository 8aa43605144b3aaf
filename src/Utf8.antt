-- ===== src/Utf8.antt =====
-- `std::str::from_utf8` as a test on bytes: Rust's table of well-formed sequences.
use redvector.Base.{
  ℕ, zero, suc, ◌<◌, ◌≡◌, refl, Bool, true, false, ◌&&◌, ◌||◌, [], ◌∷◌, Bytes, All, arith, ltb, leb,
  ◌==◌, if◌then◌else◌,
}

abbrev starts : ℕ → Bool
starts b = ltb b 0x80 || leb 0xc2 b && leb b 0xf4

-- How many continuation bytes follow a first byte.
abbrev pending : ℕ → ℕ
pending b = if ltb b 0x80 then 0 else if ltb b 0xe0 then 1 else if ltb b 0xf0 then 2 else 3

-- The range of the first of them.
abbrev lowest : ℕ → ℕ
lowest b = if b == 0xe0 then 0xa0 else if b == 0xf0 then 0x90 else 0x80

abbrev highest : ℕ → ℕ
highest b = if b == 0xed then 0x9f else if b == 0xf4 then 0x8f else 0xbf

utf8_from : ℕ → ℕ → ℕ → Bytes → Bool
utf8_from zero lo hi [] = true
utf8_from zero lo hi (b ∷ s) = starts b && utf8_from (pending b) (lowest b) (highest b) s
utf8_from (suc k) lo hi [] = false
utf8_from (suc k) lo hi (b ∷ s) = leb lo b && (leb b hi && utf8_from k 0x80 0xbf s)

unfoldable pub is_utf8 : Bytes → Bool
unfolding utf8_from
is_utf8 s = utf8_from 0 0x80 0xbf s

abbrev pub IsAscii : Bytes → Type 0
IsAscii = All (λ b. b < 128)

utf8_from-ascii : (lo hi : ℕ) (s : Bytes) → IsAscii s → utf8_from 0 lo hi s ≡ true
unfolding utf8_from
utf8_from-ascii lo hi [] h = refl
utf8_from-ascii lo hi (b ∷ s) h = ground (arith, utf8_from-ascii (lowest b) (highest b) s h.1, h.0)

pub is_utf8-ascii : (s : Bytes) → IsAscii s → is_utf8 s ≡ true
unfolding is_utf8
is_utf8-ascii s h = utf8_from-ascii 0x80 0xbf s h

two_byte_sequence : is_utf8 (0xc3 ∷ 0xa9 ∷ []) ≡ true
unfolding is_utf8
two_byte_sequence = refl

overlong_sequence : is_utf8 (0xc0 ∷ 0x80 ∷ []) ≡ false
unfolding is_utf8
overlong_sequence = refl

-- ===== src/Parser/Panics.antt =====
-- Where `parse` panics: a number that begins with '-' and is not followed by a '\r'.
use redvector.Base.{
  ℕ, ◌+◌, ◌≡◌, ◌≢◌, refl, Bool-cases, inl, inr, [], ◌∷◌, ◌++◌, Bytes, All, codes, arith, ◌==◌,
}
use redvector.Parser.{
  parse, panics, invalid_multibulk_length, skip_negative, parse_int, int_loop, parse_command,
  skip_blank, Complaint,
}

skip_negative-panics : (s : Bytes) (i : ℕ) → All (λ c. c ≢ 13) s → skip_negative s i ≡ panics
unfolding skip_negative
skip_negative-panics [] i h = refl
skip_negative-panics (c ∷ s) i h = elim (Bool-cases (c == 13)) [
  | inl e ↦ absurd (h.0 (ground (arith, e)))
  | inr e ↦ rw e (skip_negative-panics s (i + 1) h.1)
]

parse_int-panics :
    (invalid : Complaint) (s : Bytes) → All (λ c. c ≢ 13) s → parse_int invalid (b'-' ∷ s) ≡ panics
unfolding parse_int int_loop skip_negative
parse_int-panics invalid s h = skip_negative-panics s 1 h

-- `parse` panics, in place of asking for more bytes, on "*-" and anything behind it that has no
-- '\r', as when a request arrives in parts.
pub parse-panics : (s : Bytes) → All (λ c. c ≢ 13) s → parse (codes "*-" ++ s) ≡ panics
unfolding parse skip_blank parse_command
parse-panics s h = rw (parse_int-panics invalid_multibulk_length s h)

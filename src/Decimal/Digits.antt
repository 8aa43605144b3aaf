-- ===== src/Decimal/Digits.antt =====
-- The digits that `to_string` prints: how they grow by one, and what the first of them is.
use redvector.Base.{
  ℕ, zero, suc, ◌+◌, ◌*◌, ◌/◌, ◌%◌, ◌≤◌, ◌<◌, ◌≡◌, refl, sym, ap, ◌∙◌, inl, inr, [], ◌∷◌, ◌++◌,
  arith, Bytes, All, All-append, ltb, Bool-cases, ltb→lt, ltb→le, le→ltb, lt→ltb,
}
use redvector.Decimal.{digits, to_string}

pub digits_small : (f n : ℕ) → n < 10 → digits (suc f) n ≡ (48 + n) ∷ []
unfolding digits
digits_small f n h = rw (lt→ltb n 10 h, digits)

pub digits_step : (f n : ℕ) → 10 ≤ n → digits (suc f) n ≡ digits f (n / 10) ++ (48 + n % 10) ∷ []
unfolding digits
digits_step f n h = rw (le→ltb n 10 h, digits)

-- Any fuel above the number gives the same digits.
pub digits_fuel : (f g n : ℕ) → n < f → n < g → digits f n ≡ digits g n
digits_fuel zero g n hf hg = elim hf [ ]
digits_fuel (suc f) zero n hf hg = elim hg [ ]
digits_fuel (suc f) (suc g) n hf hg = elim (Bool-cases (ltb n 10)) [
  | inl small ↦
      let lt : n < 10 = ltb→lt n 10 small in digits_small f n lt ∙ sym (digits_small g n lt)
  | inr big ↦
      let le : 10 ≤ n = ltb→le n 10 big in
      rw (digits_step f n le, digits_step g n le)
        (ap (λ s. s ++ (48 + n % 10) ∷ []) (digits_fuel f g (n / 10) (omega arith) (omega arith)))
]

-- One more digit at the end.
pub to_string-snoc :
    (n d : ℕ) → 0 < n → d < 10 → to_string (n * 10 + d) ≡ to_string n ++ (48 + d) ∷ []
unfolding to_string
to_string-snoc n d hn hd =
    let q : (n * 10 + d) / 10 ≡ n = omega arith in
    let r : (n * 10 + d) % 10 ≡ d = omega arith in
    digits_step (n * 10 + d) (n * 10 + d) (omega arith)
    ∙ rw (q, r)
        (ap (λ s. s ++ (48 + d) ∷ [])
          (digits_fuel (n * 10 + d) (suc n) n (omega arith) (omega arith)))

-- The text of a number: a digit first, which is 0 only for 0 itself.
pub record Shape (n : ℕ) (s : Bytes) : Type 0 where
  pub first : ℕ
  pub rest : Bytes
  pub split : s ≡ first ∷ rest
  pub low : 48 ≤ first
  pub high : first ≤ 57
  pub leading : first ≡ 48 → n ≡ 0
  pub alone : n ≡ 0 → rest ≡ []

digits-Shape : (f n : ℕ) → n < f → Shape n (digits f n)
digits-Shape zero n h = elim h [ ]
digits-Shape (suc f) n h = elim (Bool-cases (ltb n 10)) [
  | inl small ↦
      let lt : n < 10 = ltb→lt n 10 small in
      record {
        first = 48 + n;
        rest = [];
        split = digits_small f n lt;
        low = omega arith;
        high = omega arith;
        leading = λ e. omega arith;
        alone = λ e. refl;
      }
  | inr big ↦
      let le : 10 ≤ n = ltb→le n 10 big in
      let inner = digits-Shape f (n / 10) (omega arith) in
      record {
        first = inner.first;
        rest = inner.rest ++ (48 + n % 10) ∷ [];
        split = digits_step f n le ∙ ap (λ s. s ++ (48 + n % 10) ∷ []) inner.split;
        low = inner.low;
        high = inner.high;
        leading = λ e. absurd (omega (arith, inner.leading e));
        alone = λ e. absurd (omega arith);
      }
]

pub to_string-Shape : (n : ℕ) → Shape n (to_string n)
unfolding to_string
to_string-Shape n = digits-Shape (suc n) n (omega arith)

digits-ascii : (f n : ℕ) → n < f → All (λ b. b < 128) (digits f n)
digits-ascii zero n h = elim h [ ]
digits-ascii (suc f) n h = elim (Bool-cases (ltb n 10)) [
  | inl small ↦ let lt : n < 10 = ltb→lt n 10 small in rw (digits_small f n lt) (omega arith, tt)
  | inr big ↦
      let le : 10 ≤ n = ltb→le n 10 big in
      rw (digits_step f n le) (
        All-append (λ b. b < 128) (digits f (n / 10)) _ (digits-ascii f (n / 10) (omega arith))
          (omega arith, tt))
]

pub to_string-ascii : (n : ℕ) → All (λ b. b < 128) (to_string n)
unfolding to_string
to_string-ascii n = digits-ascii (suc n) n (omega arith)

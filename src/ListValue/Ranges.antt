-- ===== src/ListValue/Ranges.antt =====
-- Which elements `lrange` and `ltrim` select, against a description by signed positions.
use redvector.Base.{
  ℕ, suc, ◌+◌, ◌-◌, ◌≤◌, ◌<◌, max, ◌≡◌, refl, sym, ◌∙◌, ◌&&◌, Option, none, some, List, [], ◌∷◌, ℤ,
  pos, negsuc, ◌+ℤ◌, leb_ℤ, ltb, leb, if◌then◌else◌, length, take, drop, arith, take_nil, drop_nil,
  length-drop, take_all, drop_all, inl, inr, Bool-cases, ltb→lt, ltb→le,
}
use redvector.Dbutil.{normalize_position}
use redvector.Dbutil.Position.{normalize_position-pos, normalize_position-negsuc}
use redvector.ListValue.{range_start, range_stop}

-- The position that an argument names: a negative one counts from the end.
abbrev pub resolve : ℤ → ℕ → ℤ
resolve (pos n) len = pos n
resolve (negsuc n) len = negsuc n +ℤ pos len

resolve_inside : (n len : ℕ) → n < len → resolve (negsuc n) len ≡ pos (len - suc n)
unfolding ◌+ℤ◌
resolve_inside n len h = ground arith

resolve_before : (n len : ℕ) → len ≤ n → resolve (negsuc n) len ≡ negsuc (n - len)
unfolding ◌+ℤ◌
resolve_before n len h = ground arith

module _ {A : Type 0} where
  -- The elements whose position lies between `lo` and `hi`, both included; the first stands at `i`.
  unfoldable pub between : ℕ → ℤ → ℤ → List A → List A
  between i lo hi [] = []
  between i lo hi (x ∷ xs) =
      let rest = between (i + 1) lo hi xs in
      if leb_ℤ lo (pos i) && leb_ℤ (pos i) hi then x ∷ rest else rest

  between_lem :
      (i a b : ℕ) (xs : List A)
      → between i (pos a) (pos b) xs ≡ take (suc b - max i a) (drop (a - i) xs)
  unfolding between
  between_lem i a b [] = rw drop_nil (sym (take_nil (suc b - max i a)))
  between_lem i a b (x ∷ xs) = elim (Bool-cases (ltb i a)) [
    | inl before ↦
        let d : a - i ≡ suc (a - (i + 1)) = ground arith in
        let m : max i a ≡ max (i + 1) a = ground arith in
        rw (d, m) (ground (arith, between_lem (i + 1) a b xs))
    | inr from ↦
        let d : a - i ≡ 0 = ground arith in
        let d' : a - (i + 1) ≡ 0 = ground arith in
        let m : max i a ≡ i = ground arith in
        let m' : max (i + 1) a ≡ i + 1 = ground arith in
        elim (Bool-cases (leb i b)) [
          | inl inside ↦
              let t : suc b - i ≡ suc (suc b - (i + 1)) = ground arith in
              let ih : between (i + 1) (pos a) (pos b) xs ≡ take (suc b - (i + 1)) xs =
                rw (m', d') at (between_lem (i + 1) a b xs) in
              rw (d, m, t) (ground (arith, ih))
          | inr past ↦
              let t : suc b - i ≡ 0 = ground arith in
              let t' : suc b - (i + 1) ≡ 0 = ground arith in
              let ih : between (i + 1) (pos a) (pos b) xs ≡ [] =
                rw (m', d', t') at (between_lem (i + 1) a b xs) in
              rw (d, m, t) (ground (arith, ih))
        ]
  ]

  -- A window that starts before the sequence starts with it; one that ends before it is empty.
  between-negsuc_lo :
      (i n : ℕ) (hi : ℤ) (xs : List A) → between i (negsuc n) hi xs ≡ between i (pos 0) hi xs
  unfolding between
  between-negsuc_lo i n hi [] = refl
  between-negsuc_lo i n hi (x ∷ xs) = ground (arith, between-negsuc_lo (i + 1) n hi xs)

  between-negsuc_hi : (i n : ℕ) (lo : ℤ) (xs : List A) → between i lo (negsuc n) xs ≡ []
  unfolding between
  between-negsuc_hi i n lo [] = refl
  between-negsuc_hi i n lo (x ∷ xs) = ground (arith, between-negsuc_hi (i + 1) n lo xs)

  between_window :
      (a b : ℕ) (xs : List A) → between 0 (pos a) (pos b) xs ≡ take (suc b - a) (drop a xs)
  between_window a b xs =
      let m : max 0 a ≡ a = ground arith in
      let d : a - 0 ≡ a = ground arith in rw (between_lem 0 a b xs, m, d)

  between_past : (n : ℕ) (hi : ℤ) (xs : List A) → length xs ≤ n → between 0 (pos n) hi xs ≡ []
  between_past n (pos b) xs h = rw (between_window n b xs, drop_all n xs h) (take_nil (suc b - n))
  between_past n (negsuc b) xs h = between-negsuc_hi 0 b (pos n) xs

  -- What `range_start` makes of an argument, and the window that begins there.
  abbrev pub Starts : List A → ℤ → Option ℕ → Type 0
  Starts xs s none = (hi : ℤ) → between 0 (resolve s (length xs)) hi xs ≡ []
  Starts xs s (some a) =
      (hi : ℤ) → between 0 (resolve s (length xs)) hi xs ≡ between 0 (pos a) hi xs

  pub start_lem :
      (xs : List A) (s : ℤ) → Starts xs s (range_start (normalize_position s (length xs)))
  start_lem xs (pos n) = elim (Bool-cases (ltb n (length xs))) [
    | inl inside ↦ rw (normalize_position-pos n (length xs), inside) (λ hi. refl)
    | inr past ↦
        rw (normalize_position-pos n (length xs), past)
          (λ hi. between_past n hi xs (ltb→le n (length xs) past))
  ]
  start_lem xs (negsuc n) = elim (Bool-cases (ltb n (length xs))) [
    | inl inside ↦
        rw (normalize_position-negsuc n (length xs), inside)
          (λ hi. rw (resolve_inside n (length xs) (ltb→lt n (length xs) inside)))
    | inr before ↦
        rw (normalize_position-negsuc n (length xs), before)
          (λ hi.
            rw (resolve_before n (length xs) (ltb→le n (length xs) before))
              (between-negsuc_lo 0 (n - length xs) hi xs))
  ]

  -- The same for the stop, where `last` is any index that is not before the last element.
  abbrev pub Stops : List A → ℤ → Option ℕ → Type 0
  Stops xs t none = (a : ℕ) → between 0 (pos a) (resolve t (length xs)) xs ≡ []
  Stops xs t (some b) =
      (a : ℕ) → between 0 (pos a) (resolve t (length xs)) xs ≡ take (suc b - a) (drop a xs)

  take_enough :
      (a b c : ℕ) (xs : List A)
      → length xs ≤ suc b
      → length xs ≤ suc c
      → take (suc b - a) (drop a xs) ≡ take (suc c - a) (drop a xs)
  take_enough a b c xs hb hc =
      take_all (suc b - a) (drop a xs) (omega (arith, length-drop a xs))
      ∙ sym (take_all (suc c - a) (drop a xs) (omega (arith, length-drop a xs)))

  pub stop_lem :
      (xs : List A) (t : ℤ) (last : ℕ)
      → length xs ≤ suc last
      → Stops xs t (range_stop last (normalize_position t (length xs)))
  stop_lem xs (pos n) last h = elim (Bool-cases (ltb n (length xs))) [
    | inl inside ↦ rw (normalize_position-pos n (length xs), inside) (λ a. between_window a n xs)
    | inr past ↦
        let le : length xs ≤ n = ltb→le n (length xs) past in
        rw (normalize_position-pos n (length xs), past)
          (λ a. between_window a n xs ∙ take_enough a n last xs (omega arith) h)
  ]
  stop_lem xs (negsuc n) last h = elim (Bool-cases (ltb n (length xs))) [
    | inl inside ↦
        rw (normalize_position-negsuc n (length xs), inside)
          (λ a.
            rw (resolve_inside n (length xs) (ltb→lt n (length xs) inside))
              (between_window a (length xs - suc n) xs))
    | inr before ↦
        rw (normalize_position-negsuc n (length xs), before)
          (λ a.
            rw (resolve_before n (length xs) (ltb→le n (length xs) before))
              (between-negsuc_hi 0 (n - length xs) (pos a) xs))
  ]

-- ===== src/StringValue/Reads.antt =====
-- `getrange` against the window of positions that it is asked for.
use redvector.Base.{
  ℕ, suc, refl, ◌-◌, ◌≤◌, ◌<◌, ◌^◌, ◌≡◌, sym, ap, ◌∙◌, none, some, [], ◌∷◌, Bytes, Result, ok, err,
  Bool, true, false, returns, ℤ, length, take, drop, arith, add_usize, sub_usize, inl, inr,
  Option-cases, Bool-cases, ltb, if◌then◌else◌, ◌⊎◌,
}
use redvector.Dbutil.{normalize_position}
use redvector.ListValue.{range_start, range_stop}
use redvector.ListValue.Ranges.{resolve, between, start_lem, stop_lem, Starts, Stops}
use redvector.StringValue.{ValueString, to_vec, getrange, getrange_start, getrange_stop, slice}

same_start : (r : Result ℕ Bool) → getrange_start r ≡ range_start r
same_start (ok i) = λ _. some i
same_start (err false) = λ _. some 0
same_start (err true) = λ _. none

same_stop : (len : ℕ) (r : Result ℕ Bool) → getrange_stop len r ≡ range_stop (sub_usize len 1) r
same_stop len (ok i) = λ _. some i
same_stop len (err false) = λ _. none
same_stop len (err true) = λ _. some (sub_usize len 1)

start_inside :
    (p : ℤ) (len a : ℕ) → range_start (normalize_position p len) ≡ some a → (a < len) ⊎ (a ≡ 0)
unfolding normalize_position
start_inside p len a e = ground arith

stop_inside :
    (p : ℤ) (len b : ℕ)
    → range_stop (sub_usize len 1) (normalize_position p len) ≡ some b
    → (b < len) ⊎ (b ≡ sub_usize len 1)
unfolding normalize_position
stop_inside p len b e = ground arith

cut_lem :
    (s : Bytes) (a b : ℕ)
    → length s < 2 ^ 63
    → (a < length s) ⊎ (a ≡ 0)
    → (b < length s) ⊎ (b ≡ sub_usize (length s) 1)
    → (if ltb b a then returns [] else slice s a (add_usize b 1))
      ≡ returns (take (suc b - a) (drop a s))
cut_lem [] a b short ha hb =
    let z : a ≡ 0 = ground arith in let m : b ≡ 2 ^ 64 - 1 = ground arith in rw (z, m) refl
cut_lem (c ∷ s) a b short ha hb =
    let inside : b < suc (length s) = ground arith in
    let next : add_usize b 1 ≡ suc b = omega arith in
    elim (Bool-cases (ltb b a)) [
      | inl e ↦ let z : suc b - a ≡ 0 = ground arith in rw (e, z) refl
      | inr e ↦ rw (e, next) (ground arith)
    ]

-- `getrange` never panics: on a value whose text is shorter than 2^63 bytes it returns the bytes
-- whose positions lie in the range, both ends included, and nothing where the range is reversed.
pub getrange-between :
    (v : ValueString) (s t : ℤ)
    → length (to_vec v) < 2 ^ 63
    → getrange v s t
      ≡ returns
          (between 0 (resolve s (length (to_vec v))) (resolve t (length (to_vec v))) (to_vec v))
unfolding getrange
getrange-between v s t short =
    let xs = to_vec v in
    let len = length xs in
    let last = sub_usize len 1 in
    let enough : len ≤ suc last = omega arith in
    let starts_as = same_start (normalize_position s len) in
    let stops_as = same_stop len (normalize_position t len) in
    elim (Option-cases (range_start (normalize_position s len))) [
      | inl e ↦
          let none_starts : Starts xs s none = rw e at (start_lem xs s) in
          rw (getrange, starts_as ∙ e) (ap returns (sym (none_starts (resolve t len))))
      | inr (a, e) ↦
          let starts : Starts xs s (some a) = rw e at (start_lem xs s) in
          elim (Option-cases (range_stop last (normalize_position t len))) [
            | inl f ↦
                let none_stops : Stops xs t none = rw f at (stop_lem xs t last enough) in
                rw (getrange, starts_as ∙ e, stops_as ∙ f)
                  (ap returns (sym (starts (resolve t len) ∙ none_stops a)))
            | inr (b, f) ↦
                let stops : Stops xs t (some b) = rw f at (stop_lem xs t last enough) in
                rw (getrange, starts_as ∙ e, stops_as ∙ f)
                  (cut_lem xs a b short (start_inside s len a e) (stop_inside t len b f)
                    ∙ ap returns (sym (starts (resolve t len) ∙ stops a)))
          ]
    ]

-- ===== src/StringValue/Writes.antt =====
-- What `setrange` writes and what `setbit` and `getbit` agree on.
use redvector.Base.{
  ℕ, zero, suc, ◌+◌, ◌-◌, ◌≤◌, ◌≡◌, refl, ◌∙◌, ap, sym, [], ◌∷◌, ◌++◌, append-nil, Bytes, length,
  length-append, length-replicate, drop_nil, drop_all, take, drop, replicate, arith, ltb,
  Bool-cases, inl, inr,
}
use redvector.StringValue.{ValueString, data_, to_vec, setrange, put, put_all, pad}

put_all_behind :
    (b : ℕ) (d : Bytes) (index : ℕ) (cs : Bytes)
    → put_all (b ∷ d) (suc index) cs ≡ b ∷ put_all d index cs
unfolding put_all
put_all_behind b d index [] = refl
put_all_behind b d index (c ∷ cs) =
    let one : put (b ∷ d) (suc index) c ≡ b ∷ put d index c = ground arith in
    let e : suc index + 1 ≡ suc (index + 1) = omega arith in
    rw (one, e) (put_all_behind b (put d index c) (index + 1) cs)

put_all_front : (d cs : Bytes) → put_all d 0 cs ≡ cs ++ drop (length cs) d
unfolding put_all
put_all_front d [] = refl
put_all_front [] (c ∷ cs) =
    put_all_behind c [] 0 cs
    ∙ ap (λ r. c ∷ r) (put_all_front [] cs ∙ ap (λ r. cs ++ r) (drop_nil (length cs)))
put_all_front (b ∷ d) (c ∷ cs) =
    let whole : put_all (put (b ∷ d) 0 c) (0 + 1) cs ≡ put_all (c ∷ d) 1 cs =
      ap (λ r. put_all r 1 cs) (ground arith) in
    whole ∙ put_all_behind c d 0 cs ∙ ap (λ r. c ∷ r) (put_all_front d cs)

put_all_lem :
    (d : Bytes) (index : ℕ) (cs : Bytes)
    → index ≤ length d
    → put_all d index cs ≡ take index d ++ (cs ++ drop (index + length cs) d)
put_all_lem d zero cs h =
    let e : 0 + length cs ≡ length cs = omega arith in rw e (put_all_front d cs)
put_all_lem [] (suc i) cs h = absurd (omega arith)
put_all_lem (b ∷ d) (suc i) cs h =
    let e : suc i + length cs ≡ suc (i + length cs) = omega arith in
    rw (e, put_all_behind b d i cs, put_all_lem d i cs (omega arith))

drop-pad : (n m : ℕ) (d : Bytes) → m ≤ n → drop n (pad d m) ≡ drop n d
drop-pad n m d h = elim (Bool-cases (ltb (length d) m)) [
  | inl short ↦
      let le : length (pad d m) ≤ n = ground (
        arith,
        length-append d (replicate (m - length d) 0),
        length-replicate {A = ℕ} (m - length d) 0,
      ) in
      drop_all n (pad d m) le ∙ sym (drop_all n d (ground arith))
  | inr long ↦ let z : m - length d ≡ 0 = ground arith in rw z (ap (λ r. drop n r) (append-nil d))
]

-- `setrange` with any bytes at all: the value with zero bytes behind it up to the index, then the
-- new bytes, then what the value had behind those; and the length of that.
pub setrange_lem :
    (v : ValueString) (index c : ℕ) (cs : Bytes)
    → let new_bytes = c ∷ cs in
      let after =
        take index (pad (to_vec v) index)
        ++ (new_bytes ++ drop (index + length new_bytes) (to_vec v)) in
      setrange v index new_bytes ≡ (data_ after, length after)
unfolding setrange
setrange_lem v index c cs =
    let d = pad (to_vec v) index in
    let long : index ≤ length d = omega (
      arith,
      length-append (to_vec v) (replicate (index - length (to_vec v)) 0),
      length-replicate {A = ℕ} (index - length (to_vec v)) 0,
    ) in
    let e =
      put_all_lem d index (c ∷ cs) long
      ∙ ap (λ r. take index d ++ (c ∷ cs ++ r))
          (drop-pad (index + suc (length cs)) index (to_vec v) (omega arith)) in
    ap {B = ValueString × ℕ} (λ (r : Bytes). (data_ r, length r)) e

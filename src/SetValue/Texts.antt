-- ===== src/SetValue/Texts.antt =====
-- Numbers in a set value and their texts: an intset and the data set that it turns into. A text
-- with a plus sign in front is left aside: it is read as the number behind the sign.
use redvector.Base.{
  ℕ, ◌+◌, ◌≤◌, ◌≡◌, ◌≢◌, refl, sym, ◌∙◌, ap, some, ◌*◌, ◌-◌, Bool, true, false, List, [], ◌∷◌, map,
  Bytes, ok, err, Result, eq_bytes, eq_bytes_iff, ==_iff, All, ◌==◌, length-map, Bool-cases, inl,
  inr, ◌⊎◌, arith,
}
use redvector.Decimal.{max_usize, parse_digits, parse_unsigned, parse_usize}
use redvector.Decimal.Canonical.{parse_digits-cons}
use redvector.Decimal.Digits.{to_string-Shape}
use redvector.Dbutil.{OperationError, usize_to_vec, vec_to_usize}
use redvector.Dbutil.Numbers.{vec_to_usize-usize_to_vec, usize_to_vec-vec_to_usize}
use redvector.SetValue.{
  ValueSet, integer, data_, contains, insert, collect, texts, sismember, scard, make_data,
}
use redvector.SetValue.Contents.{Unique, collect-Unique}

abbrev pub IsUsize : ℕ → Type 0
IsUsize n = n ≤ max_usize

-- Every element once, and the numbers of an intset fit in a usize.
abbrev pub IsValid : ValueSet → Type 0
IsValid (integer set) = Unique ◌==◌ ==_iff set × All IsUsize set
IsValid (data_ set) = Unique eq_bytes eq_bytes_iff set

abbrev pub NoPlus : Bytes → Type 0
NoPlus el = (t : Bytes) → el ≢ b'+' ∷ t

abbrev pub holds_number : Result ℕ OperationError → List ℕ → Bool
holds_number (ok v) set = contains ◌==◌ v set
holds_number (err e) set = false

pub Result-cases :
    (r : Result ℕ OperationError) → ((n : ℕ) × (r ≡ ok n)) ⊎ ((e : OperationError) × (r ≡ err e))
Result-cases (ok n) = inl (n, refl)
Result-cases (err e) = inr (e, refl)

pub eq-text :
    (x : Bytes) (n : ℕ)
    → NoPlus x
    → IsUsize n
    → eq_bytes x (usize_to_vec n) ≡ holds_number (vec_to_usize x) (n ∷ [])
eq-text x n plain u =
    let back = vec_to_usize-usize_to_vec n u in
    let reads : eq_bytes x (usize_to_vec n) ≡ true → vec_to_usize x ≡ ok n =
      λ e. rw ((eq_bytes_iff x (usize_to_vec n)).0 e) back in
    elim (Result-cases (vec_to_usize x)) [
      | inr (e, r) ↦ elim (Bool-cases (eq_bytes x (usize_to_vec n))) [
        | inr f ↦ rw r f
        | inl f ↦ absurd (cc (r, reads f))
      ]
      | inl (v, r) ↦
          let text = usize_to_vec-vec_to_usize x v plain r in
          elim (Bool-cases (v == n)) [
            | inl f ↦
                let same : v ≡ n = (==_iff v n).0 f in
                rw (r, f) ((eq_bytes_iff x (usize_to_vec n)).1 (sym text ∙ ap usize_to_vec same))
            | inr f ↦ elim (Bool-cases (eq_bytes x (usize_to_vec n))) [
              | inr g ↦ rw (r, f) g
              | inl g ↦ let same : v ≡ n = cc (r, reads g) in absurd (cc (f, (==_iff v n).1 same))
            ]
          ]
    ]

pub contains-texts :
    (x : Bytes) (set : List ℕ)
    → NoPlus x
    → All IsUsize set
    → contains eq_bytes x (map usize_to_vec set) ≡ holds_number (vec_to_usize x) set
contains-texts x [] plain u = elim (Result-cases (vec_to_usize x)) [
  | inl (v, r) ↦ rw r refl
  | inr (e, r) ↦ rw r refl
]
contains-texts x (n ∷ set) plain u =
    let first = eq-text x n plain u.0 in
    let others = contains-texts x set plain u.1 in
    elim (Result-cases (vec_to_usize x)) [
      | inr (e, r) ↦ rw (first, others, r) refl
      | inl (v, r) ↦ elim (Bool-cases (v == n)) [
        | inl f ↦ rw (first, others, r, f) refl
        | inr f ↦ rw (first, others, r, f) refl
      ]
    ]

text-NoPlus : (n : ℕ) → NoPlus (usize_to_vec n)
unfolding usize_to_vec
text-NoPlus n t e = let shape = to_string-Shape n in ground (arith, shape.split, shape.low, e)

-- The texts of distinct numbers are distinct.
texts_lem :
    (set : List ℕ)
    → Unique ◌==◌ ==_iff set
    → All IsUsize set
    → collect eq_bytes (map usize_to_vec set) ≡ map usize_to_vec set
texts_lem [] u b = refl
texts_lem (n ∷ set) u b =
    let rest = texts_lem set u.1 b.1 in
    let absent : contains eq_bytes (usize_to_vec n) (map usize_to_vec set) ≡ false =
      contains-texts (usize_to_vec n) set (text-NoPlus n) b.1
      ∙ rw (vec_to_usize-usize_to_vec n b.0) u.0 in
    ap (λ r. (insert eq_bytes (usize_to_vec n) r).0) rest ∙ rw absent refl

pub sismember-integer :
    (set : List ℕ) (x : Bytes) → sismember (integer set) x ≡ holds_number (vec_to_usize x) set
unfolding sismember
sismember-integer set x = elim (Result-cases (vec_to_usize x)) [
  | inl (v, r) ↦ rw (sismember, r) refl
  | inr (e, r) ↦ rw (sismember, r) refl
]

-- Turning an intset into a data set changes neither what it contains nor how much, for texts
-- without a plus sign in front, and keeps it valid.
pub make_data_lem :
    (s : ValueSet)
    → IsValid s
    → IsValid (make_data s)
      × ((x : Bytes) → NoPlus x → sismember (make_data s) x ≡ sismember s x)
      × (scard (make_data s) ≡ scard s)
unfolding make_data sismember texts
make_data_lem (data_ set) v = (v, λ x p. refl, refl)
make_data_lem (integer set) v =
    let same = texts_lem set v.0 v.1 in
    (
      collect-Unique eq_bytes eq_bytes_iff (map usize_to_vec set),
      λ x p. rw same (contains-texts x set p v.1 ∙ sym (sismember-integer set x)),
      rw same (length-map set usize_to_vec),
    )

parse_digits-bound :
    (top acc : ℕ) (s : Bytes) (n : ℕ) → acc ≤ top → parse_digits top acc s ≡ some n → n ≤ top
unfolding parse_digits
parse_digits-bound top acc [] n h e = ground arith
parse_digits-bound top acc (c ∷ s) n h e =
    let step = parse_digits-cons top acc c s n e in
    parse_digits-bound top (acc * 10 + (c - 48)) s n step.2 step.3

pub vec_to_usize-IsUsize : (x : Bytes) (v : ℕ) → vec_to_usize x ≡ ok v → IsUsize v
unfolding vec_to_usize parse_usize parse_unsigned
vec_to_usize-IsUsize [] v h = absurd (ground arith)
vec_to_usize-IsUsize (c ∷ []) v h =
    ground (arith, parse_digits-bound max_usize 0 (c ∷ []) v (omega arith))
vec_to_usize-IsUsize (c ∷ d ∷ s) v h = ground (
  arith,
  parse_digits-bound max_usize 0 (d ∷ s) v (omega arith),
  parse_digits-bound max_usize 0 (c ∷ d ∷ s) v (omega arith),
)

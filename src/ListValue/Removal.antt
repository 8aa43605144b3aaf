-- ===== src/ListValue/Removal.antt =====
-- `lrem` against a description: the first matches, from either side, up to a budget.
use mathlib.Core.List.{reverse-cons}
use redvector.Base.{
  ℕ, zero, suc, ◌+◌, ◌≤◌, min, ◌≡◌, refl, sym, ap₂, ◌∙◌, true, false, [], ◌∷◌, ◌++◌, reverse,
  append-nil, append_assoc, Bytes, ◌==◌, if◌then◌else◌, length, eq_bytes, arith,
}
use redvector.ListValue.{ValueList, lrem, lrem_left, lrem_right, goes_on}
use redvector.ListValue.Ends.{length-reverse}

-- The list without its first `budget` occurrences of the value.
pub without : ℕ → Bytes → ValueList → ValueList
without zero value list = list
without (suc budget) value [] = []
without (suc budget) value (x ∷ list) =
    if eq_bytes x value then without budget value list else x ∷ without (suc budget) value list

pub occurrences : Bytes → ValueList → ℕ
occurrences value [] = 0
occurrences value (x ∷ list) =
    let rest = occurrences value list in if eq_bytes x value then suc rest else rest

-- A limit of 0 is no limit: a list has at most as many matches as elements.
abbrev pub budget_of : ℕ → ValueList → ℕ
budget_of limit list = if limit == 0 then length list else limit

occurrences-le : (value : Bytes) (list : ValueList) → occurrences value list ≤ length list
unfolding occurrences
occurrences-le value [] = omega arith
occurrences-le value (x ∷ list) = ground (arith, occurrences-le value list)

occurrences-append :
    (value : Bytes) (xs ys : ValueList)
    → occurrences value (xs ++ ys) ≡ occurrences value xs + occurrences value ys
unfolding occurrences
occurrences-append value [] ys = omega arith
occurrences-append value (x ∷ xs) ys = ground (arith, occurrences-append value xs ys)

occurrences-reverse :
    (value : Bytes) (list : ValueList) → occurrences value (reverse list) ≡ occurrences value list
unfolding occurrences
occurrences-reverse value [] = refl
occurrences-reverse value (x ∷ list) =
    rw (reverse-cons x list, occurrences-append value (reverse list) (x ∷ []))
      (ground (arith, occurrences-reverse value list))

-- What a loop returns: the list it built and the number of matches it dropped.
abbrev removed : ValueList → ℕ → ValueList × ℕ
removed list count = (list, count)

-- How many rounds may still drop an element: with no limit, any number that reaches the end.
abbrev Budget : ℕ → ℕ → ℕ → ValueList → Type 0
Budget zero count budget list = length list ≤ budget
Budget (suc limit) count budget list = suc limit ≡ count + budget

Budget-miss :
    (limit count budget : ℕ) (x : Bytes) (list : ValueList)
    → Budget limit count budget (x ∷ list)
    → Budget limit count budget list
Budget-miss zero count budget x list b = omega arith
Budget-miss (suc limit) count budget x list b = b

Budget-hit :
    (limit count budget : ℕ) (x : Bytes) (list : ValueList)
    → Budget limit count (suc budget) (x ∷ list)
    → Budget limit (count + 1) budget list
Budget-hit zero count budget x list b = omega arith
Budget-hit (suc limit) count budget x list b = omega arith

goes_on-suc :
    (limit count budget : ℕ) (x : Bytes) (list : ValueList)
    → Budget limit count (suc budget) (x ∷ list)
    → goes_on limit count ≡ true
goes_on-suc zero count budget x list b = refl
goes_on-suc (suc limit) count budget x list b = ground arith

goes_on-zero :
    (limit count : ℕ) (x : Bytes) (list : ValueList)
    → Budget limit count 0 (x ∷ list)
    → goes_on limit count ≡ false
goes_on-zero zero count x list b = absurd (omega arith)
goes_on-zero (suc limit) count x list b = ground arith

lrem_left_lem :
    (limit : ℕ) (value : Bytes) (count budget : ℕ) (list newlist : ValueList)
    → Budget limit count budget list
    → lrem_left limit value count list newlist
      ≡ removed (newlist ++ without budget value list) (count + min budget (occurrences value list))
unfolding lrem_left without occurrences
lrem_left_lem limit value count zero [] newlist b =
    ap₂ removed (sym (append-nil newlist)) (omega arith)
lrem_left_lem limit value count (suc budget) [] newlist b =
    ap₂ removed (sym (append-nil newlist)) (omega arith)
lrem_left_lem limit value count zero (x ∷ list) newlist b =
    ground (arith, goes_on-zero limit count x list b)
lrem_left_lem limit value count (suc budget) (x ∷ list) newlist b = ground (
  arith,
  goes_on-suc limit count budget x list b,
  lrem_left_lem limit value (count + 1) budget list newlist
      (Budget-hit limit count budget x list b),
  lrem_left_lem limit value count (suc budget) list (newlist ++ x ∷ [])
      (Budget-miss limit count (suc budget) x list b),
  append_assoc newlist (x ∷ []) (without (suc budget) value list),
)

lrem_right_lem :
    (limit : ℕ) (value : Bytes) (count budget : ℕ) (list newlist : ValueList)
    → Budget limit count budget list
    → lrem_right limit value count list newlist
      ≡ removed
          (reverse (without budget value list) ++ newlist)
          (count + min budget (occurrences value list))
unfolding lrem_right without occurrences
lrem_right_lem limit value count zero [] newlist b = ap₂ removed refl (omega arith)
lrem_right_lem limit value count (suc budget) [] newlist b = ap₂ removed refl (omega arith)
lrem_right_lem limit value count zero (x ∷ list) newlist b =
    ground (arith, goes_on-zero limit count x list b)
lrem_right_lem limit value count (suc budget) (x ∷ list) newlist b = ground (
  arith,
  goes_on-suc limit count budget x list b,
  lrem_right_lem limit value (count + 1) budget list newlist
      (Budget-hit limit count budget x list b),
  lrem_right_lem limit value count (suc budget) list (x ∷ newlist)
      (Budget-miss limit count (suc budget) x list b),
  reverse-cons x (without (suc budget) value list),
  append_assoc (reverse (without (suc budget) value list)) (x ∷ []) newlist,
)

budget_of-Budget :
    (limit : ℕ) (list xs : ValueList)
    → length xs ≡ length list
    → Budget limit 0 (budget_of limit list) xs
budget_of-Budget zero list xs e = omega arith
budget_of-Budget (suc limit) list xs e = ground arith

-- `lrem` removes the first matches from the asked side, all of them at limit 0 and otherwise at most
-- `limit`, keeps every other element in its order, and returns how many it removed.
pub lrem_lem :
    (list : ValueList) (limit : ℕ) (value : Bytes)
    → (lrem list true limit value ≡ (
      without (budget_of limit list) value list,
      min (budget_of limit list) (occurrences value list),
    ))
      × (lrem list false limit value ≡ (
        reverse (without (budget_of limit list) value (reverse list)),
        min (budget_of limit list) (occurrences value list),
      ))
unfolding lrem
lrem_lem list limit value =
    let budget = budget_of limit list in
    let back : Budget limit 0 budget (reverse list) =
      budget_of-Budget limit list (reverse list) (length-reverse list) in
    (
      lrem_left_lem limit value 0 budget list [] (budget_of-Budget limit list list refl)
          ∙ ap₂ removed refl (omega arith),
      lrem_right_lem limit value 0 budget (reverse list) [] back
          ∙ ap₂ removed (append-nil (reverse (without budget value (reverse list))))
              (omega (arith, occurrences-reverse value list)),
    )

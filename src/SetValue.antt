-- ===== src/SetValue.antt =====
-- database/src/set.rs: a set value, held as numbers where its members allow that. A `HashSet` is
-- the list of its elements in the order in which it iterates, each once. `srandmember` and `spop`
-- are told the positions that the source draws at random.
pub mod Contents
pub mod Texts
pub mod Members
pub mod Dump
mod Examples
use redvector.Base.{
  ℕ, zero, suc, ◌+◌, ◌*◌, ◌%◌, ◌/◌, ◌^◌, Bool, true, false, not, Option, none, some, List, [], ◌∷◌,
  ◌++◌, map, Bytes, Result, ok, err, Run, returns, panics, ltb, leb, ◌==◌, if◌then◌else◌, length,
  drop, get_elem?, eq_bytes,
}
use redvector.Dbutil.{OperationError, usize_to_vec, vec_to_usize}

module _ {A : Type 0} (eq : A → A → Bool) where
  abbrev pub contains : A → List A → Bool
  contains x [] = false
  contains x (y ∷ ys) = if eq x y then true else contains x ys

  -- The answer says whether the element is new.
  abbrev pub insert : A → List A → List A × Bool
  insert x set = if contains x set then (set, false) else (x ∷ set, true)

  abbrev pub without : A → List A → List A
  without x [] = []
  without x (y ∷ ys) = if eq x y then ys else y ∷ without x ys

  -- The answer says whether the element was there.
  abbrev pub remove : A → List A → List A × Bool
  remove x set = (without x set, contains x set)

  abbrev pub intersection : List A → List A → List A
  intersection [] other = []
  intersection (x ∷ xs) other =
      if contains x other then x ∷ intersection xs other else intersection xs other

  -- What `collect` makes of a sequence.
  abbrev pub collect : List A → List A
  collect [] = []
  collect (x ∷ xs) = (insert x (collect xs)).0

  -- `for el in other { set.remove(el) }`
  abbrev pub remove_all : List A → List A → List A
  remove_all set [] = set
  remove_all set (x ∷ xs) = remove_all (without x set) xs

  abbrev pub union : List A → List A → List A
  union set [] = set
  union set (x ∷ xs) = union (insert x set).0 xs

pub data ValueSet : Type 0 where
  integer : List ℕ → ValueSet
  data_ : List Bytes → ValueSet

abbrev pub new : ValueSet
new = integer []

-- The loop of `create_with_hashset`, which stops at the first element that is no number.
abbrev pub numbers_until : List Bytes → List ℕ → List ℕ
numbers_until [] s = s
numbers_until (v ∷ h) s = elim (vec_to_usize v) [
  | ok n ↦ numbers_until h (insert ◌==◌ n s).0
  | err _ ↦ s
]

unfoldable pub create_with_hashset : List Bytes → ValueSet
unfolding eq_bytes
create_with_hashset h =
    let s = numbers_until h [] in if length h == length s then integer s else data_ h

abbrev pub is_intset : ValueSet → Bool
is_intset (integer set) = true
is_intset (data_ set) = false

unfoldable pub texts : List ℕ → List Bytes
texts set = collect eq_bytes (map usize_to_vec set)

unfoldable pub make_data : ValueSet → ValueSet
unfolding texts
make_data (integer set) = data_ (texts set)
make_data (data_ set) = data_ set

abbrev pub sadd_data : List Bytes → Bytes → ValueSet × Bool
sadd_data set el = let (set', added) = insert eq_bytes el set in (data_ set', added)

abbrev pub sadd_integer : List ℕ → ℕ → ValueSet × Bool
sadd_integer set v = let (set', added) = insert ◌==◌ v set in (integer set', added)

-- The last line calls `sadd` again, on what is then a data set.
unfoldable pub sadd : ValueSet → Bytes → ℕ → ValueSet × Bool
unfolding texts
sadd (data_ set) el max_int_size = sadd_data set el
sadd (integer set) el max_int_size = elim (vec_to_usize el) [
  | err _ ↦ sadd_data (texts set) el
  | ok v ↦ if ltb (length set) max_int_size then sadd_integer set v else sadd_data (texts set) el
]

unfoldable pub srem : ValueSet → Bytes → ValueSet × Bool
srem (data_ set) el = (data_ (without eq_bytes el set), contains eq_bytes el set)
srem (integer set) el = elim (vec_to_usize el) [
  | ok v ↦ (integer (without ◌==◌ v set), contains ◌==◌ v set)
  | err _ ↦ (integer set, false)
]

unfoldable pub sismember : ValueSet → Bytes → Bool
sismember (data_ set) el = contains eq_bytes el set
sismember (integer set) el = elim (vec_to_usize el) [ ok v ↦ contains ◌==◌ v set | err _ ↦ false ]

abbrev pub scard : ValueSet → ℕ
scard (data_ set) = length set
scard (integer set) = length set

abbrev pub smembers : ValueSet → List Bytes
smembers (data_ set) = set
smembers (integer set) = map usize_to_vec set

-- The numbers among the elements of a data set.
abbrev pub numbers : List Bytes → List ℕ
numbers [] = []
numbers (x ∷ set) = elim (vec_to_usize x) [ ok v ↦ v ∷ numbers set | err _ ↦ numbers set ]

abbrev minus_data : List Bytes → List ValueSet → List Bytes
minus_data elements [] = elements
minus_data elements (integer set ∷ sets) =
    minus_data (remove_all eq_bytes elements (map usize_to_vec set)) sets
minus_data elements (data_ set ∷ sets) = minus_data (remove_all eq_bytes elements set) sets

abbrev minus_integer : List ℕ → List ValueSet → List ℕ
minus_integer elements [] = elements
minus_integer elements (integer set ∷ sets) = minus_integer (remove_all ◌==◌ elements set) sets
minus_integer elements (data_ set ∷ sets) =
    minus_integer (remove_all ◌==◌ elements (numbers set)) sets

unfoldable pub sdiff : ValueSet → List ValueSet → List Bytes
sdiff (data_ original_set) sets = minus_data original_set sets
sdiff (integer original_set) sets =
    collect eq_bytes (map usize_to_vec (minus_integer original_set sets))

-- A loop of `sinter` ends early where the result is empty, which it then stays.
abbrev meet_data : List Bytes → List ValueSet → List Bytes
meet_data result [] = result
meet_data [] (s ∷ sets) = []
meet_data (x ∷ result) (integer set ∷ sets) =
    meet_data (intersection eq_bytes (x ∷ result) (collect eq_bytes (map usize_to_vec set))) sets
meet_data (x ∷ result) (data_ set ∷ sets) = meet_data (intersection eq_bytes (x ∷ result) set) sets

abbrev meet_integer : List ℕ → List ValueSet → List ℕ
meet_integer result [] = result
meet_integer [] (s ∷ sets) = []
meet_integer (x ∷ result) (integer set ∷ sets) =
    meet_integer (intersection ◌==◌ (x ∷ result) set) sets
meet_integer (x ∷ result) (data_ set ∷ sets) =
    meet_integer (intersection ◌==◌ (x ∷ result) (collect ◌==◌ (numbers set))) sets

unfoldable pub sinter : ValueSet → List ValueSet → List Bytes
sinter (data_ original_set) sets = meet_data original_set sets
sinter (integer original_set) sets =
    collect eq_bytes (map usize_to_vec (meet_integer original_set sets))

abbrev join_data : List Bytes → List ValueSet → List Bytes
join_data result [] = result
join_data result (integer set ∷ sets) =
    join_data (union eq_bytes result (collect eq_bytes (map usize_to_vec set))) sets
join_data result (data_ set ∷ sets) = join_data (union eq_bytes result set) sets

unfoldable pub sunion : ValueSet → List ValueSet → List Bytes
sunion (data_ original_set) sets = join_data original_set sets
sunion (integer set) sets = join_data (collect eq_bytes (map usize_to_vec set)) sets

-- ===== src/Value/Examples.antt =====
-- Runs of the dispatch of database/src/lib.rs on concrete values.
use redvector.Base.{ℕ, ◌≡◌, refl, true, [], ◌∷◌, ok, err, codes, pos}
use redvector.Dbutil.{wrong_type_error}
use redvector.StringValue
use redvector.ListValue
use redvector.Value
use redvector.Value.{Value, nil, string, list}

-- Values in which sorted sets and Bloom filters are numbers.
abbrev Stored : Type 0
Stored = Value ℕ ℕ

abbrev nothing : Stored
nothing = nil

abbrev a_list : Stored
a_list = list (codes "a" ∷ [])

dispatched :
    (Value.push a_list (codes "b") true ≡ (list (codes "a" ∷ codes "b" ∷ []), ok 2))
    × (Value.append a_list (codes "b") ≡ (a_list, err wrong_type_error))
    × (Value.incr nothing (pos 3) ≡ (string (StringValue.integer (pos 3)), ok (pos 3)))
unfolding Value.push Value.append Value.incr ListValue.push
dispatched = (refl, refl, refl)

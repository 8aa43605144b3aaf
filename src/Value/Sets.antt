-- ===== src/Value/Sets.antt =====
-- `enum Value` of database/src/lib.rs: the operations on several sets.
use redvector.Base.{Bool, true, false, List, [], ◌∷◌, Bytes, Result, ok, err, ◌>>=◌}
use redvector.Dbutil.{OperationError, wrong_type_error}
use redvector.SetValue
use redvector.Value.{Value, nil, set_}

module _ {Z F : Type 0} where
  -- `get_set_list`, with its default.
  unfoldable pub get_set_list : List (Value Z F) → Result (List SetValue.ValueSet) OperationError
  get_set_list [] = ok []
  get_set_list (nil ∷ values) = get_set_list values >>= λ sets. ok (SetValue.new ∷ sets)
  get_set_list (set_ value ∷ values) = get_set_list values >>= λ sets. ok (value ∷ sets)
  get_set_list (_ ∷ values) = err wrong_type_error

  unfoldable pub sdiff : Value Z F → List (Value Z F) → Result (List Bytes) OperationError
  unfolding get_set_list
  sdiff nil set_values = ok []
  sdiff (set_ value) set_values = get_set_list set_values >>= λ sets. ok (SetValue.sdiff value sets)
  sdiff _ set_values = err wrong_type_error

  unfoldable pub sinter : Value Z F → List (Value Z F) → Result (List Bytes) OperationError
  unfolding get_set_list
  sinter nil set_values = ok []
  sinter (set_ value) set_values =
      get_set_list set_values >>= λ sets. ok (SetValue.sinter value sets)
  sinter _ set_values = err wrong_type_error

  -- The union with `self`, once the others are known to be sets.
  abbrev joined : Value Z F → List SetValue.ValueSet → Result (List Bytes) OperationError
  joined nil sets = ok (SetValue.sunion SetValue.new sets)
  joined (set_ value) sets = ok (SetValue.sunion value sets)
  joined _ sets = err wrong_type_error

  unfoldable pub sunion : Value Z F → List (Value Z F) → Result (List Bytes) OperationError
  unfolding get_set_list
  sunion v set_values = get_set_list set_values >>= joined v

  abbrev pub create_set : Value Z F → List Bytes → Value Z F
  create_set v elements = set_ (SetValue.create_with_hashset elements)

  abbrev pub is_set : Value Z F → Bool
  is_set (set_ value) = true
  is_set _ = false

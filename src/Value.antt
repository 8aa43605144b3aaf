-- ===== src/Value.antt =====
-- `enum Value` of database/src/lib.rs: the dispatch of the string, list and set operations to the
-- types of values. Sorted sets, `Z`, and Bloom filters, `F`, are taken as they are.
pub mod Sets
pub mod Hashes
pub mod Errors
mod Examples
use redvector.Base.{
  ℕ, Bool, true, false, Option, none, some, List, [], ◌∷◌, Bytes, Result, ok, err, Run, returns,
  panics, ℤ, length, ◌==◌,
}
use redvector.Dbutil.{OperationError, wrong_type_error, unknown_key_error}
use redvector.StringValue
use redvector.ListValue
use redvector.SetValue
use redvector.HashValue

pub data Value (Z F : Type 0) : Type 0 where
  nil : Value Z F
  string : StringValue.ValueString → Value Z F
  list : ListValue.ValueList → Value Z F
  set_ : SetValue.ValueSet → Value Z F
  sorted_set : Z → Value Z F
  hash : HashValue.ValueHash → Value Z F
  bloom : F → Value Z F

-- What the keyspace asks of the types that are taken as they are.
pub record Sizes (Z F : Type 0) : Type 0 where
  pub zcard : Z → ℕ
  pub insertions : F → ℕ

module _ {Z F : Type 0} where
  abbrev stored_string :
      {A : Type 0} → StringValue.ValueString × A → Value Z F × Result A OperationError
  stored_string (s, a) = (string s, ok a)

  abbrev stored_list : {A : Type 0} → ListValue.ValueList × A → Value Z F × Result A OperationError
  stored_list (l, a) = (list l, ok a)

  abbrev stored_set : {A : Type 0} → SetValue.ValueSet × A → Value Z F × Result A OperationError
  stored_set (s, a) = (set_ s, ok a)

  abbrev pub set : Value Z F → Bytes → Value Z F × Result (Unit {0}) OperationError
  set v newvalue = (string (StringValue.new newvalue), ok tt)

  abbrev pub get : Value Z F → Result Bytes OperationError
  get nil = ok []
  get (string value) = ok (StringValue.to_vec value)
  get _ = err wrong_type_error

  abbrev pub strlen : Value Z F → Result ℕ OperationError
  strlen nil = ok 0
  strlen (string val) = ok (StringValue.strlen val)
  strlen _ = err wrong_type_error

  unfoldable pub append : Value Z F → Bytes → Value Z F × Result ℕ OperationError
  append nil newvalue = (string (StringValue.new newvalue), ok (length newvalue))
  append (string val) newvalue =
      let val' = StringValue.append val newvalue in (string val', ok (StringValue.strlen val'))
  append v newvalue = (v, err wrong_type_error)

  unfoldable pub incr : Value Z F → ℤ → Value Z F × Result ℤ OperationError
  incr nil by = (string (StringValue.integer by), ok by)
  incr (string value) by =
      let (value', answer) = StringValue.incr value by in (string value', answer)
  incr v by = (v, err wrong_type_error)

  abbrev pub getrange : Value Z F → ℤ → ℤ → Result (Run Bytes) OperationError
  getrange nil start stop = ok (returns [])
  getrange (string value) start stop = ok (StringValue.getrange value start stop)
  getrange _ start stop = err wrong_type_error

  unfoldable pub setrange : Value Z F → ℕ → Bytes → Value Z F × Result ℕ OperationError
  setrange nil index bytes = stored_string (StringValue.setrange (StringValue.data_ []) index bytes)
  setrange (string value) index bytes = stored_string (StringValue.setrange value index bytes)
  setrange v index bytes = (v, err wrong_type_error)

  unfoldable pub setbit : Value Z F → ℕ → Bool → Value Z F × Result Bool OperationError
  setbit nil bitoffset on = stored_string (StringValue.setbit (StringValue.data_ []) bitoffset on)
  setbit (string value) bitoffset on = stored_string (StringValue.setbit value bitoffset on)
  setbit v bitoffset on = (v, err wrong_type_error)

  abbrev pub getbit : Value Z F → ℕ → Result Bool OperationError
  getbit nil bitoffset = ok false
  getbit (string value) bitoffset = ok (StringValue.getbit value bitoffset)
  getbit _ bitoffset = err wrong_type_error

  unfoldable pub push : Value Z F → Bytes → Bool → Value Z F × Result ℕ OperationError
  push nil el right = (list (ListValue.push ListValue.new el right), ok 1)
  push (list l) el right = let l' = ListValue.push l el right in (list l', ok (ListValue.llen l'))
  push v el right = (v, err wrong_type_error)

  unfoldable pub pop : Value Z F → Bool → Value Z F × Result (Option Bytes) OperationError
  pop nil right = (nil, ok none)
  pop (list l) right = stored_list (ListValue.pop l right)
  pop v right = (v, err wrong_type_error)

  abbrev pub lindex : Value Z F → ℤ → Result (Option Bytes) OperationError
  lindex (list value) index = ok (ListValue.lindex value index)
  lindex _ index = err wrong_type_error

  unfoldable pub linsert :
      Value Z F → Bool → Bytes → Bytes → Value Z F × Result (Option ℕ) OperationError
  linsert nil before pivot newvalue = (nil, ok none)
  linsert (list value) before pivot newvalue =
      stored_list (ListValue.linsert value before pivot newvalue)
  linsert v before pivot newvalue = (v, err wrong_type_error)

  abbrev pub llen : Value Z F → Result ℕ OperationError
  llen nil = ok 0
  llen (list value) = ok (ListValue.llen value)
  llen _ = err wrong_type_error

  abbrev pub lrange : Value Z F → ℤ → ℤ → Result (List Bytes) OperationError
  lrange nil start stop = ok []
  lrange (list value) start stop = ok (ListValue.lrange value start stop)
  lrange _ start stop = err wrong_type_error

  unfoldable pub lrem : Value Z F → Bool → ℕ → Bytes → Value Z F × Result ℕ OperationError
  lrem nil left limit newvalue = (nil, ok 0)
  lrem (list value) left limit newvalue = stored_list (ListValue.lrem value left limit newvalue)
  lrem v left limit newvalue = (v, err wrong_type_error)

  unfoldable pub lset : Value Z F → ℤ → Bytes → Value Z F × Result (Unit {0}) OperationError
  lset nil index newvalue = (nil, err unknown_key_error)
  lset (list value) index newvalue =
      let (value', answer) = ListValue.lset value index newvalue in (list value', answer)
  lset v index newvalue = (v, err wrong_type_error)

  abbrev trimmed : Run ListValue.ValueList → Run (Value Z F × Result (Unit {0}) OperationError)
  trimmed panics = panics
  trimmed (returns l) = returns (list l, ok tt)

  unfoldable pub ltrim : Value Z F → ℤ → ℤ → Run (Value Z F × Result (Unit {0}) OperationError)
  ltrim (list value) start stop = trimmed (ListValue.ltrim value start stop)
  ltrim v start stop = returns (v, err wrong_type_error)

  unfoldable pub sadd : Value Z F → Bytes → ℕ → Value Z F × Result Bool OperationError
  sadd nil el set_max_intset_entries =
      (set_ (SetValue.sadd SetValue.new el set_max_intset_entries).0, ok true)
  sadd (set_ value) el set_max_intset_entries =
      stored_set (SetValue.sadd value el set_max_intset_entries)
  sadd v el set_max_intset_entries = (v, err wrong_type_error)

  unfoldable pub srem : Value Z F → Bytes → Value Z F × Result Bool OperationError
  srem nil el = (nil, ok false)
  srem (set_ value) el = stored_set (SetValue.srem value el)
  srem v el = (v, err wrong_type_error)

  abbrev pub sismember : Value Z F → Bytes → Result Bool OperationError
  sismember nil el = ok false
  sismember (set_ value) el = ok (SetValue.sismember value el)
  sismember _ el = err wrong_type_error

  abbrev pub scard : Value Z F → Result ℕ OperationError
  scard nil = ok 0
  scard (set_ value) = ok (SetValue.scard value)
  scard _ = err wrong_type_error

  abbrev pub smembers : Value Z F → Result (List Bytes) OperationError
  smembers nil = ok []
  smembers (set_ value) = ok (SetValue.smembers value)
  smembers _ = err wrong_type_error

  unfoldable pub is_empty : ⦃sizes : Sizes Z F⦄ → Value Z F → Bool
  is_empty nil = true
  is_empty (string s) = false
  is_empty (list l) = ListValue.llen l == 0
  is_empty (set_ s) = SetValue.scard s == 0
  is_empty ⦃sizes⦄ (sorted_set s) = sizes.zcard s == 0
  is_empty (hash h) = HashValue.is_empty_hash h
  is_empty ⦃sizes⦄ (bloom b) = sizes.insertions b == 0

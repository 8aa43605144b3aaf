-- ===== src/Value/Errors.antt =====
-- An operation that answers an error leaves the value as it was.
use redvector.Base.{ℕ, Bool, Option, none, some, ◌≡◌, Bytes, Result, ok, err, ℤ, ◌⊎◌}
use redvector.Dbutil.{OperationError}
use redvector.StringValue
use redvector.ListValue
use redvector.Value
use redvector.Value.{Value, sorted_set, hash, bloom}

-- The operations that change a value, `ltrim` apart, which may panic.
pub data Operation : Type 0 where
  set : Bytes → Operation
  append : Bytes → Operation
  incr : ℤ → Operation
  setrange : ℕ → Bytes → Operation
  setbit : ℕ → Bool → Operation
  push : Bytes → Bool → Operation
  pop : Bool → Operation
  linsert : Bool → Bytes → Bytes → Operation
  lrem : Bool → ℕ → Bytes → Operation
  lset : ℤ → Bytes → Operation
  sadd : Bytes → ℕ → Operation
  srem : Bytes → Operation

abbrev failure : {A : Type 0} → Result A OperationError → Option OperationError
failure (ok a) = none
failure (err e) = some e

module _ {Z F : Type 0} where
  abbrev outcome :
      {A : Type 0} → Value Z F × Result A OperationError → Value Z F × Option OperationError
  outcome (v, answer) = (v, failure answer)

  -- What an operation leaves, and the error that it answers, if any.
  abbrev pub run : Operation → Value Z F → Value Z F × Option OperationError
  run (set b) v = outcome (Value.set v b)
  run (append b) v = outcome (Value.append v b)
  run (incr by) v = outcome (Value.incr v by)
  run (setrange i b) v = outcome (Value.setrange v i b)
  run (setbit i on) v = outcome (Value.setbit v i on)
  run (push b right) v = outcome (Value.push v b right)
  run (pop right) v = outcome (Value.pop v right)
  run (linsert before pivot b) v = outcome (Value.linsert v before pivot b)
  run (lrem left limit b) v = outcome (Value.lrem v left limit b)
  run (lset i b) v = outcome (Value.lset v i b)
  run (sadd b limit) v = outcome (Value.sadd v b limit)
  run (srem b) v = outcome (Value.srem v b)

  -- It succeeds, or it leaves the value as it was.
  abbrev pub IsAtomic : Operation → Value Z F → Type 0
  IsAtomic op v = ((run op v).1 ≡ none) ⊎ ((run op v).0 ≡ v)

-- ===== src/SetValue/Members.antt =====
-- A set value as a set of byte strings: what `sadd` and `srem` do to what `sismember` answers. A
-- text with a plus sign in front is left aside: it is read as the number behind the sign.
use redvector.Base.{suc, ◌≡◌, Bool, true, false, not, Bytes, eq_bytes, if◌then◌else◌}
use redvector.SetValue.{ValueSet, sismember, scard}
use redvector.SetValue.Texts.{IsValid, NoPlus}

-- The set value `s'` is `s` with `el`: `added` says whether that is new, and the count agrees.
pub record Added (s : ValueSet) (el : Bytes) (s' : ValueSet) (added : Bool) : Type 0 where
  pub valid : IsValid s'
  pub fresh : added ≡ not (sismember s el)
  pub member :
      (x : Bytes) → NoPlus x → sismember s' x ≡ (if eq_bytes x el then true else sismember s x)
  pub count : scard s' ≡ (if sismember s el then scard s else suc (scard s))

-- The set value `s'` is `s` without `el`: `removed` says whether that was in it.
pub record Removed (s : ValueSet) (el : Bytes) (s' : ValueSet) (removed : Bool) : Type 0 where
  pub valid : IsValid s'
  pub present : removed ≡ sismember s el
  pub member :
      (x : Bytes) → NoPlus x → sismember s' x ≡ (if eq_bytes x el then false else sismember s x)

-- ===== src/Command/Keeps.antt =====
-- What the handlers keep: a predicate on databases that the operations of the keyspace at a key
-- keep is kept by the handlers that work on that key.
pub mod Stable
pub mod Strings
pub mod Expiry
pub mod Lists
pub mod Sets
pub mod Hashes
pub mod Table
use redvector.Base.{
  ℕ, zero, suc, ◌+◌, ◌≡◌, refl, Bool, true, false, Option, none, some, Bytes, if◌then◌else◌, ℤ,
  length, ◌==◌, ltb,
}
use redvector.Base
use redvector.Dict.{lookup, is_some}
use redvector.Parser.{ParsedCommand, Parsed, get_vec, get_str}
use redvector.Parser
use redvector.Response.{Response}
use redvector.Value.{Value, Sizes}
use redvector.Keyspace.{Database, store}
use redvector.Keyspace
use redvector.Command.{
  Handler, Outcome, continues, replies, aborts, pure, reply, panic, gets, modify, call, ◌>>=◌, ◌>>◌,
  validate, try_validate, wrong_number, validate_arguments_exact, validate_arguments_gte, update,
  update_found, stored, for_,
}

either_way :
    {S A : Type 0} (P : S → Type 0) (b : Bool) (x y : Outcome A × S)
    → P x.1
    → P y.1
    → P (if b then x else y).1
either_way P true x y hx hy = hx
either_way P false x y hx hy = hy

-- `m` keeps `P`, however it ends.
pub record Keeps {S A : Type 0} (P : S → Type 0) (m : Handler S A) : Type 0 where
  pub at : (s : S) → P s → P (m s).1

module _ {S A : Type 0} {P : S → Type 0} where
  pub Keeps-pure : (result : A) → Keeps P (pure result)
  unfolding pure
  Keeps-pure result = record { at = λ before kept. kept }

  pub Keeps-panic : Keeps P (panic {A = A})
  unfolding panic
  Keeps-panic = record { at = λ before kept. kept }

  pub Keeps-call : (f : S → S × A) → ((s : S) → P s → P (f s).0) → Keeps P (call f)
  unfolding call
  Keeps-call f k = record { at = k }

  pub Keeps-reply : (r : Response) → Keeps P (reply {A = A} r)
  unfolding reply
  Keeps-reply r = record { at = λ before kept. kept }

  pub Keeps-gets : (read : S → A) → Keeps P (gets read)
  unfolding gets
  Keeps-gets read = record { at = λ before kept. kept }

  pub Keeps-try_validate : (r : Parsed A) (text : Bytes) → Keeps P (try_validate r text)
  unfolding try_validate
  Keeps-try_validate (Parser.ok a) text = Keeps-pure a
  Keeps-try_validate (Parser.err e) text = Keeps-reply _
  Keeps-try_validate Parser.panics text = Keeps-panic

  pub Keeps-if :
      (b : Bool) (m n : Handler S A) → Keeps P m → Keeps P n → Keeps P (if b then m else n)
  Keeps-if true m n km kn = km
  Keeps-if false m n km kn = kn

  -- The two ways may use how the test came out.
  pub Keeps-if_eq :
      (test : Bool) (this that : Handler S A)
      → (test ≡ true → Keeps P this)
      → (test ≡ false → Keeps P that)
      → Keeps P (if test then this else that)
  Keeps-if_eq true this that keeps_this keeps_that = keeps_this refl
  Keeps-if_eq false this that keeps_this keeps_that = keeps_that refl

  -- A test on the state itself.
  pub Keeps-branch :
      (b : S → Bool) (m n : Handler S A)
      → Keeps P m
      → Keeps P n
      → Keeps P (λ s. if b s then m s else n s)
  Keeps-branch b m n km kn = record {
    at = λ s h. either_way P (b s) (m s) (n s) (km.at s h) (kn.at s h);
  }

module _ {S : Type 0} {P : S → Type 0} where
  pub Keeps-modify : (f : S → S) → ((s : S) → P s → P (f s)) → Keeps P (modify f)
  unfolding modify
  Keeps-modify f k = record { at = k }

  pub Keeps-validate : (b : Bool) (text : Bytes) → Keeps P (validate b text)
  unfolding validate
  Keeps-validate b text = record { at = λ before kept. kept }

  wrong_number-Keeps : (name : Parsed Bytes) → Keeps P (wrong_number name)
  unfolding wrong_number
  wrong_number-Keeps (Parser.ok name) = Keeps-reply _
  wrong_number-Keeps (Parser.err e) = Keeps-panic
  wrong_number-Keeps Parser.panics = Keeps-panic

  pub Keeps-exact : (parser : ParsedCommand) (n : ℕ) → Keeps P (validate_arguments_exact parser n)
  unfolding validate_arguments_exact
  Keeps-exact parser n = Keeps-if _ _ _ (Keeps-pure tt) (wrong_number-Keeps (get_str parser 0))

  pub Keeps-gte : (parser : ParsedCommand) (n : ℕ) → Keeps P (validate_arguments_gte parser n)
  unfolding validate_arguments_gte
  Keeps-gte parser n = Keeps-if _ _ _ (wrong_number-Keeps (get_str parser 0)) (Keeps-pure tt)

module _ {S A B : Type 0} {P : S → Type 0} where
  bind_outcome :
      (o : Outcome A) (f : A → Handler S B) (s : S)
      → ((a : A) → Keeps P (f a))
      → P s
      → P (((λ (_ : S). (o, s)) >>= f) s).1
  unfolding ◌>>=◌
  bind_outcome (continues a) f s kf h = (kf a).at s h
  bind_outcome (replies r) f s kf h = h
  bind_outcome aborts f s kf h = h

  pub Keeps-bind :
      (first : Handler S A) (rest : A → Handler S B)
      → Keeps P first
      → ((a : A) → Keeps P (rest a))
      → Keeps P (first >>= rest)
  unfolding ◌>>=◌
  Keeps-bind first rest keeps_first keeps_rest = record {
    at = λ s h. let (o, s') = first s in bind_outcome o rest s' keeps_rest (keeps_first.at s h);
  }

  -- The rest of a block may use what was read.
  pub Keeps-bind_try :
      (r : Parsed A) (text : Bytes) (f : A → Handler S B)
      → ((a : A) → r ≡ Parser.ok a → Keeps P (f a))
      → Keeps P (try_validate r text >>= f)
  unfolding ◌>>=◌ try_validate
  Keeps-bind_try (Parser.ok a) text f kf = kf a refl
  Keeps-bind_try (Parser.err e) text f kf = Keeps-reply _
  Keeps-bind_try Parser.panics text f kf = Keeps-panic

module _ {S A : Type 0} {P : S → Type 0} where
  pub Keeps-for :
      (left i step : ℕ) (round : ℕ → A → Handler S A) (a : A)
      → ((i : ℕ) (a : A) → Keeps P (round i a))
      → Keeps P (for_ left i step round a)
  unfolding for_
  Keeps-for zero i step round a k = Keeps-pure a
  Keeps-for (suc left) i step round a k =
      Keeps-bind (round i a) _ (k i a) (λ b. Keeps-for left (i + step) step round b k)

pub ruleset keeps_rules = (
  Keeps-pure, Keeps-reply, Keeps-panic, Keeps-gets, Keeps-try_validate, Keeps-validate, Keeps-exact,
  Keeps-gte, Keeps-if, Keeps-bind_try, Keeps-bind, Keeps-for,
)

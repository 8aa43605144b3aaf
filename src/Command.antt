-- ===== src/Command.antt =====
-- The handlers of command/src/command.rs: what the macros of lines 29 to 91 do, and how a handler
-- runs on a database. A handler ends with its response, with the response of an early return, or
-- with a panic, and leaves the database as it is by then. The texts of errors are their bytes.
pub mod Strings
pub mod Expiry
pub mod Lists
pub mod Sets
pub mod Hashes
pub mod Session
pub mod Execute
pub mod Keeps
pub mod Frame
pub mod Settles
pub mod Watch
pub mod Guards
pub mod Depth
pub mod Queue
pub mod Reads
mod Examples
use redvector.Base.{
  ℕ, zero, suc, ◌+◌, ◌-◌, Bool, true, false, not, ◌&&◌, Option, none, some, List, [], ◌∷◌, ◌++◌,
  map, Bytes, codes, Result, ok, err, Run, returns, ℤ, pos, leb, ltb, ◌==◌, if◌then◌else◌, length,
}
use redvector.Dbutil.{OperationError, value_error, wrong_type_error, not_a_number_error}
use redvector.Parser.{ParsedCommand, Parsed, get_str}
use redvector.Parser
use redvector.Response.{Response, Responses, done, then_}
use redvector.Response
use redvector.Value.{Value, Sizes}
use redvector.Keyspace.{Database, store}
use redvector.Keyspace

pub data Outcome (A : Type 0) : Type 0 where
  continues : A → Outcome A
  replies : Response → Outcome A
  aborts : Outcome A

-- A handler is told apart by what it keeps: a database, or a client with a database.
abbrev pub Handler : Type 0 → Type 0 → Type 0
Handler S A = S → Outcome A × S

-- `OperationError::message`.
abbrev pub message : OperationError → Bytes
message wrong_type_error = codes "WRONGTYPE Operation against a key holding the wrong kind of value"
message not_a_number_error = codes "ERR resulting score is not a number (NaN)"
message (value_error s) = codes s
message _ = codes "ERR"

abbrev pub failure : OperationError → Response
failure e = Response.error (message e)

-- `match r { Ok(a) => f(a), Err(err) => Response::Error(err.to_string()) }`
abbrev pub answered : {A : Type 0} → (A → Response) → Result A OperationError → Response
answered f (ok a) = f a
answered f (err e) = failure e

abbrev pub ok_status : Response
ok_status = Response.status (codes "OK")

-- A length is below 2^63, so `as i64` keeps it.
abbrev pub count : ℕ → Response
count n = Response.integer (pos n)

abbrev pub flag : Bool → Response
flag b = count (if b then 1 else 0)

abbrev pub data_or_nil : Option Bytes → Response
data_or_nil none = Response.nil
data_or_nil (some b) = Response.bytes b

abbrev pub data_array : List Bytes → Responses
data_array [] = done
data_array (b ∷ bs) = then_ (Response.bytes b) (data_array bs)

-- `responses.push(r)`.
abbrev pub pushed : Responses → Response → Responses
pushed done r = then_ r done
pushed (then_ r' rs) r = then_ r' (pushed rs r)

-- `to_ascii_lowercase`.
abbrev lower : ℕ → ℕ
lower b = if leb 65 b && leb b 90 then b + 32 else b

unfoldable pub to_ascii_lowercase : Bytes → Bytes
to_ascii_lowercase s = map lower s

abbrev returned : Outcome Response → Run Response
returned (continues r) = returns r
returned (replies r) = returns r
returned aborts = Run.panics

module _ {S : Type 0} where
  unfoldable pub pure : {A : Type 0} → A → Handler S A
  pure a s = (continues a, s)

  unfoldable pub reply : {A : Type 0} → Response → Handler S A
  reply r s = (replies r, s)

  unfoldable pub panic : {A : Type 0} → Handler S A
  panic s = (aborts, s)

  unfoldable pub gets : {A : Type 0} → (S → A) → Handler S A
  gets f s = (continues (f s), s)

  unfoldable pub modify : (S → S) → Handler S (Unit {0})
  modify f s = (continues tt, f s)

  -- A call that changes the database and answers.
  unfoldable pub call : {A : Type 0} → (S → S × A) → Handler S A
  call f s = let (s', a) = f s in (continues a, s')

  infixl 5 ◌>>=◌ ◌>>◌
  -- Opening this opens the ways to end above.
  unfoldable pub ◌>>=◌ : {A B : Type 0} → Handler S A → (A → Handler S B) → Handler S B
  unfolding pure reply panic gets modify call
  ◌>>=◌ m f s =
      let (o, s') = m s in
      elim o [ continues a ↦ f a s' | replies r ↦ (replies r, s') | aborts ↦ (aborts, s') ]

  abbrev pub ◌>>◌ : {A B : Type 0} → Handler S A → Handler S B → Handler S B
  m >> k = m >>= λ _. k

  -- `validate!`
  unfoldable pub validate : Bool → Bytes → Handler S (Unit {0})
  validate condition text s = (if condition then continues tt else replies (Response.error text), s)

  -- `try_validate!`
  unfoldable pub try_validate : {A : Type 0} → Parsed A → Bytes → Handler S A
  try_validate (Parser.ok a) text = pure a
  try_validate (Parser.err e) text = reply (Response.error text)
  try_validate Parser.panics text = panic

  -- The error that names the command, whose name is unwrapped.
  unfoldable pub wrong_number : Parsed Bytes → Handler S (Unit {0})
  wrong_number (Parser.ok name) =
      reply
        (Response.error (codes "ERR wrong number of arguments for '" ++ name ++ codes "' command"))
  wrong_number _ = panic

  unfoldable pub validate_arguments_exact : ParsedCommand → ℕ → Handler S (Unit {0})
  validate_arguments_exact parser expected =
      if length parser.argv == expected then pure tt else wrong_number (get_str parser 0)

  unfoldable pub validate_arguments_gte : ParsedCommand → ℕ → Handler S (Unit {0})
  validate_arguments_gte parser expected =
      if ltb (length parser.argv) expected then wrong_number (get_str parser 0) else pure tt

  -- `for i in start..` with `left` rounds, `step` apart, over what the rounds keep.
  unfoldable pub for_ : {A : Type 0} → ℕ → ℕ → ℕ → (ℕ → A → Handler S A) → A → Handler S A
  for_ zero i step round a = pure a
  for_ (suc left) i step round a = round i a >>= λ a'. for_ left (i + step) step round a'

  -- What a handler answers, and the database that it leaves.
  abbrev pub run : Handler S Response → S → Run Response × S
  run m s = let (o, s') = m s in (returned o, s')

module _ {Z F : Type 0} where
  -- What a call of a method on the `&mut Value` of `get_or_create` does.
  unfoldable pub update :
      {A : Type 0} → Bytes → (Value Z F → Value Z F × A) → Handler (Database Z F) A
  update key f db =
      let (db1, value) = Keyspace.get_or_create db key in
      let (value', a) = f value in (continues a, store key value' db1)

  unfoldable pub stored :
      {A : Type 0}
      → Bytes
      → (Value Z F → Value Z F × A)
      → Option (Value Z F)
      → Handler (Database Z F) (Option A)
  stored key f none = pure none
  stored key f (some value) =
      λ db. let (value', a) = f value in (continues (some a), store key value' db)

  -- The same on that of `get_mut`, if there is one.
  unfoldable pub update_found :
      {A : Type 0} → Bytes → (Value Z F → Value Z F × A) → Handler (Database Z F) (Option A)
  update_found key f db = let (db1, found) = Keyspace.get_mut db key in stored key f found db1

  abbrev pub key_updated : ⦃sizes : Sizes Z F⦄ → Bytes → Handler (Database Z F) (Unit {0})
  key_updated key = modify (λ db. Keyspace.key_updated db key)

  -- What a handler answers about the value at its key, if there is one.
  abbrev pub about : Bytes → (Option (Value Z F) → Response) → Handler (Database Z F) Response
  about key f = gets (λ db. f (Keyspace.get db key))

-- ===== src/Command/Guards.antt =====
-- The guards of `execute_command`: what a client may change before it has authenticated, and inside
-- a transaction.
use redvector.Base.{
  ℕ, suc, ◌+◌, ◌≡◌, refl, ap, subst, true, false, ◌||◌, List, [], ◌∷◌, Bytes, codes, eq_bytes,
  Result, ok, err, length, Bool-cases, inl, inr, arith,
}
use redvector.Parser.{ParsedCommand, Parsed, get_str}
use redvector.Parser
use redvector.Response.{Response, Responses, done, then_, array}
use redvector.Response
use redvector.Value.{Sizes}
use redvector.Keyspace.{Database}
use redvector.Command.{Handler, Outcome, continues, replies, aborts, ◌>>=◌, pushed, panic, pure}
use redvector.Command.Session.{
  Session, Config, ResponseError, exec, run_all, generic_unwatch, closed, all_verified, multi,
  discard,
}
use redvector.Command.Execute
use redvector.Command.Keeps.{Keeps, Keeps-panic, Keeps-pure, keeps_rules}

count-pushed :
    (rs : Responses) (r : Response) → Response.count (pushed rs r) ≡ suc (Response.count rs)
unfolding Response.count
count-pushed done r = refl
count-pushed (then_ r' rs) r = ap suc (count-pushed rs r)

abbrev Counts : ℕ → Outcome Responses → Type 0
Counts n (continues rs) = Response.count rs ≡ n
Counts n (replies r) = Unit
Counts n aborts = Unit

abbrev CountsArray : ℕ → Outcome Response → Type 0
CountsArray n (continues (Response.array rs)) = Response.count rs ≡ n
CountsArray n _ = Unit

-- What `run_all` does with the result of one command.
abbrev pub next_of :
    {Z F : Type 0}
    → (ParsedCommand → Handler (Session Z F) (Result Response ResponseError))
    → List ParsedCommand
    → Responses
    → Result Response ResponseError
    → Handler (Session Z F) Responses
next_of command cs responses (ok r) = run_all command cs (pushed responses r)
next_of command cs responses (err e) = panic

module _ {Z F : Type 0} where
  after_one :
      (command : ParsedCommand → Handler (Session Z F) (Result Response ResponseError))
      (cs : List ParsedCommand) (responses : Responses)
      (o : Outcome (Result Response ResponseError)) (s : Session Z F)
      → ((rs : Responses) (s : Session Z F)
          → Counts (Response.count rs + length cs) (run_all command cs rs s).0)
      → Counts
          (Response.count responses + suc (length cs))
          (((λ (_ : Session Z F). (o, s)) >>= next_of command cs responses) s).0
  unfolding ◌>>=◌
  after_one command cs responses (continues (ok r)) s ih =
      let same : Response.count (pushed responses r) + length cs
          ≡ Response.count responses + suc (length cs) =
        rw (count-pushed responses r) (omega arith) in
      subst (λ n. Counts n (run_all command cs (pushed responses r) s).0) same
        (ih (pushed responses r) s)
  after_one command cs responses (continues (err e)) s ih = tt
  after_one command cs responses (replies r) s ih = tt
  after_one command cs responses aborts s ih = tt

  run_all-Counts :
      (command : ParsedCommand → Handler (Session Z F) (Result Response ResponseError))
      (cs : List ParsedCommand) (responses : Responses) (s : Session Z F)
      → Counts (Response.count responses + length cs) (run_all command cs responses s).0
  unfolding run_all ◌>>=◌
  run_all-Counts command [] responses s = omega arith
  run_all-Counts command (c ∷ cs) responses s =
      let (o, s') = command c s in
      after_one command cs responses o s' (λ rs s''. run_all-Counts command cs rs s'')

  run_all-done :
      (command : ParsedCommand → Handler (Session Z F) (Result Response ResponseError))
      (cs : List ParsedCommand) (s : Session Z F)
      → Counts (length cs) (run_all command cs done s).0
  unfolding Response.count
  run_all-done command cs s =
      let none_yet : 0 + length cs ≡ length cs = omega arith in
      subst (λ n. Counts n (run_all command cs done s).0) none_yet
        (run_all-Counts command cs done s)

  wrapped :
      (n : ℕ) (o : Outcome Responses) (s : Session Z F)
      → Counts n o
      → CountsArray n (((λ (_ : Session Z F). (o, s)) >>= λ rs. pure (Response.array rs)) s).0
  unfolding ◌>>=◌
  wrapped n (continues rs) s h = h
  wrapped n (replies r) s h = tt
  wrapped n aborts s h = tt

  exec-CountsArray :
      (command : ParsedCommand → Handler (Session Z F) (Result Response ResponseError))
      (s : Session Z F)
      → CountsArray (length s.client.multi_commands) (exec command s).0
  unfolding exec generic_unwatch ◌>>=◌ Response.count
  exec-CountsArray command s = elim (Bool-cases s.client.multi) [
    | inr m ↦ rw m tt
    | inl m ↦ elim (Bool-cases (all_verified s.db s.client.id s.client.watched_keys)) [
      | inr v ↦ rw (m, v) tt
      | inl v ↦
          let s' = (generic_unwatch (closed s)).0 in
          let (o, s'') = run_all command s.client.multi_commands done s' in
          rw (m, v)
            (wrapped (length s.client.multi_commands) o s''
              (run_all-done command s.client.multi_commands s'))
    ]
  ]

  -- When EXEC answers an array, it has a response for each command of the transaction.
  pub exec-count :
      (command : ParsedCommand → Handler (Session Z F) (Result Response ResponseError))
      (s : Session Z F) (rs : Responses)
      → (exec command s).0 ≡ continues (Response.array rs)
      → Response.count rs ≡ length s.client.multi_commands
  exec-count command s rs e =
      subst (CountsArray (length s.client.multi_commands)) e (exec-CountsArray command s)

module _ {Z F : Type 0} ⦃sizes : Sizes Z F⦄ (config : Config)
    (others : Bytes → ParsedCommand → Handler (Session Z F) (Result Response ResponseError)) where
  -- Inside a transaction no command but EXEC changes the database.
  pub guarded-multi :
      (command : ParsedCommand → Handler (Session Z F) (Result Response ResponseError))
      (command_name : Bytes) (parser : ParsedCommand) (s : Session Z F)
      → s.client.multi ≡ true
      → eq_bytes command_name (codes "exec") ≡ false
      → (Execute.guarded config others command command_name parser s).1.db ≡ s.db
  unfolding Execute.guarded Execute.in_multi multi discard generic_unwatch ◌>>=◌
  guarded-multi command command_name parser s m e =
      elim (Bool-cases (eq_bytes command_name (codes "multi"))) [
        | inl f ↦ rw (f, m) refl
        | inr f ↦ elim (Bool-cases (eq_bytes command_name (codes "discard"))) [
          | inl g ↦ rw (f, g, m) refl
          | inr g ↦
              elim (Bool-cases (
                eq_bytes command_name (codes "watch") || eq_bytes command_name (codes "unwatch"))) [
                  | inl h ↦ rw (f, g, e, m, h) refl
                  | inr h ↦ rw (f, g, e, m, h) refl
                ]
        ]
      ]

  abbrev SameDb : Database Z F → Session Z F → Type 0
  SameDb db s = s.db ≡ db

  quoted-Keeps :
      (P : Session Z F → Type 0) (args : Bytes) (r : Parsed Bytes) → Keeps P (Execute.quoted args r)
  quoted-Keeps P args (Parser.ok arg) = Keeps-pure _
  quoted-Keeps P args (Parser.err e) = Keeps-pure _
  quoted-Keeps P args Parser.panics = Keeps-panic

  quote_arg-Keeps :
      (P : Session Z F → Type 0) (parser : ParsedCommand) (i : ℕ) (args : Bytes)
      → Keeps P (Execute.quote_arg parser i args)
  unfolding Execute.quote_arg
  quote_arg-Keeps P parser i args = quoted-Keeps P args (get_str parser i)

  pub unknown_command-Keeps :
      (P : Session Z F → Type 0) (parser : ParsedCommand) (raw : Bytes)
      → Keeps P (Execute.unknown_command parser raw)
  unfolding Execute.unknown_command
  unknown_command-Keeps P parser raw = search (keeps_rules, quote_arg-Keeps) depth 20

  pub returning-state :
      (o : Outcome (Result Response ResponseError)) (s s' : Session Z F)
      → (Execute.returning (λ (_ : Session Z F). (o, s')) s).1 ≡ s'
  returning-state (continues r) s s' = refl
  returning-state (replies r) s s' = refl
  returning-state aborts s s' = refl

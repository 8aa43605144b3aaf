-- ===== src/Command/Depth.antt =====
-- How deep `command` calls itself: only EXEC runs queued commands, and what is queued is no EXEC.
use redvector.Base.{
  ℕ, suc, ◌≡◌, refl, ◌∙◌, ap, Bool, true, false, Option, none, some, List, [], ◌∷◌, Bytes, codes,
  eq_bytes, Result, ok, err, length, Bool-cases, inl, inr, ◌==◌, All, if◌then◌else◌,
}
use redvector.Parser.{ParsedCommand, Parsed, get_str}
use redvector.Parser
use redvector.Response.{Response, Responses, done}
use redvector.Value.{Sizes}
use redvector.Command.{
  Handler, Outcome, continues, replies, aborts, ◌>>=◌, pushed, try_validate, pure,
}
use redvector.Command.Session.{
  Session, Config, ResponseError, exec, run_all, generic_unwatch, closed,
}
use redvector.Command.Execute
use redvector.Command.Guards.{next_of}

abbrev Runner : Type 0 → Type 0 → Type 0
Runner Z F = ParsedCommand → Handler (Session Z F) (Result Response ResponseError)

gate : {A : Type 0} (b : Bool) (x y z : A) → x ≡ y → (if b then x else z) ≡ (if b then y else z)
gate true x y z e = e
gate false x y z e = refl

abbrev pub names_exec : Option Bytes → Bool
names_exec none = false
names_exec (some name) = eq_bytes name (codes "exec")

module _ {Z F : Type 0} ⦃sizes : Sizes Z F⦄ (config : Config)
    (others : Bytes → ParsedCommand → Handler (Session Z F) (Result Response ResponseError)) where
  abbrev read_name : Parsed Bytes → Bool
  read_name (Parser.ok raw) = names_exec (Execute.name_of config others raw)
  read_name _ = false

  -- Whether a command is EXEC, by the name that it goes by.
  abbrev pub is_exec : ParsedCommand → Bool
  is_exec parser = read_name (get_str parser 0)

  -- The session once a missing password has opened it.
  abbrev opened : Session Z F → Session Z F
  opened s = Execute.unless_required config others config.requirepass s

  -- What is left of a command once EXEC has run.
  abbrev after_exec :
      Session Z F
      → Outcome Response × Session Z F
      → Outcome (Result Response ResponseError) × Session Z F
  after_exec s p = ((λ (_ : Session Z F). p) >>= λ r. pure (ok r)) s

  guarded_same :
      (f g : Runner Z F) (name : Bytes) (parser : ParsedCommand) (s : Session Z F)
      → (eq_bytes name (codes "exec") ≡ true → exec f s ≡ exec g s)
      → Execute.guarded config others f name parser s
        ≡ Execute.guarded config others g name parser s
  unfolding Execute.guarded ◌>>=◌
  guarded_same f g name parser s same = elim (Bool-cases (eq_bytes name (codes "multi"))) [
    | inl m ↦ rw m refl
    | inr m ↦ elim (Bool-cases (eq_bytes name (codes "discard"))) [
      | inl d ↦ rw (m, d) refl
      | inr d ↦ elim (Bool-cases (eq_bytes name (codes "exec"))) [
        | inr e ↦ rw (m, d, e) refl
        | inl e ↦ rw (m, d, e) (ap (after_exec s) (same e))
      ]
    ]
  ]

  authenticated_same :
      (f g : Runner Z F) (name : Bytes) (parser : ParsedCommand) (s : Session Z F)
      → (eq_bytes name (codes "exec") ≡ true → exec f (opened s) ≡ exec g (opened s))
      → Execute.authenticated config others f name parser s
        ≡ Execute.authenticated config others g name parser s
  unfolding Execute.authenticated ◌>>=◌
  authenticated_same f g name parser s same = elim (Bool-cases (eq_bytes name (codes "auth"))) [
    | inl a ↦ rw a refl
    | inr a ↦
        rw a (gate (opened s).client.auth _ _ _ (guarded_same f g name parser (opened s) same))
  ]

  named_same :
      (f g : Runner Z F) (raw : Bytes) (name : Option Bytes) (parser : ParsedCommand)
      (s : Session Z F)
      → (names_exec name ≡ true → exec f (opened s) ≡ exec g (opened s))
      → Execute.named config others f raw name parser s
        ≡ Execute.named config others g raw name parser s
  named_same f g raw none parser s same = refl
  named_same f g raw (some name) parser s same = authenticated_same f g name parser s same

  read_same :
      (f g : Runner Z F) (r : Parsed Bytes) (parser : ParsedCommand) (s : Session Z F)
      → (read_name r ≡ true → exec f (opened s) ≡ exec g (opened s))
      → (try_validate r (codes "Invalid command") >>= λ raw.
            Execute.named config others f raw (Execute.name_of config others raw) parser)
          s
        ≡ (try_validate r (codes "Invalid command") >>= λ raw.
              Execute.named config others g raw (Execute.name_of config others raw) parser)
            s
  unfolding try_validate ◌>>=◌
  read_same f g (Parser.ok raw) parser s same = named_same f g raw _ parser s same
  read_same f g (Parser.err e) parser s same = refl
  read_same f g Parser.panics parser s same = refl

  -- Two ways to run queued commands do not differ outside EXEC.
  execute_command_same :
      (f g : Runner Z F) (parser : ParsedCommand) (s : Session Z F)
      → (is_exec parser ≡ true → exec f (opened s) ≡ exec g (opened s))
      → Execute.execute_command config others f parser s
        ≡ Execute.execute_command config others g parser s
  unfolding Execute.execute_command
  execute_command_same f g parser s same = elim (Bool-cases (length parser.argv == 0)) [
    | inl e ↦ rw e refl
    | inr e ↦ rw e (read_same f g (get_str parser 0) parser s same)
  ]

module _ {Z F : Type 0} ⦃sizes : Sizes Z F⦄ (plain : ParsedCommand → Bool) (f g : Runner Z F)
    (agree : (c : ParsedCommand) → plain c ≡ false → (s : Session Z F) → f c s ≡ g c s) where
  after_one_same :
      (o : Outcome (Result Response ResponseError)) (s : Session Z F) (cs : List ParsedCommand)
      (rs : Responses)
      → ((rs' : Responses) (s' : Session Z F) → run_all f cs rs' s' ≡ run_all g cs rs' s')
      → ((λ (_ : Session Z F). (o, s)) >>= next_of f cs rs) s
        ≡ ((λ (_ : Session Z F). (o, s)) >>= next_of g cs rs) s
  unfolding ◌>>=◌
  after_one_same (continues (ok r)) s cs rs rest = rest (pushed rs r) s
  after_one_same (continues (err e)) s cs rs rest = refl
  after_one_same (replies r) s cs rs rest = refl
  after_one_same aborts s cs rs rest = refl

  -- Two ways to run queued commands that agree on the queue run it alike.
  run_all_same :
      (cs : List ParsedCommand) (rs : Responses) (s : Session Z F)
      → All (λ c. plain c ≡ false) cs
      → run_all f cs rs s ≡ run_all g cs rs s
  unfolding run_all ◌>>=◌
  run_all_same [] rs s h = refl
  run_all_same (c ∷ cs) rs s h =
      ap (λ p. ((λ (_ : Session Z F). p) >>= next_of f cs rs) s) (agree c h.0 s)
      ∙ (after_one_same (g c s).0 (g c s).1 cs rs (λ rs' s'. run_all_same cs rs' s' h.1))

  abbrev as_array : Session Z F → Outcome Responses × Session Z F → Outcome Response × Session Z F
  as_array s p = ((λ (_ : Session Z F). p) >>= λ rs. pure (Response.array rs)) s

  exec_same :
      (s : Session Z F) → All (λ c. plain c ≡ false) s.client.multi_commands → exec f s ≡ exec g s
  unfolding exec ◌>>=◌
  exec_same s h = elim (Bool-cases s.client.multi) [
    | inr m ↦ rw m refl
    | inl m ↦ elim (Bool-cases (generic_unwatch (closed s)).1) [
      | inr v ↦ rw (m, v) refl
      | inl v ↦
          let s' = (generic_unwatch (closed s)).0 in
          rw (m, v) (ap (as_array s) (run_all_same s.client.multi_commands done s' h))
    ]
  ]

module _ {Z F : Type 0} ⦃sizes : Sizes Z F⦄ (config : Config)
    (others : Bytes → ParsedCommand → Handler (Session Z F) (Result Response ResponseError)) where
  -- A command that is not EXEC does not depend on how queued commands run.
  command_plain :
      (depth depth' : ℕ) (parser : ParsedCommand) (s : Session Z F)
      → is_exec config others parser ≡ false
      → Execute.command config others (suc depth) parser s
        ≡ Execute.command config others (suc depth') parser s
  unfolding Execute.command
  command_plain depth depth' parser s plain =
      ap (λ p. Execute.returning (λ (_ : Session Z F). p) s)
        (execute_command_same config others _ _ parser s (λ e. absurd (cc (e, plain))))

  pub kept_queue :
      (password : Option Bytes) (s : Session Z F)
      → All (λ c. is_exec config others c ≡ false) s.client.multi_commands
      → All
          (λ c. is_exec config others c ≡ false)
          (Execute.unless_required config others password s).client.multi_commands
  unfolding Execute.unless_required
  kept_queue none s h = h
  kept_queue (some p) s h = h

  opened_queue :
      (s : Session Z F)
      → All (λ c. is_exec config others c ≡ false) s.client.multi_commands
      → All (λ c. is_exec config others c ≡ false) (opened config others s).client.multi_commands
  opened_queue s h = kept_queue config.requirepass s h

  -- At any depth from two on a command runs as it does at depth two, in a session whose queue holds
  -- no EXEC: the queued commands do not call `command` again.
  pub command-depth :
      (depth : ℕ) (parser : ParsedCommand) (s : Session Z F)
      → All (λ c. is_exec config others c ≡ false) s.client.multi_commands
      → Execute.command config others (suc (suc depth)) parser s
        ≡ Execute.command config others 2 parser s
  unfolding Execute.command
  command-depth depth parser s queue =
      let f = Execute.command config others (suc depth) in
      let g = Execute.command config others 1 in
      ap (λ p. Execute.returning (λ (_ : Session Z F). p) s)
        (execute_command_same config others f g parser s (λ e.
          exec_same (is_exec config others) f g (λ c plain s'. command_plain depth 0 c s' plain)
            (opened config others s) (opened_queue s queue)))

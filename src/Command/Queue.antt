-- ===== src/Command/Queue.antt =====
-- What a transaction queues is never EXEC.
use redvector.Base.{
  ℕ, zero, suc, ◌≡◌, sym, subst, false, Option, none, some, List, [], ◌∷◌, Bytes, codes, eq_bytes,
  Result, ok, err, Bool-cases, inl, inr, All, All-append, if◌then◌else◌,
}
use redvector.Dict.{lookup}
use redvector.Parser.{ParsedCommand, get_str}
use redvector.Response.{Response, Responses, done}
use redvector.Value.{Sizes}
use redvector.Keyspace.{Database}
use redvector.Command.{Handler, pushed, pure}
use redvector.Command.Session.{
  Session, Config, ResponseError, exec, run_all, generic_unwatch, closed, multi, discard, watch,
  unwatch, watch_one, enqueue,
}
use redvector.Command.Execute
use redvector.Command.Guards.{next_of, returning-state, unknown_command-Keeps}
use redvector.Command.Depth.{is_exec, names_exec, kept_queue}
use redvector.Command.Keeps.{
  Keeps, Keeps-pure, Keeps-panic, Keeps-bind, Keeps-bind_try, Keeps-modify, Keeps-if, Keeps-if_eq,
  Keeps-branch, keeps_rules,
}

module _ {Z F : Type 0} ⦃sizes : Sizes Z F⦄ (config : Config)
    (others : Bytes → ParsedCommand → Handler (Session Z F) (Result Response ResponseError)) where
  -- No queued command is EXEC.
  abbrev pub NoExec : Session Z F → Type 0
  NoExec s = All (λ c. is_exec config others c ≡ false) s.client.multi_commands

  on_db-Keeps : {A : Type 0} (m : Handler (Database Z F) A) → Keeps NoExec (Execute.on_db m)
  on_db-Keeps m = record { at = λ s h. h }

  watch-Keeps : (parser : ParsedCommand) → Keeps NoExec (watch parser)
  unfolding watch watch_one
  watch-Keeps parser = search (keeps_rules, Keeps-modify) depth 20

  unwatch-Keeps : (parser : ParsedCommand) → Keeps NoExec (unwatch parser)
  unfolding unwatch generic_unwatch
  unwatch-Keeps parser = search (keeps_rules, Keeps-modify) depth 20

  multi-Keeps : Keeps NoExec multi
  unfolding multi
  multi-Keeps = record {
    at = λ s h. elim (Bool-cases s.client.multi) [ inl m ↦ rw m h | inr m ↦ rw m h ];
  }

  discard-Keeps : Keeps NoExec discard
  unfolding discard generic_unwatch
  discard-Keeps = record {
    at = λ s h. elim (Bool-cases s.client.multi) [ inl m ↦ rw m tt | inr m ↦ rw m h ];
  }

  module _ (f : ParsedCommand → Handler (Session Z F) (Result Response ResponseError))
      (keeps : (c : ParsedCommand) → Keeps NoExec (f c)) where
    next_of-Keeps :
        (cs : List ParsedCommand) (rs : Responses) (r : Result Response ResponseError)
        → ((rs' : Responses) → Keeps NoExec (run_all f cs rs'))
        → Keeps NoExec (next_of f cs rs r)
    next_of-Keeps cs rs (ok r) rest = rest (pushed rs r)
    next_of-Keeps cs rs (err e) rest = Keeps-panic

    run_all-Keeps : (cs : List ParsedCommand) (rs : Responses) → Keeps NoExec (run_all f cs rs)
    unfolding run_all
    run_all-Keeps [] rs = Keeps-pure rs
    run_all-Keeps (c ∷ cs) rs =
        Keeps-bind (f c) _ (keeps c) (λ r. next_of-Keeps cs rs r (run_all-Keeps cs))

    exec-Keeps : Keeps NoExec (exec f)
    unfolding exec generic_unwatch
    exec-Keeps = record {
      at = λ s h. elim (Bool-cases s.client.multi) [
        | inr m ↦ rw m h
        | inl m ↦ elim (Bool-cases (generic_unwatch (closed s)).1) [
          | inr v ↦ rw (m, v) tt
          | inl v ↦
              let all = run_all-Keeps s.client.multi_commands done in
              rw (m, v)
                ((Keeps-bind _ _ all (λ rs. Keeps-pure _)).at (generic_unwatch (closed s)).0 tt)
        ]
      ];
    }

  auth-Keeps : (parser : ParsedCommand) → Keeps NoExec (Execute.auth config others parser)
  unfolding Execute.auth
  auth-Keeps parser = search (keeps_rules, Keeps-modify) depth 20

  abbrev noauth : Response
  noauth = Response.error (codes "NOAUTH Authentication required.")

  in_multi-Keeps :
      (name : Bytes) (parser : ParsedCommand)
      → is_exec config others parser ≡ false
      → Keeps NoExec (Execute.in_multi config others name parser)
  unfolding Execute.in_multi
  in_multi-Keeps name parser plain =
      let enqueued = Keeps-modify (enqueue parser) (λ s h.
        All-append (λ c. is_exec config others c ≡ false) s.client.multi_commands (parser ∷ []) h
          (plain, tt)) in
      Keeps-if _ _ _ (Keeps-pure _) (Keeps-bind _ _ enqueued (λ _. Keeps-pure _))

  module _ (keep_others : (name : Bytes) (c : ParsedCommand) → Keeps NoExec (others name c)) where
    run_found-Keeps :
        (name : Bytes) (parser : ParsedCommand)
        (found : Option (ParsedCommand → Handler (Database Z F) Response))
        → Keeps NoExec (Execute.run_found config others name parser found)
    run_found-Keeps name parser none = keep_others name parser
    run_found-Keeps name parser (some handler) =
        Keeps-bind _ _ (on_db-Keeps (handler parser)) (λ r. Keeps-pure _)

    dispatch-Keeps :
        (name : Bytes) (parser : ParsedCommand)
        → Keeps NoExec (Execute.dispatch config others name parser)
    unfolding Execute.dispatch
    dispatch-Keeps name parser =
        Keeps-if _ _ _ (Keeps-bind _ _ (watch-Keeps parser) (λ r. Keeps-pure _)) (
          Keeps-if _ _ _ (Keeps-bind _ _ (unwatch-Keeps parser) (λ r. Keeps-pure _))
            (run_found-Keeps name parser (lookup name Execute.table)))

    module _ (f : ParsedCommand → Handler (Session Z F) (Result Response ResponseError))
        (keeps : (c : ParsedCommand) → Keeps NoExec (f c)) where
      -- Past the transactions' commands, inside a transaction or not.
      split-Keeps :
          (name : Bytes) (parser : ParsedCommand)
          → is_exec config others parser ≡ false
          → Keeps NoExec (λ (s : Session Z F).
            if s.client.multi
            then Execute.in_multi config others name parser s
            else Execute.dispatch config others name parser s)
      split-Keeps name parser plain =
          Keeps-branch (λ s. s.client.multi) _ _ (in_multi-Keeps name parser plain)
            (dispatch-Keeps name parser)

      guarded-Keeps :
          (name : Bytes) (parser : ParsedCommand)
          → (eq_bytes name (codes "exec") ≡ false → is_exec config others parser ≡ false)
          → Keeps NoExec (Execute.guarded config others f name parser)
      unfolding Execute.guarded
      guarded-Keeps name parser plain =
          Keeps-if _ _ _ (Keeps-bind _ _ multi-Keeps (λ r. Keeps-pure _)) (
            Keeps-if _ _ _ (Keeps-bind _ _ discard-Keeps (λ r. Keeps-pure _)) (
              Keeps-if_eq _ _ _ (λ e. Keeps-bind _ _ (exec-Keeps f keeps) (λ r. Keeps-pure _))
                (λ e. split-Keeps name parser (plain e))))

      authenticated-Keeps :
          (name : Bytes) (parser : ParsedCommand)
          → (eq_bytes name (codes "exec") ≡ false → is_exec config others parser ≡ false)
          → Keeps NoExec (Execute.authenticated config others f name parser)
      unfolding Execute.authenticated pure
      authenticated-Keeps name parser plain =
          Keeps-bind _ _
            (Keeps-modify (Execute.unless_required config others config.requirepass)
              (λ s h. kept_queue config others config.requirepass s h))
            (λ _. Keeps-if _ _ _ (auth-Keeps parser) (
              Keeps-branch (λ s. s.client.auth) _ _ (guarded-Keeps name parser plain)
                (Keeps-pure (ok noauth))))

      named-Keeps :
          (raw : Bytes) (name : Option Bytes) (parser : ParsedCommand)
          → (names_exec name ≡ false → is_exec config others parser ≡ false)
          → Keeps NoExec (Execute.named config others f raw name parser)
      named-Keeps raw none parser plain = unknown_command-Keeps config others NoExec parser raw
      named-Keeps raw (some name) parser plain = authenticated-Keeps name parser plain

      execute_command-Keeps :
          (parser : ParsedCommand) → Keeps NoExec (Execute.execute_command config others f parser)
      unfolding Execute.execute_command
      execute_command-Keeps parser = Keeps-if _ _ _ (Keeps-pure _) (
          Keeps-bind_try (get_str parser 0) _ _
            (λ raw e. named-Keeps raw _ parser (λ plain. rw e plain)))

    command-Keeps :
        (depth : ℕ) (parser : ParsedCommand)
        → Keeps NoExec (Execute.command config others depth parser)
    unfolding Execute.command
    command-Keeps zero parser = Keeps-panic
    command-Keeps (suc depth) parser = record {
      at = λ s h.
          let f = Execute.command config others depth in
          let (o, s') = Execute.execute_command config others f parser s in
          subst NoExec (sym (returning-state config others o s s'))
            ((execute_command-Keeps f (command-Keeps depth) parser).at s h);
    }

  -- Whatever command a client sends, no EXEC is queued afterwards, if none was before and the
  -- handlers outside the table queue none.
  pub command-NoExec :
      (depth : ℕ) (parser : ParsedCommand) (s : Session Z F)
      → ((name : Bytes) (c : ParsedCommand) → Keeps NoExec (others name c))
      → NoExec s
      → NoExec (Execute.command config others depth parser s).1
  command-NoExec depth parser s keep_others h = (command-Keeps keep_others depth parser).at s h

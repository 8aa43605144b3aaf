-- ===== src/Command/Settles.antt =====
-- Handlers that end with `key_updated`: once they end, no value is empty and their key is watched by
-- nobody.
use redvector.Base.{◌≡◌, refl, Bool, true, false, some, Bytes, eq_bytes, All, ℤ, codes, [], ◌∷◌}
use redvector.Dict.{Dict, lookup}
use redvector.Dict.Laws.{All-lookup}
use redvector.Parser.{ParsedCommand, Parsed, get_vec}
use redvector.Parser
use redvector.Response.{Response}
use redvector.Value.{Sizes}
use redvector.Keyspace.{Database}
use redvector.Keyspace.Laws.{SameAt-refl}
use redvector.Keyspace.Settled.{
  Pending, NoEmpty, Settled, NoEmpty-Pending, Pending-SameAt, key_updated-Settled,
}
use redvector.Command.{
  Handler, Outcome, continues, replies, aborts, pure, reply, panic, modify, ◌>>=◌, try_validate,
}
use redvector.Command.Strings
use redvector.Command.Expiry
use redvector.Command.Lists
use redvector.Command.Sets
use redvector.Command.Hashes
use redvector.Command.Keeps.Strings.{length_or_return-Keeps}
use redvector.Command.Keeps.Lists.{direction-Keeps, trim_found-Keeps, push_one-Keeps}
use redvector.Command.Keeps.Sets.{add_member-Keeps, remove_member-Keeps}
use redvector.Command.Keeps.Hashes.{set_field-Keeps}
use redvector.Command.Frame.{SameAt-Stable, IsValid-Stable}
use redvector.Command.Keeps.{Keeps}
use redvector.Command.Keeps.Stable.{Stable, stable_rules}

-- `Q` of the state that a handler ends normally with.
abbrev pub Ends {κ} : {S A : Type 0} → (S → Type κ) → Outcome A × S → Type κ
Ends Q (continues a, s) = Q s
Ends Q (replies r, s) = Unit
Ends Q (aborts, s) = Unit

pub record Leads {S A : Type 0} (P Q : S → Type 0) (m : Handler S A) : Type 0 where
  pub at : (s : S) → P s → Ends Q (m s)

module _ {S A : Type 0} {P Q : S → Type 0} where
  Leads-reply : (r : Response) → Leads P Q (reply {A = A} r)
  unfolding reply
  Leads-reply r = record { at = λ s h. tt }

  Leads-panic : Leads P Q (panic {A = A})
  unfolding panic
  Leads-panic = record { at = λ s h. tt }

  -- The last step of a handler.
  Leads-modify :
      (f : S → S) (a : A) → ((s : S) → P s → Q (f s)) → Leads P Q (modify f >>= λ _. pure a)
  unfolding ◌>>=◌
  Leads-modify f a k = record { at = k }

module _ {S A B : Type 0} {P Q : S → Type 0} where
  bind_outcome :
      (o : Outcome A) (f : A → Handler S B) (s : S)
      → ((a : A) → Leads P Q (f a))
      → P s
      → Ends Q (((λ (_ : S). (o, s)) >>= f) s)
  unfolding ◌>>=◌
  bind_outcome (continues a) f s kf h = (kf a).at s h
  bind_outcome (replies r) f s kf h = tt
  bind_outcome aborts f s kf h = tt

  Leads-bind :
      (m : Handler S A) (f : A → Handler S B)
      → Keeps P m
      → ((a : A) → Leads P Q (f a))
      → Leads P Q (m >>= f)
  unfolding ◌>>=◌
  Leads-bind m f km kf = record {
    at = λ s h. let (o, s') = m s in bind_outcome o f s' kf (km.at s h);
  }

  Leads-bind_try :
      (r : Parsed A) (text : Bytes) (f : A → Handler S B)
      → ((a : A) → r ≡ Parser.ok a → Leads P Q (f a))
      → Leads P Q (try_validate r text >>= f)
  unfolding ◌>>=◌ try_validate
  Leads-bind_try (Parser.ok a) text f kf = kf a refl
  Leads-bind_try (Parser.err e) text f kf = Leads-reply _
  Leads-bind_try Parser.panics text f kf = Leads-panic

module _ {Z F : Type 0} ⦃sizes : Sizes Z F⦄ where
  Pending-Stable : (key : Bytes) → Stable {Z = Z} {F = F} (Pending key) key
  Pending-Stable key =
      let valid = IsValid-Stable {Z = Z} {F = F} key in
      let same =
        λ (x : Bytes) (db : Database Z F) (e : eq_bytes x key ≡ false). SameAt-Stable x key db e in
      record {
        on_store = λ value db h.
            Pending-SameAt key db _ (valid.on_store value db h.valid)
              (λ x e. (same x db e).on_store value db (SameAt-refl x db)) h;
        on_remove = λ db h.
            Pending-SameAt key db _ (valid.on_remove db h.valid)
              (λ x e. (same x db e).on_remove db (SameAt-refl x db)) h;
        on_unexpire = λ db h.
            Pending-SameAt key db _ (valid.on_unexpire db h.valid)
              (λ x e. (same x db e).on_unexpire db (SameAt-refl x db)) h;
        on_updated = λ db h.
            Pending-SameAt key db _ (valid.on_updated db h.valid)
              (λ x e. (same x db e).on_updated db (SameAt-refl x db)) h;
        on_expire = λ t db h.
            Pending-SameAt key db _ (valid.on_expire t db h.valid)
              (λ x e. (same x db e).on_expire t db (SameAt-refl x db)) h;
      }

module _ {S A B : Type 0} {P Q : S → Type 0} where
  Leads-bind_ok :
      (a : A) (text : Bytes) (f : A → Handler S B)
      → Leads P Q (f a)
      → Leads P Q (try_validate (Parser.ok a) text >>= f)
  unfolding ◌>>=◌ try_validate
  Leads-bind_ok a text f k = k

ruleset leads_rules = (
  stable_rules, Leads-reply, Leads-panic, Leads-bind_ok, Leads-modify, Leads-bind_try, Leads-bind,
  key_updated-Settled, Pending-Stable,
)

module _ {Z F : Type 0} ⦃sizes : Sizes Z F⦄ where
  -- A handler that ends normally settles the key of its first argument.
  abbrev Settles : (ParsedCommand → Handler (Database Z F) Response) → Type 0
  Settles handler =
      (parser : ParsedCommand) (key : Bytes)
      → get_vec parser 1 ≡ Parser.ok key
      → Leads (Pending key) (Settled key) (handler parser)

  setbit-Settles : Settles Strings.setbit
  unfolding Strings.setbit
  setbit-Settles parser key e = rw e (search leads_rules depth 60 fits 20000)

  append-Settles : Settles Strings.append
  unfolding Strings.append
  append-Settles parser key e =
      rw e (search (leads_rules, length_or_return-Keeps) depth 60 fits 20000)

  generic_incr-Settles :
      (parser : ParsedCommand) (by : ℤ) (key : Bytes)
      → get_vec parser 1 ≡ Parser.ok key
      → Leads (Pending key) (Settled key) (Strings.generic_incr {Z = Z} {F = F} parser by)
  unfolding Strings.generic_incr
  generic_incr-Settles parser by key e = rw e (search leads_rules depth 60 fits 20000)

  incr-Settles : Settles Strings.incr
  unfolding Strings.incr
  incr-Settles parser key e = search (leads_rules, generic_incr-Settles) depth 20

  decr-Settles : Settles Strings.decr
  unfolding Strings.decr
  decr-Settles parser key e = search (leads_rules, generic_incr-Settles) depth 20

  incrby-Settles : Settles Strings.incrby
  unfolding Strings.incrby
  incrby-Settles parser key e = search (leads_rules, generic_incr-Settles) depth 20

  decrby-Settles : Settles Strings.decrby
  unfolding Strings.decrby
  decrby-Settles parser key e = search (leads_rules, generic_incr-Settles) depth 20

  sadd-Settles : Settles Sets.sadd
  unfolding Sets.sadd
  sadd-Settles parser key e = rw e (search (leads_rules, add_member-Keeps) depth 60 fits 20000)

  srem-Settles : Settles Sets.srem
  unfolding Sets.srem
  srem-Settles parser key e = rw e (search (leads_rules, remove_member-Keeps) depth 60 fits 20000)

  hmset-Settles : Settles Hashes.hmset
  unfolding Hashes.hmset
  hmset-Settles parser key e = rw e (search (leads_rules, set_field-Keeps) depth 60 fits 20000)

  persist-Settles : Settles Expiry.persist
  unfolding Expiry.persist
  persist-Settles parser key e = rw e (search leads_rules depth 60 fits 20000)

  lrem-Settles : Settles Lists.lrem
  unfolding Lists.lrem
  lrem-Settles parser key e = rw e (search leads_rules depth 60 fits 20000)

  lset-Settles : Settles Lists.lset
  unfolding Lists.lset
  lset-Settles parser key e = rw e (search leads_rules depth 60 fits 20000)

  linsert-Settles : Settles Lists.linsert
  unfolding Lists.linsert
  linsert-Settles parser key e = rw e (search (leads_rules, direction-Keeps) depth 60 fits 20000)

  ltrim-Settles : Settles Lists.ltrim
  unfolding Lists.ltrim
  ltrim-Settles parser key e = rw e (search (leads_rules, trim_found-Keeps) depth 60 fits 20000)

  generic_pop-Settles : (right : Bool) → Settles (λ parser. Lists.generic_pop parser right)
  unfolding Lists.generic_pop
  generic_pop-Settles right parser key e = rw e (search leads_rules depth 60 fits 20000)

  generic_push-Settles :
      (right create : Bool) → Settles (λ parser. Lists.generic_push parser right create)
  unfolding Lists.generic_push
  generic_push-Settles right create parser key e =
      rw e (search (leads_rules, push_one-Keeps) depth 60 fits 20000)

  -- The commands that are known to settle their key.
  abbrev pub settling : Dict (ParsedCommand → Handler (Database Z F) Response)
  settling =
      (codes "append", Strings.append)
      ∷ (codes "setbit", Strings.setbit)
      ∷ (codes "incr", Strings.incr)
      ∷ (codes "decr", Strings.decr)
      ∷ (codes "incrby", Strings.incrby)
      ∷ (codes "decrby", Strings.decrby)
      ∷ (codes "lpush", Lists.lpush)
      ∷ (codes "rpush", Lists.rpush)
      ∷ (codes "lpushx", Lists.lpushx)
      ∷ (codes "rpushx", Lists.rpushx)
      ∷ (codes "lpop", Lists.lpop)
      ∷ (codes "rpop", Lists.rpop)
      ∷ (codes "linsert", Lists.linsert)
      ∷ (codes "lrem", Lists.lrem)
      ∷ (codes "lset", Lists.lset)
      ∷ (codes "ltrim", Lists.ltrim)
      ∷ (codes "sadd", Sets.sadd)
      ∷ (codes "srem", Sets.srem)
      ∷ (codes "hmset", Hashes.hmset)
      ∷ (codes "persist", Expiry.persist)
      ∷ []

  settling-All : All (λ entry. Settles entry.1) settling
  settling-All = (
    append-Settles,
    (
      setbit-Settles,
      (
        incr-Settles,
        (
          decr-Settles,
          (
            incrby-Settles,
            (
              decrby-Settles,
              (
                generic_push-Settles false true,
                (
                  generic_push-Settles true true,
                  (
                    generic_push-Settles false false,
                    (
                      generic_push-Settles true false,
                      (
                        generic_pop-Settles false,
                        (
                          generic_pop-Settles true,
                          (
                            linsert-Settles,
                            (
                              lrem-Settles,
                              (
                                lset-Settles,
                                (
                                  ltrim-Settles,
                                  (
                                    sadd-Settles,
                                    (srem-Settles, (hmset-Settles, (persist-Settles, tt))),
                                  ),
                                ),
                              ),
                            ),
                          ),
                        ),
                      ),
                    ),
                  ),
                ),
              ),
            ),
          ),
        ),
      ),
    ),
  )

  -- When one of the commands of `settling` ends normally, in a database without empty values, no value
  -- is empty and no client watches the key of the command's first argument.
  pub settling-Settled :
      (name : Bytes) (handler : ParsedCommand → Handler (Database Z F) Response)
      (parser : ParsedCommand) (key : Bytes) (db : Database Z F)
      → lookup name settling ≡ some handler
      → get_vec parser 1 ≡ Parser.ok key
      → NoEmpty db
      → Ends (Settled key) (handler parser db)
  settling-Settled name handler parser key db found e h =
      (All-lookup Settles name handler settling settling-All found parser key e).at db
        (NoEmpty-Pending key db h)

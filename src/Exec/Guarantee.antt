-- ===== src/Exec/Guarantee.antt =====
-- What a handler guarantees of the store across all its statements, whatever other requests do in
-- between, as long as they respect the same relation, and wherever it fails.
use identity_platform.Prelude.{
  ℕ, ◌+◌, subst, Bool, true, false, Option, none, some, ◌≡◌, refl, inl, inr, Bool-cases, arith,
  if◌then◌else◌,
}
use identity_platform.Errors.{Failure}
use identity_platform.Schema.{Store}
use identity_platform.Exec.{
  Host, State, Outcome, done, fail, Exec, Defaults, final, pure, throw, check, or_throw, ◌>>=◌,
  catch, recover, answer, statement, read, write, write_returning, now, random_uuid, random_bytes,
  continue,
}

-- The relation is a preorder, and other requests stay within it.
pub record Rely (R : Store → Store → Type 0) (h : Host) : Type 0 where
  pub same : (st : Store) → R st st
  pub trans : (a b c : Store) → R a b → R b c → R a c
  pub others : (k : ℕ) (st : Store) → R st (h.others k st)

pub record Guarantees {A : Type 0} (R : Store → Store → Type 0) (m : Exec A) : Type 0 where
  pub at : (s : State) → R s.store (final (m s)).store

module _ {R : Store → Store → Type 0} {h : Host} (o : Rely R h) where
  pub pure_lem : {A : Type 0} (a : A) → Guarantees R (pure a)
  pure_lem a = record { at = λ s. o.same s.store }

  pub throw_lem : {A : Type 0} (e : Failure) → Guarantees R (throw {A = A} e)
  throw_lem e = record { at = λ s. o.same s.store }

  pub check_lem : (b : Bool) (e : Failure) → Guarantees R (check b e)
  check_lem true e = record { at = λ s. o.same s.store }
  check_lem false e = record { at = λ s. o.same s.store }

  pub or_throw_lem : {A : Type 0} (a : Option A) (e : Failure) → Guarantees R (or_throw a e)
  or_throw_lem none e = record { at = λ s. o.same s.store }
  or_throw_lem (some a) e = record { at = λ s. o.same s.store }

  pub if_lem :
      {A : Type 0} (b : Bool) {m n : Exec A}
      → Guarantees R m
      → Guarantees R n
      → Guarantees R (if b then m else n)
  if_lem true km kn = km
  if_lem false km kn = kn

  pub option_lem :
      {A B : Type 0} (a : Option A) {m : Exec B} {f : A → Exec B}
      → Guarantees R m
      → ((x : A) → Guarantees R (f x))
      → Guarantees R (elim a [ none ↦ m | some x ↦ f x ])
  option_lem none km kf = km
  option_lem (some x) km kf = kf x

  continue_lem :
      {A B : Type 0} (st : Store) (r : Outcome A) (f : A → Exec B)
      → R st (final r).store
      → ((a : A) → Guarantees R (f a))
      → R st (final (continue r f)).store
  continue_lem st (done a s) f k kf = o.trans st s.store _ k ((kf a).at s)
  continue_lem st (fail e s) f k kf = k

  pub bind_lem :
      {A B : Type 0} {m : Exec A} {f : A → Exec B}
      → Guarantees R m
      → ((a : A) → Guarantees R (f a))
      → Guarantees R (m >>= f)
  bind_lem {m} {f} km kf = record { at = λ s. continue_lem s.store (m s) f (km.at s) kf }

  recover_lem :
      {A : Type 0} (st : Store) (r : Outcome A) (f : Failure → Exec A)
      → R st (final r).store
      → ((e : Failure) → Guarantees R (f e))
      → R st (final (recover r f)).store
  recover_lem st (done a s) f k kf = k
  recover_lem st (fail e s) f k kf = o.trans st s.store _ k ((kf e).at s)

  pub catch_lem :
      {A : Type 0} {m : Exec A} {f : Failure → Exec A}
      → Guarantees R m
      → ((e : Failure) → Guarantees R (f e))
      → Guarantees R (catch m f)
  catch_lem {m} {f} km kf = record { at = λ s. recover_lem s.store (m s) f (km.at s) kf }

  answer_lem :
      {A : Type 0} (st : Store) (k : ℕ) (r : Option (A × Store))
      → ((a : A) (st' : Store) → r ≡ some (a, st') → R st st')
      → R st (final (answer r st k)).store
  answer_lem st k none keeps = o.same st
  answer_lem st k (some (a, st')) keeps = keeps a st' refl

  pub statement_lem :
      {A : Type 0} (q : Defaults → Store → Option (A × Store))
      → ((d : Defaults) (st : Store) (a : A) (st' : Store) → q d st ≡ some (a, st') → R st st')
      → Guarantees R (statement h q)
  unfolding statement
  statement_lem q keeps = record { at = λ s. at s }
    where
      at : (s : State) → R s.store (final (statement h q s)).store
      at s =
          let st = h.others s.step s.store in
          let d : Defaults = record { id = h.uuid s.step; time = h.clock s.step } in
          o.trans s.store st _ (o.others s.step s.store) (elim (Bool-cases (h.answers s.step)) [
            | inl up ↦ rw up (answer_lem st (s.step + 1) (q d st) (keeps d st))
            | inr down ↦ rw down (o.same st)
          ])

  pub write_returning_lem :
      {A : Type 0} (q : Store → A × Store)
      → ((st : Store) → R st (q st).1)
      → Guarantees R (write_returning h q)
  unfolding write_returning
  write_returning_lem q keeps =
      statement_lem (λ _ st. some (q st)) λ d st a st' e. subst (R st) (ground arith) (keeps st)

  pub write_lem : (q : Store → Store) → ((st : Store) → R st (q st)) → Guarantees R (write h q)
  unfolding write
  write_lem q keeps =
      statement_lem (λ _ st. some (tt, q st)) λ d st a st' e. subst (R st) (ground arith) (keeps st)

  pub read_lem : {A : Type 0} (q : Store → A) → Guarantees R (read h q)
  unfolding read
  read_lem q =
      statement_lem (λ _ st. some (q st, st))
        λ d st a st' e. subst (R st) (ground arith) (o.same st)

  pub now_lem : Guarantees R (now h)
  unfolding now
  now_lem = record { at = λ s. o.same s.store }

  pub random_uuid_lem : Guarantees R (random_uuid h)
  unfolding random_uuid
  random_uuid_lem = record { at = λ s. o.same s.store }

  pub random_bytes_lem : Guarantees R (random_bytes h)
  unfolding random_bytes
  random_bytes_lem = record { at = λ s. o.same s.store }

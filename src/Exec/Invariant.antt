-- ===== src/Exec/Invariant.antt =====
-- What a handler keeps and what its result tells, where other requests keep the same invariant. A
-- fact about the result speaks of no store, so that it stays true whatever happens next.
use identity_platform.Prelude.{
  ℕ, ◌+◌, subst, Bool, true, false, Option, none, some, ◌≡◌, refl, inl, inr, Bool-cases, arith,
  if◌then◌else◌,
}
use identity_platform.Errors.{Failure}
use identity_platform.Schema.{Store}
use identity_platform.Exec.{
  Host, State, Outcome, done, fail, Exec, Defaults, pure, throw, check, or_throw, ◌>>=◌, catch,
  recover, answer, statement, read, write, write_returning, now, random_bytes, continue,
}

-- After a result the invariant and the fact; after an exception the invariant.
abbrev pub After : {A : Type 0} → (Store → Type 0) → (A → Type 0) → Outcome A → Type 0
After I Q (done a s) = Q a × I s.store
After I Q (fail e s) = I s.store

pub record Maintains {A : Type 0} (I : Store → Type 0) (m : Exec A) (Q : A → Type 0) : Type 0 where
  pub at : (s : State) → I s.store → After I Q (m s)

pub record Respects (I : Store → Type 0) (h : Host) : Type 0 where
  pub others : (k : ℕ) (st : Store) → I st → I (h.others k st)

abbrev pub Anything : {A : Type 0} → A → Type 0
Anything a = Unit

After-weaker :
    {A : Type 0} (I : Store → Type 0) {P Q : A → Type 0} (r : Outcome A)
    → ((a : A) → P a → Q a)
    → After I P r
    → After I Q r
After-weaker I (done a s) k h = (k a h.0, h.1)
After-weaker I (fail e s) k h = h

module _ {I : Store → Type 0} where
  pub pure_keeps : {A : Type 0} {Q : A → Type 0} (a : A) → Q a → Maintains I (pure a) Q
  pure_keeps a q = record { at = λ s i. (q, i) }

  pub throw_keeps : {A : Type 0} {Q : A → Type 0} (e : Failure) → Maintains I (throw e) Q
  throw_keeps e = record { at = λ s i. i }

  pub check_keeps : (b : Bool) (e : Failure) → Maintains I (check b e) (λ _. b ≡ true)
  check_keeps true e = record { at = λ s i. (refl, i) }
  check_keeps false e = record { at = λ s i. i }

  pub or_throw_keeps :
      {A : Type 0} (o : Option A) (e : Failure) → Maintains I (or_throw o e) (λ a. o ≡ some a)
  or_throw_keeps none e = record { at = λ s i. i }
  or_throw_keeps (some a) e = record { at = λ s i. (refl, i) }

  pub if_keeps :
      {A : Type 0} {Q : A → Type 0} (b : Bool) {m n : Exec A}
      → Maintains I m Q
      → Maintains I n Q
      → Maintains I (if b then m else n) Q
  if_keeps true km kn = km
  if_keeps false km kn = kn

  pub option_keeps :
      {A B : Type 0} {Q : B → Type 0} (a : Option A) {m : Exec B} {f : A → Exec B}
      → Maintains I m Q
      → ((x : A) → a ≡ some x → Maintains I (f x) Q)
      → Maintains I (elim a [ none ↦ m | some x ↦ f x ]) Q
  option_keeps none km kf = km
  option_keeps (some x) km kf = kf x refl

  pub weaker :
      {A : Type 0} {P Q : A → Type 0} {m : Exec A}
      → Maintains I m P
      → ((a : A) → P a → Q a)
      → Maintains I m Q
  weaker {m} km k = record { at = λ s i. After-weaker I (m s) k (km.at s i) }

  continue_keeps :
      {A B : Type 0} {P : A → Type 0} {Q : B → Type 0} (r : Outcome A) (f : A → Exec B)
      → After I P r
      → ((a : A) → P a → Maintains I (f a) Q)
      → After I Q (continue r f)
  continue_keeps (done a s) f k kf = (kf a k.0).at s k.1
  continue_keeps (fail e s) f k kf = k

  pub bind_keeps :
      {A B : Type 0} {P : A → Type 0} {Q : B → Type 0} {m : Exec A} {f : A → Exec B}
      → Maintains I m P
      → ((a : A) → P a → Maintains I (f a) Q)
      → Maintains I (m >>= f) Q
  bind_keeps {m} {f} km kf = record { at = λ s i. continue_keeps (m s) f (km.at s i) kf }

  recover_keeps :
      {A : Type 0} {Q : A → Type 0} (r : Outcome A) (f : Failure → Exec A)
      → After I Q r
      → ((e : Failure) → Maintains I (f e) Q)
      → After I Q (recover r f)
  recover_keeps (done a s) f k kf = k
  recover_keeps (fail e s) f k kf = (kf e).at s k

  pub catch_keeps :
      {A : Type 0} {Q : A → Type 0} {m : Exec A} {f : Failure → Exec A}
      → Maintains I m Q
      → ((e : Failure) → Maintains I (f e) Q)
      → Maintains I (catch m f) Q
  catch_keeps {m} {f} km kf = record { at = λ s i. recover_keeps (m s) f (km.at s i) kf }

  answer_keeps :
      {A : Type 0} {Q : A → Type 0} (st : Store) (k : ℕ) (r : Option (A × Store))
      → I st
      → ((a : A) (st' : Store) → r ≡ some (a, st') → Q a × I st')
      → After I Q (answer r st k)
  answer_keeps st k none i keeps = i
  answer_keeps st k (some (a, st')) i keeps = keeps a st' refl

module _ {I : Store → Type 0} {h : Host} (o : Respects I h) where
  pub statement_keeps :
      {A : Type 0} {Q : A → Type 0} (q : Defaults → Store → Option (A × Store))
      → ((k : ℕ) (st : Store) (a : A) (st' : Store)
          → I st
          → q (record { id = h.uuid k; time = h.clock k }) st ≡ some (a, st')
          → Q a × I st')
      → Maintains I (statement h q) Q
  unfolding statement
  statement_keeps {A} {Q} q keeps = record { at = λ s i. at s i }
    where
      at : (s : State) → I s.store → After I Q (statement h q s)
      at s i =
          let st = h.others s.step s.store in
          elim (Bool-cases (h.answers s.step)) [
            | inl up ↦ rw up (
                answer_keeps st (s.step + 1) (q _ st) (o.others s.step s.store i)
                  λ a st' e. keeps s.step st a st' (o.others s.step s.store i) e)
            | inr down ↦ rw down (o.others s.step s.store i)
          ]

  -- A statement that is never refused.
  pub total_keeps :
      {A : Type 0} {Q : A → Type 0} (q : Defaults → Store → A × Store)
      → ((k : ℕ) (st : Store)
          → I st
          → Q (q (record { id = h.uuid k; time = h.clock k }) st).0
            × I (q (record { id = h.uuid k; time = h.clock k }) st).1)
      → Maintains I (statement h (λ d st. some (q d st))) Q
  total_keeps {A} {Q} q keeps =
      statement_keeps (λ d st. some (q d st))
        λ k st a st' i e.
          subst (λ (z : A × Store). Q z.0 × I z.1) {y = (a, st')} (ground arith) (keeps k st i)

  pub read_keeps :
      {A : Type 0} {Q : A → Type 0} (q : Store → A)
      → ((st : Store) → I st → Q (q st))
      → Maintains I (read h q) Q
  unfolding read
  read_keeps {A} {Q} q tells =
      statement_keeps (λ _ st. some (q st, st))
        λ k st a st' i e. (subst Q (ground arith) (tells st i), subst I (ground arith) i)

  pub write_returning_keeps :
      {A : Type 0} {Q : A → Type 0} (q : Store → A × Store)
      → ((st : Store) → I st → Q (q st).0 × I (q st).1)
      → Maintains I (write_returning h q) Q
  unfolding write_returning
  write_returning_keeps {A} {Q} q keeps =
      statement_keeps (λ _ st. some (q st))
        λ k st a st' i e.
          (subst Q (ground arith) (keeps st i).0, subst I (ground arith) (keeps st i).1)

  pub write_keeps :
      (q : Store → Store) → ((st : Store) → I st → I (q st)) → Maintains I (write h q) Anything
  unfolding write
  write_keeps q keeps =
      statement_keeps (λ _ st. some (tt, q st))
        λ k st a st' i e. (tt, subst I (ground arith) (keeps st i))

module _ {I : Store → Type 0} (h : Host) where
  pub now_keeps : Maintains I (now h) Anything
  unfolding now
  now_keeps = record { at = λ s i. (tt, i) }

  pub random_bytes_keeps : Maintains I (random_bytes h) Anything
  unfolding random_bytes
  random_bytes_keeps = record { at = λ s i. (tt, i) }

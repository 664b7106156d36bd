-- ===== src/Exec/Inversion.antt =====
-- What is known when a part of a handler has returned a value.
use identity_platform.Prelude.{
  ℕ, ◌+◌, Bool, true, false, Option, none, some, ◌≡◌, refl, arith, Bool-cases, inl, inr, subst,
  if◌then◌else◌,
}
use identity_platform.Errors.{Failure}
use identity_platform.Schema.{Store}
use identity_platform.Exec.{
  write, now, catch, recover, Host, State, Outcome, done, fail, Exec, Defaults, pure, throw, check,
  or_throw, continue, ◌>>=◌, answer, statement, read, write_returning,
}

module _ {A B : Type 0} where
  pub continue_done :
      (r : Outcome A) (f : A → Exec B) (b : B) (s' : State)
      → continue r f ≡ done b s'
      → (a : A) × (t : State) × (r ≡ done a t) × (f a t ≡ done b s')
  continue_done (done a t) f b s' e = (a, t, refl, e)
  continue_done (fail x t) f b s' e = cc

  pub bind_done :
      (m : Exec A) (f : A → Exec B) (s : State) (b : B) (s' : State)
      → (m >>= f) s ≡ done b s'
      → (a : A) × (t : State) × (m s ≡ done a t) × (f a t ≡ done b s')
  bind_done m f s b s' e = continue_done (m s) f b s' e

pub check_done :
    (b : Bool) (x : Failure) (s : State) (u : Unit {0}) (s' : State)
    → check b x s ≡ done u s'
    → (b ≡ true) × (s' ≡ s)
check_done true x s u s' e = (refl, ground arith)
check_done false x s u s' e = cc

module _ {A : Type 0} where
  pub or_throw_done :
      (o : Option A) (x : Failure) (s : State) (a : A) (s' : State)
      → or_throw o x s ≡ done a s'
      → (o ≡ some a) × (s' ≡ s)
  or_throw_done none x s a s' e = cc
  or_throw_done (some b) x s a s' e = (ground arith, ground arith)

  answer_done :
      (r : Option (A × Store)) (st : Store) (k : ℕ) (a : A) (s' : State)
      → answer r st k ≡ done a s'
      → (r ≡ some (a, s'.store)) × (s'.step ≡ k)
  answer_done none st k a s' e = cc
  answer_done (some (b, st')) st k a s' e = (ground arith, ground arith)

module _ (h : Host) {A : Type 0} where
  pub statement_done :
      (q : Defaults → Store → Option (A × Store)) (s : State) (a : A) (s' : State)
      → statement h q s ≡ done a s'
      → (q (record { id = h.uuid s.step; time = h.clock s.step }) (h.others s.step s.store)
          ≡ some (a, s'.store))
        × (s'.step ≡ s.step + 1)
  unfolding statement
  statement_done q s a s' e = elim (Bool-cases (h.answers s.step)) [
    | inl up ↦ answer_done _ _ (s.step + 1) a s' (rw up at e)
    | inr down ↦ absurd (cc (rw down at e))
  ]

  pub read_done :
      (q : Store → A) (s : State) (a : A) (s' : State)
      → read h q s ≡ done a s'
      → (a ≡ q (h.others s.step s.store))
        × (s'.store ≡ h.others s.step s.store)
        × (s'.step ≡ s.step + 1)
  unfolding read
  read_done q s a s' e =
      let (found, next) = statement_done (λ _ st. some (q st, st)) s a s' e in
      (ground arith, ground arith, next)

  pub write_returning_done :
      (q : Store → A × Store) (s : State) (a : A) (s' : State)
      → write_returning h q s ≡ done a s'
      → (q (h.others s.step s.store) ≡ (a, s'.store)) × (s'.step ≡ s.step + 1)
  unfolding write_returning
  write_returning_done q s a s' e =
      let (found, next) = statement_done (λ _ st. some (q st)) s a s' e in (ground arith, next)

-- What holds of the value and the state, if `m` returns from this state.
pub record From {A : Type 0} (s : State) (m : Exec A) (Q : A → State → Type 0) : Type 0 where
  pub at : (a : A) (s' : State) → m s ≡ done a s' → Q a s'

module _ {A B : Type 0} where
  -- The first part has returned; the rest runs from there.
  pub then_lem :
      {s : State} (m : Exec A) (f : A → Exec B) {Q : B → State → Type 0}
      → ((a : A) (t : State) → m s ≡ done a t → From t (f a) Q)
      → From s (m >>= f) Q
  then_lem {s} m f k = record {
    at = λ b s' e.
        let (a, t, first, rest) = continue_done (m s) f b s' e in (k a t first).at b s' rest;
  }

  pub or_throw_then_lem :
      (o : Option A) (x : Failure) {s : State} (f : A → Exec B) {Q : B → State → Type 0}
      → ((a : A) → o ≡ some a → From s (f a) Q)
      → From s (or_throw o x >>= f) Q
  or_throw_then_lem none x f k = record { at = λ a s' e. absurd (cc) }
  or_throw_then_lem (some a) x f k = record { at = (k a refl).at }

module _ {B : Type 0} where
  pub check_then_lem :
      (b : Bool) (x : Failure) {s : State} (f : Unit {0} → Exec B) {Q : B → State → Type 0}
      → (b ≡ true → From s (f tt) Q)
      → From s (check b x >>= f) Q
  check_then_lem true x f k = record { at = (k refl).at }
  check_then_lem false x f k = record { at = λ a s' e. absurd (cc) }

module _ {A : Type 0} where
  pub whatever :
      {s : State} {m : Exec A} {Q : A → State → Type 0}
      → ((a : A) (s' : State) → Q a s')
      → From s m Q
  whatever k = record { at = λ a s' e. k a s' }

module _ {A : Type 0} {s : State} {Q : A → State → Type 0} where
  pub pure_from : (a : A) → Q a s → From s (pure a) Q
  pure_from a q = record {
    at = λ b s' e. subst (λ (o : Outcome A). elim o [ done x t ↦ Q x t | fail _ _ ↦ Unit {0} ]) e q;
  }

  pub throw_from : (x : Failure) → From s (throw x) Q
  throw_from x = record { at = λ a s' e. absurd (cc) }

  pub if_from :
      (b : Bool) {m n : Exec A}
      → (b ≡ true → From s m Q)
      → (b ≡ false → From s n Q)
      → From s (if b then m else n) Q
  if_from true k l = record { at = (k refl).at }
  if_from false k l = record { at = (l refl).at }

module _ {A B : Type 0} {s : State} {Q : A → State → Type 0} where
  pub option_from :
      (o : Option B) {n : Exec A} {f : B → Exec A}
      → (o ≡ none → From s n Q)
      → ((b : B) → o ≡ some b → From s (f b) Q)
      → From s (elim o [ none ↦ n | some b ↦ f b ]) Q
  option_from none k l = record { at = (k refl).at }
  option_from (some b) k l = record { at = (l b refl).at }

module _ {A B : Type 0} where
  -- A part whose exceptions all become one.
  pub guarded_then_lem :
      {s : State} (m : Exec A) (x : Failure) (f : A → Exec B) {Q : B → State → Type 0}
      → ((a : A) (t : State) → m s ≡ done a t → From t (f a) Q)
      → From s (catch m (λ _. throw x) >>= f) Q
  guarded_then_lem {s} m x f {Q} k = record { at = λ b s' e. settle (m s) b s' e (λ a t h. h) }
    where
      settle :
          (r : Outcome A) (b : B) (s' : State)
          → continue (recover r (λ _. throw x)) f ≡ done b s'
          → ((a : A) (t : State) → r ≡ done a t → m s ≡ done a t)
          → Q b s'
      settle (done a t) b s' e back = (k a t (back a t refl)).at b s' e
      settle (fail y t) b s' e back = absurd (cc)

pub now_done :
    (h : Host) (s : State) (t : ℕ) (s' : State)
    → now h s ≡ done t s'
    → (t ≡ h.clock s.step) × (s' ≡ record { store = s.store; step = s.step + 1 })
unfolding now
now_done h s t s' e = (ground arith, ground arith)

pub write_done :
    (h : Host) (q : Store → Store) (s : State) (u : Unit {0}) (s' : State)
    → write h q s ≡ done u s'
    → s'.store ≡ q (h.others s.step s.store)
unfolding write
write_done h q s u s' e =
    let (written, _) = statement_done h (λ _ st. some (tt, q st)) s u s' e in ground arith

module _ {A : Type 0} where
  -- A part, or what its handler makes of the exception.
  pub catch_from :
      {s : State} (m : Exec A) (f : Failure → Exec A) {Q : A → State → Type 0}
      → From s m Q
      → ((x : Failure) (t : State) → From t (f x) Q)
      → From s (catch m f) Q
  catch_from {s} m f {Q} k l = record { at = λ a s' e. settle (m s) a s' e (λ b t h. h) }
    where
      settle :
          (r : Outcome A) (a : A) (s' : State)
          → recover r f ≡ done a s'
          → ((b : A) (t : State) → r ≡ done b t → m s ≡ done b t)
          → Q a s'
      settle (done b t) a s' e back = k.at a s' (back a s' e)
      settle (fail x t) a s' e back = (l x t).at a s' e

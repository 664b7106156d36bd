-- ===== src/Tenancy/Rows.antt =====
-- Rows with an id and a client: what holds of each is kept by the list operations, and a check of
-- ids is complete.
use identity_platform.Prelude.{
  ℕ, Bool, true, false, ◌&&◌, Option, some, List, [], ◌∷◌, ◌++◌, map, select, update, find, any,
  length, ◌==◌, ==_iff, ◌≡◌, refl, ◌∙◌, arith, if◌then◌else◌, All, and-eq-true, find_sound, subst,
  Bool-cases, inl, inr,
}
use identity_platform.Admin.{has_id, distinct}
use identity_platform.Admin.Ids.{unique, has_id-distinct, pigeonhole}

module _ {A : Type 0} (P : A → Type 0) where
  pub All-append : (xs : List A) (x : A) → All P xs → P x → All P (xs ++ x ∷ [])
  All-append [] x h hx = (hx, tt)
  All-append (y ∷ xs) x h hx = (h.0, All-append xs x h.1 hx)

  keep_if :
      (b : Bool) (x : A) (rest : List A) → P x → All P rest → All P (if b then x ∷ rest else rest)
  keep_if true x rest hx h = (hx, h)
  keep_if false x rest hx h = h

  pub All-select : (p : A → Bool) (xs : List A) → All P xs → All P (select p xs)
  All-select p [] h = tt
  All-select p (x ∷ xs) h = keep_if (p x) x (select p xs) h.0 (All-select p xs h.1)

  change_if : (b : Bool) (x y : A) → P x → P y → P (if b then y else x)
  change_if true x y hx hy = hy
  change_if false x y hx hy = hx

  pub All-update :
      (p : A → Bool) (f : A → A) (xs : List A)
      → ((x : A) → P x → P (f x))
      → All P xs
      → All P (update p f xs)
  All-update p f [] keeps h = tt
  All-update p f (x ∷ xs) keeps h =
      (change_if (p x) x (f x) h.0 (keeps x h.0), All-update p f xs keeps h.1)

  found_if :
      (b : Bool) (y x : A) (o : Option A)
      → P y
      → (o ≡ some x → P x)
      → (if b then some y else o) ≡ some x
      → P x
  found_if true y x o hy k e = subst P (ground arith) hy
  found_if false y x o hy k e = k e

  pub find-All : (p : A → Bool) (xs : List A) (x : A) → find p xs ≡ some x → All P xs → P x
  find-All p [] x e h = absurd (cc)
  find-All p (y ∷ ys) x e h = found_if (p y) y x (find p ys) h.0 (λ e'. find-All p ys x e' h.1) e

module _ {A : Type 0} (id : A → ℕ) where
  any-has_id : (i : ℕ) (xs : List A) → any (λ x. id x == i) xs ≡ has_id (map id xs) i
  any-has_id i [] = refl
  any-has_id i (x ∷ xs) = ground (arith, any-has_id i xs)

  has_id-append :
      (i : ℕ) (xs : List A) (x : A)
      → has_id (map id xs) i ≡ false
      → (id x == i) ≡ false
      → has_id (map id (xs ++ x ∷ [])) i ≡ false
  has_id-append i [] x h hx = ground arith
  has_id-append i (y ∷ xs) x h hx = ground (arith, has_id-append i xs x)

  pub unique-append :
      (xs : List A) (x : A)
      → unique (map id xs) ≡ true
      → has_id (map id xs) (id x) ≡ false
      → unique (map id (xs ++ x ∷ [])) ≡ true
  unique-append [] x u h = refl
  unique-append (y ∷ xs) x u h = ground (
    arith,
    ==_iff (id x) (id y),
    ==_iff (id y) (id x),
    has_id-append (id y) xs x,
    unique-append xs x,
  )

  has_id-select :
      (p : A → Bool) (i : ℕ) (xs : List A)
      → has_id (map id (select p xs)) i ≡ true
      → has_id (map id xs) i ≡ true
  has_id-select p i [] h = h
  has_id-select p i (x ∷ xs) h = ground (arith, has_id-select p i xs)

  pub unique-select :
      (p : A → Bool) (xs : List A)
      → unique (map id xs) ≡ true
      → unique (map id (select p xs)) ≡ true
  unique-select p [] u = refl
  unique-select p (x ∷ xs) u = ground (arith, unique-select p xs, has_id-select p (id x) xs)

  length-map : (xs : List A) → length (map id xs) ≡ length xs
  length-map [] = refl
  length-map (x ∷ xs) = ground (arith, length-map xs)

  module _ (client : A → ℕ) (owner : ℕ → ℕ) (ids : List ℕ) (c : ℕ) where
    abbrev is_owned : A → Bool
    is_owned x = has_id ids (id x) && client x == c

    owned_inside :
        (i : ℕ) (xs : List A) → has_id (map id (select is_owned xs)) i ≡ true → has_id ids i ≡ true
    owned_inside i [] h = cc
    owned_inside i (x ∷ xs) h = elim (Bool-cases (is_owned x)) [
      | inl mine ↦ elim (Bool-cases (id x == i)) [
        | inl same ↦
            subst (λ j. has_id ids j ≡ true) ((==_iff (id x) i).0 same)
              (and-eq-true (has_id ids (id x)) (client x == c) mine).0
        | inr other ↦ owned_inside i xs (ground arith)
      ]
      | inr foreign ↦ owned_inside i xs (ground arith)
    ]

    owned_owner :
        (i : ℕ) (xs : List A)
        → All (λ x. owner (id x) ≡ client x) xs
        → has_id (map id (select is_owned xs)) i ≡ true
        → owner i ≡ c
    owned_owner i [] all h = absurd (cc)
    owned_owner i (x ∷ xs) all h = elim (Bool-cases (is_owned x)) [
      | inl mine ↦ elim (Bool-cases (id x == i)) [
        | inl same ↦
            subst (λ j. owner j ≡ c) ((==_iff (id x) i).0 same)
              (all.0
                ∙ (==_iff (client x) c).0 (and-eq-true (has_id ids (id x)) (client x == c) mine).1)
        | inr other ↦ owned_owner i xs all.1 (ground arith)
      ]
      | inr foreign ↦ owned_owner i xs all.1 (ground arith)
    ]

    -- Where the check passes, every id is of a row of the client.
    pub owned_complete :
        (xs : List A)
        → unique (map id xs) ≡ true
        → All (λ x. owner (id x) ≡ client x) xs
        → (length (select (λ x. has_id ids (id x) && client x == c) xs) == length (distinct ids))
          ≡ true
        → (i : ℕ) → has_id ids i ≡ true
        → owner i ≡ c
    owned_complete xs u all passed i h = owned_owner i xs all (
        pigeonhole (map id (select is_owned xs)) (distinct ids) (unique-select is_owned xs u)
          (λ j hj. has_id-distinct j ids ∙ owned_inside j xs hj)
          (ground (arith, length-map (select is_owned xs))) i (has_id-distinct i ids ∙ h))

  -- A row that is found by its id and the client.
  pub found_owner :
      (client : A → ℕ) (owner : ℕ → ℕ) (i c : ℕ) (xs : List A) (x : A)
      → All (λ x. owner (id x) ≡ client x) xs
      → find (λ x. id x == i && client x == c) xs ≡ some x
      → owner i ≡ c
  found_owner client owner i c xs x all e =
      let (same, mine) = and-eq-true (id x == i) (client x == c) (find_sound _ xs x e) in
      subst (λ j. owner j ≡ c) ((==_iff (id x) i).0 same)
        (find-All (λ x. owner (id x) ≡ client x) _ xs x e all ∙ (==_iff (client x) c).0 mine)

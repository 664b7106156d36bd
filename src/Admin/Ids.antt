-- ===== src/Admin/Ids.antt =====
-- The test that the routes make of a list of ids: as many rows of the client have one of them as
-- there are different ones (`owned.length !== new Set(ids).size`).
use identity_platform.Prelude.{
  ℕ, ◌+◌, ◌≤◌, Bool, true, false, ◌&&◌, List, [], ◌∷◌, select, length, ◌==◌, ==_iff, ◌≡◌, refl,
  arith, if◌then◌else◌,
}
use identity_platform.Admin.{has_id, distinct}

abbrev pub unique : List ℕ → Bool
unique [] = true
unique (x ∷ xs) = let rest = unique xs in (if has_id xs x then false else true) && rest

-- The list without an id.
abbrev pub without : ℕ → List ℕ → List ℕ
without x xs = select (λ i. if i == x then false else true) xs

pub has_id-without :
    (x y : ℕ) (xs : List ℕ)
    → has_id (without x xs) y ≡ (has_id xs y && (if y == x then false else true))
has_id-without x y [] = refl
has_id-without x y (z ∷ xs) = ground (arith, has_id-without x y xs)

pub length-select_le : {A : Type 0} (p : A → Bool) (xs : List A) → length (select p xs) ≤ length xs
length-select_le p [] = omega arith
length-select_le p (x ∷ xs) = ground (arith, length-select_le p xs)

length-without_lt :
    (x : ℕ) (xs : List ℕ) → has_id xs x ≡ true → length (without x xs) + 1 ≤ length xs
length-without_lt x [] h = cc
length-without_lt x (y ∷ xs) h =
    ground
      (arith, length-without_lt x xs, length-select_le (λ i. if i == x then false else true) xs)

pub has_id-distinct : (y : ℕ) (xs : List ℕ) → has_id (distinct xs) y ≡ has_id xs y
has_id-distinct y [] = refl
has_id-distinct y (x ∷ xs) = ground (arith, has_id-without x y (distinct xs), has_id-distinct y xs)

-- As many different ids as a list that holds them all has entries: they are its entries.
pub pigeonhole :
    (xs ys : List ℕ)
    → unique xs ≡ true
    → ((i : ℕ) → has_id xs i ≡ true → has_id ys i ≡ true)
    → length ys ≤ length xs
    → (i : ℕ) → has_id ys i ≡ true
    → has_id xs i ≡ true
pigeonhole [] [] u inside fits i h = h
pigeonhole [] (y ∷ ys) u inside fits i h = absurd (omega (arith, fits))
pigeonhole (x ∷ xs) ys u inside fits i h = ground (
  arith,
  ==_iff i x,
  ==_iff x i,
  has_id-without x i ys,
  pigeonhole xs (without x ys) (ground arith)
      (λ j hj. ground (arith, inside j, has_id-without x j ys, fresh j hj))
      (omega (arith, fits, length-without_lt x ys (inside x (ground arith)))) i,
)
  where
    fresh : (j : ℕ) → has_id xs j ≡ true → (j == x) ≡ false
    fresh j hj = ground (arith, ==_iff j x)

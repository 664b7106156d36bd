-- ===== src/Sessions/Listing.antt =====
-- routes/sessions.ts: the order of a listing, and that nothing is lost or made up.
use identity_platform.Prelude.{
  ℕ, ◌≤◌, Bool, List, [], ◌∷◌, ◌≡◌, refl, arith, count, All, leb, Bool-cases, inl, inr,
}
use identity_platform.Schema.{RefreshToken}
use identity_platform.Sessions.{insert_by_age, newest_first}

-- Each is created no earlier than all that follow.
abbrev pub IsNewestFirst : List RefreshToken → Type 0
IsNewestFirst [] = Unit {0}
IsNewestFirst (t ∷ ts) = All (λ u. u.created_at ≤ t.created_at) ts × IsNewestFirst ts

count-insert_by_age :
    (q : RefreshToken → Bool) (t : RefreshToken) (ts : List RefreshToken)
    → count q (insert_by_age t ts) ≡ count q (t ∷ ts)
unfolding insert_by_age
count-insert_by_age q t [] = refl
count-insert_by_age q t (u ∷ us) = ground (arith, count-insert_by_age q t us)

All-insert_by_age :
    (P : RefreshToken → Type 0) (t : RefreshToken) (ts : List RefreshToken)
    → P t
    → All P ts
    → All P (insert_by_age t ts)
unfolding insert_by_age
All-insert_by_age P t [] p _ = (p, tt)
All-insert_by_age P t (u ∷ us) p (pu, ps) = elim (Bool-cases (leb u.created_at t.created_at)) [
  | inl older ↦ rw older (p, (pu, ps))
  | inr newer ↦ rw newer (pu, All-insert_by_age P t us p ps)
]

All-older :
    (a b : ℕ) (ts : List RefreshToken)
    → a ≤ b
    → All (λ u. u.created_at ≤ a) ts
    → All (λ u. u.created_at ≤ b) ts
All-older a b [] h _ = tt
All-older a b (t ∷ ts) h (p, ps) = (omega (arith, p, h), All-older a b ts h ps)

insert_by_age-IsNewestFirst :
    (t : RefreshToken) (ts : List RefreshToken)
    → IsNewestFirst ts
    → IsNewestFirst (insert_by_age t ts)
unfolding insert_by_age
insert_by_age-IsNewestFirst t [] _ = (tt, tt)
insert_by_age-IsNewestFirst t (u ∷ us) (below, sorted) =
    elim (Bool-cases (leb u.created_at t.created_at)) [
      | inl older ↦
          let le : u.created_at ≤ t.created_at = ground (arith, older) in
          rw older ((le, All-older u.created_at t.created_at us le below), (below, sorted))
      | inr newer ↦
          let le : t.created_at ≤ u.created_at = ground (arith, newer) in
          rw newer (
            All-insert_by_age (λ x. x.created_at ≤ u.created_at) t us le below,
            insert_by_age-IsNewestFirst t us sorted,
          )
    ]

-- `GET /sessions` lists the rows that its query selects from the newest to the oldest, each as often
-- as it is there.
newest_first_lem :
    (ts : List RefreshToken)
    → IsNewestFirst (newest_first ts)
      × ((q : RefreshToken → Bool) → count q (newest_first ts) ≡ count q ts)
unfolding newest_first
newest_first_lem [] = (tt, λ q. refl)
newest_first_lem (t ∷ ts) =
    let (sorted, same) = newest_first_lem ts in
    (
      insert_by_age-IsNewestFirst t (newest_first ts) sorted,
      λ q. ground (arith, count-insert_by_age q t (newest_first ts), same q),
    )

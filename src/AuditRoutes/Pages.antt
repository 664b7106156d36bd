-- ===== src/AuditRoutes/Pages.antt =====
-- routes/audit.ts: what a page of the audit log shows, and what the next one goes on with.
use identity_platform.Prelude.{
  ℕ, ◌-◌, ◌≤◌, ◌<◌, Bool, true, false, ◌&&◌, List, [], ◌∷◌, select, count, length, leb, ◌==◌, ◌≡◌,
  refl, ap, ◌∙◌, arith, All, if◌then◌else◌, Bool-cases, inl, inr,
}
use identity_platform.Schema.{AuditLog, Store}
use identity_platform.AuditRoutes.{
  AuditQuery, limit_of, matches, is_before, insert_newest, latest_first, take, page_rows,
}

-- No entry is newer than one before it.
abbrev pub IsDescending : List AuditLog → Type 0
IsDescending [] = Unit
IsDescending (a ∷ rest) = All (λ b. b.created_at ≤ a.created_at) rest × IsDescending rest

insert_bound :
    (t : ℕ) (a : AuditLog) (xs : List AuditLog)
    → a.created_at ≤ t
    → All (λ b. b.created_at ≤ t) xs
    → All (λ b. b.created_at ≤ t) (insert_newest a xs)
unfolding insert_newest
insert_bound t a [] ha h = (ha, tt)
insert_bound t a (b ∷ bs) ha h = elim (Bool-cases (leb b.created_at a.created_at)) [
  | inl le ↦ rw le (ha, h)
  | inr gt ↦ rw gt (h.0, insert_bound t a bs ha h.1)
]

weaken_bound :
    (t u : ℕ) (xs : List AuditLog)
    → t ≤ u
    → All (λ b. b.created_at ≤ t) xs
    → All (λ b. b.created_at ≤ u) xs
weaken_bound t u [] le h = tt
weaken_bound t u (x ∷ xs) le h = (omega (arith, h.0, le), weaken_bound t u xs le h.1)

insert_newest-IsDescending :
    (a : AuditLog) (xs : List AuditLog) → IsDescending xs → IsDescending (insert_newest a xs)
unfolding insert_newest
insert_newest-IsDescending a [] d = (tt, tt)
insert_newest-IsDescending a (b ∷ bs) d = elim (Bool-cases (leb b.created_at a.created_at)) [
  | inl le ↦ rw le ((ground arith, weaken_bound b.created_at a.created_at bs (ground arith) d.0), d)
  | inr gt ↦
      rw gt (insert_bound b.created_at a bs (ground arith) d.0, insert_newest-IsDescending a bs d.1)
]

pub latest_first-IsDescending : (xs : List AuditLog) → IsDescending (latest_first xs)
unfolding latest_first
latest_first-IsDescending [] = tt
latest_first-IsDescending (x ∷ xs) =
    insert_newest-IsDescending x (latest_first xs) (latest_first-IsDescending xs)

count-insert_newest :
    (p : AuditLog → Bool) (a : AuditLog) (xs : List AuditLog)
    → count p (insert_newest a xs) ≡ count p (a ∷ xs)
unfolding insert_newest
count-insert_newest p a [] = refl
count-insert_newest p a (b ∷ bs) = ground (arith, count-insert_newest p a bs)

pub count-latest_first :
    (p : AuditLog → Bool) (xs : List AuditLog) → count p (latest_first xs) ≡ count p xs
unfolding latest_first
count-latest_first p [] = refl
count-latest_first p (x ∷ xs) =
    omega (arith, count-insert_newest p x (latest_first xs), count-latest_first p xs)

pub count-select :
    (p q : AuditLog → Bool) (xs : List AuditLog)
    → count p (select q xs) ≡ count (λ a. q a && p a) xs
count-select p q [] = refl
count-select p q (x ∷ xs) = ground (arith, count-select p q xs)

pub take-IsDescending : (n : ℕ) (xs : List AuditLog) → IsDescending xs → IsDescending (take n xs)
take-IsDescending n [] d = tt
take-IsDescending n (x ∷ xs) d = elim (Bool-cases (n == 0)) [
  | inl zero ↦ rw zero tt
  | inr more ↦ rw more (take_bound (n - 1) xs d.0, take-IsDescending (n - 1) xs d.1)
]
  where
    take_bound :
        (n : ℕ) (ys : List AuditLog)
        → All (λ b. b.created_at ≤ x.created_at) ys
        → All (λ b. b.created_at ≤ x.created_at) (take n ys)
    take_bound n [] h = tt
    take_bound n (y ∷ ys) h = elim (Bool-cases (n == 0)) [
      | inl zero ↦ rw zero tt
      | inr more ↦ rw more (h.0, take_bound (n - 1) ys h.1)
    ]

length-take_le : (n : ℕ) (xs : List AuditLog) → length (take n xs) ≤ n
length-take_le n [] = omega arith
length-take_le n (x ∷ xs) = ground (arith, length-take_le (n - 1) xs)

pub count-take_le :
    (p : AuditLog → Bool) (n : ℕ) (xs : List AuditLog) → count p (take n xs) ≤ count p xs
count-take_le p n [] = omega arith
count-take_le p n (x ∷ xs) = ground (arith, count-take_le p (n - 1) xs)

take_all : (n : ℕ) (xs : List AuditLog) → length (take n xs) < n → take n xs ≡ xs
take_all n [] h = refl
take_all n (x ∷ xs) h = ground (arith, take_all (n - 1) xs)

All-of_count :
    (p : AuditLog → Bool) (xs : List AuditLog)
    → count (λ a. if p a then false else true) xs ≡ 0
    → All (λ a. p a ≡ true) xs
All-of_count p [] h = tt
All-of_count p (x ∷ xs) h = (ground arith, All-of_count p xs (ground arith))

count_refused :
    (p : AuditLog → Bool) (xs : List AuditLog)
    → count (λ a. p a && (if p a then false else true)) xs ≡ 0
count_refused p [] = refl
count_refused p (x ∷ xs) = ground (arith, count_refused p xs)

-- The entries that the query asks for, in any order.
abbrev pub is_shown : ℕ → AuditQuery → AuditLog → Bool
is_shown c q a = matches c q a && is_before q.before a.created_at

abbrev pub shown : ℕ → AuditQuery → Store → List AuditLog
shown c q st = select (is_shown c q) st.audit_logs

page_shown :
    (c : ℕ) (q : AuditQuery) (st : Store) → All (λ a. is_shown c q a ≡ true) (page_rows c q st)
unfolding page_rows
page_shown c q st =
    let sorted = latest_first (shown c q st) in
    All-of_count (is_shown c q) (page_rows c q st) (
      omega (
        arith,
        count-take_le (λ a. if is_shown c q a then false else true) (limit_of q) sorted,
        count-latest_first (λ a. if is_shown c q a then false else true) (shown c q st),
        count-select (λ a. if is_shown c q a then false else true) (is_shown c q) st.audit_logs,
        count_refused (is_shown c q) st.audit_logs,
      ))

-- A page has at most `limit` entries, each of them of the client, within the query's conditions and
-- strictly older than its cursor, and shows the newest first. One that is not full shows every such
-- entry there is.
pub page_rows_lem :
    (c : ℕ) (q : AuditQuery) (st : Store)
    → (length (page_rows c q st) ≤ limit_of q)
      × All (λ a. is_shown c q a ≡ true) (page_rows c q st)
      × IsDescending (page_rows c q st)
      × (length (page_rows c q st) < limit_of q
          → (p : AuditLog → Bool) → count p (page_rows c q st) ≡ count p (shown c q st))
unfolding page_rows
page_rows_lem c q st =
    let sorted = latest_first (shown c q st) in
    (
      length-take_le (limit_of q) sorted,
      page_shown c q st,
      take-IsDescending (limit_of q) sorted (latest_first-IsDescending (shown c q st)),
      λ short p.
          ap (count p) (take_all (limit_of q) sorted short) ∙ count-latest_first p (shown c q st),
    )

-- ===== src/AuditRoutes/Walk.antt =====
-- routes/audit.ts: a client that passes `nextBefore` as `before` reads the log to its end.
use identity_platform.Prelude.{
  ℕ, zero, suc, ◌+◌, ◌-◌, ◌≤◌, ◌<◌, Bool, true, false, ◌&&◌, Option, none, some, List, [], ◌∷◌,
  ◌++◌, count, count-append, length, ltb, ◌==◌, ==_iff, ◌≡◌, ◌⊎◌, refl, sym, ap, subst, ◌∙◌, arith,
  All, if◌then◌else◌, Bool-cases, Option-cases, inl, inr, and-eq-true,
}
use identity_platform.Schema.{AuditLog, Store}
use identity_platform.AuditRoutes.{
  AuditQuery, limit_of, matches, is_before, latest_first, take, last_time, page_rows, page_of,
}
use identity_platform.AuditRoutes.Pages.{
  IsDescending, latest_first-IsDescending, take-IsDescending, count-latest_first, count-select,
  count-take_le, is_shown, shown, page_rows_lem,
}

module _ (t : ℕ) (p : AuditLog → Bool) where
  abbrev newer : AuditLog → Bool
  newer a = p a && ltb t a.created_at

  abbrev pub same_time : AuditLog → Bool
  same_time a = p a && a.created_at == t

  abbrev older : AuditLog → Bool
  older a = p a && ltb a.created_at t

  none_newer : (xs : List AuditLog) → All (λ a. a.created_at ≤ t) xs → count newer xs ≡ 0
  none_newer [] h = refl
  none_newer (x ∷ xs) h = ground (arith, h.0, none_newer xs h.1)

  split_times :
      (xs : List AuditLog) → count p xs ≡ count newer xs + count same_time xs + count older xs
  split_times [] = refl
  split_times (x ∷ xs) = ground (arith, split_times xs)

  none_older : (xs : List AuditLog) → All (λ a. t ≤ a.created_at) xs → count older xs ≡ 0
  none_older [] h = refl
  none_older (x ∷ xs) h = ground (arith, h.0, none_older xs h.1)

  oldest :
      (xs : List AuditLog)
      → IsDescending xs
      → last_time xs ≡ some t
      → All (λ a. t ≤ a.created_at) xs
  oldest [] d e = absurd (cc)
  oldest (a ∷ []) d e = (ground arith, tt)
  oldest (a ∷ b ∷ rest) d e =
      let later = oldest (b ∷ rest) d.1 e in (omega (arith, later.0, d.0.0), later)

  newer_cons :
      (n : ℕ) (a : AuditLog) (xs : List AuditLog)
      → IsDescending (a ∷ xs)
      → last_time (a ∷ take n xs) ≡ some t
      → count newer (a ∷ take n xs) ≡ count newer (a ∷ xs)
  newer_cons n a [] d e = refl
  newer_cons n a (b ∷ bs) d e = elim (Bool-cases (n == 0)) [
    | inl last ↦
        let is_last : a.created_at ≡ t = ground (arith, rw last at e) in
        rw
          (
            last,
            none_newer (b ∷ bs) (subst (λ u. All (λ x. x.created_at ≤ u) (b ∷ bs)) is_last d.0),
          )
          refl
    | inr more ↦
        rw more
          (ap (λ k. (if newer a then 1 else 0) + k) (newer_cons (n - 1) b bs d.1 (rw more at e)))
  ]

  -- All entries newer than the last one of the page are on it.
  newer-take :
      (n : ℕ) (xs : List AuditLog)
      → IsDescending xs
      → last_time (take n xs) ≡ some t
      → count newer (take n xs) ≡ count newer xs
  newer-take n [] d e = refl
  newer-take n (a ∷ xs) d e = elim (Bool-cases (n == 0)) [
    | inl none_taken ↦ absurd (cc (rw none_taken at e))
    | inr more ↦ rw more (newer_cons (n - 1) a xs d (rw more at e))
  ]

last_one :
    (b : Option ℕ) (c : ℕ) (q : AuditQuery) (t : ℕ) (xs : List AuditLog)
    → All (λ a. (matches c q a && is_before b a.created_at) ≡ true) xs
    → last_time xs ≡ some t
    → is_before b t ≡ true
last_one b c q t [] h e = absurd (cc)
last_one b c q t (a ∷ []) h e =
    let is_last : a.created_at ≡ t = ground arith in
    subst (λ u. is_before b u ≡ true) is_last
      (and-eq-true (matches c q a) (is_before b a.created_at) h.0).1
last_one b c q t (a ∷ x ∷ xs) h e = last_one b c q t (x ∷ xs) h.1 e

before_older :
    (b : Option ℕ) (t u : ℕ) → is_before b t ≡ true → ltb u t ≡ true → is_before b u ≡ true
before_older none t u h lt = refl
before_older (some v) t u h lt = ground arith

count-same :
    (p q : AuditLog → Bool) (xs : List AuditLog)
    → ((a : AuditLog) → p a ≡ q a)
    → count p xs ≡ count q xs
count-same p q [] h = refl
count-same p q (x ∷ xs) h = ground (arith, h x, count-same p q xs h)

-- The query of the next page.
abbrev pub next_query : AuditQuery → ℕ → AuditQuery
next_query q t = record q { before = some t }

module _ (c : ℕ) (q : AuditQuery) (st : Store) (t : ℕ) where
  next_shown :
      (p : AuditLog → Bool)
      → is_before q.before t ≡ true
      → count (older t p) (shown c q st) ≡ count p (shown c (next_query q t) st)
  next_shown p before =
      count-select (older t p) (is_shown c q) st.audit_logs
      ∙ (count-same _ _ st.audit_logs (λ a. same a (before_older q.before t a.created_at before))
          ∙ sym (count-select p (is_shown c (next_query q t)) st.audit_logs))
    where
      same :
          (a : AuditLog)
          → (ltb a.created_at t ≡ true → is_before q.before a.created_at ≡ true)
          → (is_shown c q a && older t p a) ≡ (is_shown c (next_query q t) a && p a)
      same a k =
          by_test (matches c q a) (is_before q.before a.created_at) (p a) (ltb a.created_at t) k
        where
          by_test :
              (m b x l : Bool) → (l ≡ true → b ≡ true) → ((m && b) && (x && l)) ≡ ((m && l) && x)
          by_test m b x l k = ground (arith, k)

  -- What a page and the next one leave out are entries of the time between them.
  pub next_page :
      (p : AuditLog → Bool)
      → last_time (page_rows c q st) ≡ some t
      → count p (page_rows c q st)
          + count p (shown c (next_query q t) st)
          + count (same_time t p) (shown c q st)
        ≡ count p (shown c q st) + count (same_time t p) (page_rows c q st)
  unfolding page_rows
  next_page p e =
      let all = shown c q st in
      let sorted = latest_first all in
      let down = latest_first-IsDescending all in
      let before = last_one q.before c q t (page_rows c q st) (page_rows_lem c q st).1 e in
      omega (
        arith,
        split_times t p (page_rows c q st),
        split_times t p all,
        none_older t p (page_rows c q st)
            (oldest t p (page_rows c q st) (take-IsDescending (limit_of q) sorted down) e),
        newer-take t p (limit_of q) sorted down e,
        count-latest_first (newer t p) all,
        next_shown p before,
      )

-- A client that asks for page after page, as long as there is a cursor; `none` is no end within so
-- many requests.
unfoldable pub walk : ℕ → ℕ → AuditQuery → Store → Option (List AuditLog)
walk zero c q st = none
walk (suc n) c q st =
    let page = page_of (limit_of q) (page_rows c q st) in
    elim page.next_before [
      | none ↦ some page.entries
      | some t ↦ elim (walk n c (next_query q t) st) [
        | none ↦ none
        | some rest ↦ some (page.entries ++ rest)
      ]
    ]

abbrev anything : AuditLog → Bool
anything a = true

count_anything : (xs : List AuditLog) → count anything xs ≡ length xs
count_anything [] = refl
count_anything (x ∷ xs) = omega (arith, count_anything xs)

count-take_part :
    (t : ℕ) (p : AuditLog → Bool) (c : ℕ) (q : AuditQuery) (st : Store)
    → count (same_time t p) (page_rows c q st) ≤ count (same_time t p) (shown c q st)
unfolding page_rows
count-take_part t p c q st = omega (
  arith,
  count-take_le (same_time t p) (limit_of q) (latest_first (shown c q st)),
  count-latest_first (same_time t p) (shown c q st),
)

-- No two entries that the query asks for have the same time.
abbrev pub IsSpread : ℕ → AuditQuery → Store → Type 0
IsSpread c q st = (t : ℕ) → count (same_time t anything) (shown c q st) ≤ 1

last_there :
    (t : ℕ) (xs : List AuditLog) → last_time xs ≡ some t → 1 ≤ count (same_time t anything) xs
last_there t [] e = absurd (cc)
last_there t (a ∷ []) e = ground arith
last_there t (a ∷ b ∷ xs) e = omega (arith, last_there t (b ∷ xs) e)

split_test :
    (t : ℕ) (p : AuditLog → Bool) (xs : List AuditLog)
    → count (same_time t anything) xs
      ≡ count (same_time t p) xs + count (same_time t (λ a. if p a then false else true)) xs
split_test t p [] = refl
split_test t p (x ∷ xs) = ground (arith, split_test t p xs)

page_cases :
    (limit : ℕ) (rows : List AuditLog)
    → 1 ≤ limit
    → ((page_of limit rows).next_before ≡ none) × ((length rows == limit) ≡ false)
      ⊎ (t : ℕ) × ((page_of limit rows).next_before ≡ some t)
        × (last_time rows ≡ some t)
        × (length rows ≡ limit)
unfolding page_of
page_cases limit rows le = elim (Bool-cases (length rows == limit)) [
  | inl full ↦ elim (Option-cases (last_time rows)) [
    | inl missing ↦
        absurd (omega (arith, le, last_none rows missing, (==_iff (length rows) limit).0 full))
    | inr (t, found) ↦ inr (t, rw full found, found, (==_iff (length rows) limit).0 full)
  ]
  | inr short ↦ inl (rw short refl, short)
]
  where
    last_none : (xs : List AuditLog) → last_time xs ≡ none → length xs ≡ 0
    last_none [] e = refl
    last_none (a ∷ []) e = absurd (cc)
    last_none (a ∷ b ∷ xs) e = absurd (omega (arith, last_none (b ∷ xs) e))

module _ (c : ℕ) (q : AuditQuery) (st : Store) (t : ℕ)
    (e : last_time (page_rows c q st) ≡ some t) where
  -- Every entry is on the page or left for the next one, or else it has the time of the cursor.
  no_repeat :
      (p : AuditLog → Bool)
      → count p (page_rows c q st) + count p (shown c (next_query q t) st) ≤ count p (shown c q st)
  no_repeat p = omega (arith, next_page c q st t p e, count-take_part t p c q st)

  next-IsSpread : IsSpread c q st → IsSpread c (next_query q t) st
  next-IsSpread spread u = omega (arith, no_repeat (same_time u anything), spread u)

  no_loss :
      (p : AuditLog → Bool)
      → IsSpread c q st
      → count p (page_rows c q st) + count p (shown c (next_query q t) st) ≡ count p (shown c q st)
  no_loss p spread = omega (
    arith,
    next_page c q st t p e,
    count-take_part t p c q st,
    count-take_part t (λ a. if p a then false else true) c q st,
    split_test t p (page_rows c q st),
    split_test t p (shown c q st),
    last_there t (page_rows c q st) e,
    spread t,
  )

page_entries : (limit : ℕ) (rows : List AuditLog) → (page_of limit rows).entries ≡ rows
unfolding page_of
page_entries limit rows = refl

module _ (n c : ℕ) (q : AuditQuery) (st : Store) where
  walk_ends :
      (page_of (limit_of q) (page_rows c q st)).next_before ≡ none
      → walk (suc n) c q st ≡ some (page_rows c q st)
  unfolding walk
  walk_ends ends = rw (ends, walk, page_entries (limit_of q) (page_rows c q st)) refl

  walk_goes :
      (t : ℕ) (rest : List AuditLog)
      → (page_of (limit_of q) (page_rows c q st)).next_before ≡ some t
      → walk n c (next_query q t) st ≡ some rest
      → walk (suc n) c q st ≡ some (page_rows c q st ++ rest)
  unfolding walk
  walk_goes t rest goes after =
      rw (goes, walk, after, page_entries (limit_of q) (page_rows c q st)) refl

-- A client that follows `nextBefore` reaches the last page: with at least one entry per page, after
-- at most one request more than there are entries that the query asks for. It reads no entry twice,
-- and where no two of these entries have the same time, it reads every one of them.
pub walk_lem :
    (n c : ℕ) (q : AuditQuery) (st : Store)
    → 1 ≤ limit_of q
    → length (shown c q st) < n
    → (entries : List AuditLog) × (walk n c q st ≡ some entries)
      × ((p : AuditLog → Bool) → count p entries ≤ count p (shown c q st))
      × (IsSpread c q st → (p : AuditLog → Bool) → count p entries ≡ count p (shown c q st))
walk_lem zero c q st le enough = absurd (omega (arith, enough))
walk_lem (suc n) c q st le enough = elim (page_cases (limit_of q) (page_rows c q st) le) [
  | inl (ends, short) ↦
      let (bounded, _, _, complete) = page_rows_lem c q st in
      let all =
        complete
          (ground (arith, short, bounded, ==_iff (length (page_rows c q st)) (limit_of q))) in
      (page_rows c q st, walk_ends n c q st ends, λ p. omega (arith, all p), λ spread p. all p)
  | inr (t, goes, last, full) ↦
      let (rest, walked, once, every) = walk_lem n c (next_query q t) st le (
        omega (
          arith,
          enough,
          le,
          full,
          no_repeat c q st t last anything,
          count_anything (page_rows c q st),
          count_anything (shown c q st),
          count_anything (shown c (next_query q t) st),
        )) in
      (
        page_rows c q st ++ rest,
        walk_goes n c q st t rest goes walked,
        λ p.
            omega
              (arith, count-append p (page_rows c q st) rest, once p, no_repeat c q st t last p),
        λ spread p. omega (
          arith,
          count-append p (page_rows c q st) rest,
          every (next-IsSpread c q st t last spread) p,
          no_loss c q st t last p spread,
        ),
      )
]

-- ===== src/Adoption/Guard.antt =====
-- db/adoption.ts: which databases `npm run db:migrate` accepts.
use identity_platform.Prelude.{
  ℕ, zero, suc, Bool, true, false, Option, none, some, List, [], ◌∷◌, map, length, ltb, ◌==◌,
  get_or, ◌≡◌, refl, sym, ◌∙◌, ap, arith, ◌↔◌, ◌⊎◌, All, ==_refl, ==_iff, Bool-cases, Option-cases,
  inl, inr,
}
use identity_platform.Adoption.{
  MigrationMarker, MigrationRow, RecordedRow, MigrationsFolder, Database, Refusal, returned,
  or_refuse, refuse_if, refuse_mismatch, leading, probe_exists, prefix_from, load_migration_rows,
  in_time, insert_recorded, find_mismatch, migration_markers, assert_journal_matches_schema_prefix,
  no_journal_table, unmanaged_database, incomplete_journal, journal_ahead, assert_safe_to_migrate,
  database_is_populated,
}
use identity_platform.Adoption.Baseline.{
  >>=_returned, or_refuse-returned, ltb_irrefl, load_migration_rows-length,
}

-- The objects of the first `n` markers are there, and those of no later one.
abbrev pub IsReflected : Database → ℕ → List MigrationMarker → Type 0
IsReflected db zero ms = All (λ m. probe_exists db m.probe ≡ false) ms
IsReflected db (suc n) [] = ⊥
IsReflected db (suc n) (m ∷ ms) = (probe_exists db m.probe ≡ true) × IsReflected db n ms

-- Row by row, the journal has what the files say.
abbrev pub Agree : List MigrationRow → List RecordedRow → Type 0
Agree [] [] = Unit
Agree [] (r ∷ rs) = ⊥
Agree (row ∷ rows) [] = ⊥
Agree (row ∷ rows) (r ∷ rs) =
    (r.hash ≡ row.hash) × (get_or r.created_at 0 ≡ row.when) × Agree rows rs

module _ (db : Database) where
  prefix_ended :
      (ms : List MigrationMarker) (n : ℕ)
      → (prefix_from db true ms ≡ returned n) ↔ ((n ≡ 0) × IsReflected db 0 ms)
  unfolding prefix_from
  prefix_ended [] n = ((λ e. (cc e, tt)), λ (z, _). ap returned (sym z))
  prefix_ended (m ∷ ms) n = elim (Bool-cases (probe_exists db m.probe)) [
    | inl here ↦ (λ e. absurd (cc (rw here at e)), λ (_, (gone, _)). absurd (cc (sym here ∙ gone)))
    | inr gone ↦
        let (to, from) = prefix_ended ms n in
        (
          λ e. let (z, absent) = to (rw gone at e) in (z, (gone, absent)),
          λ (z, (_, absent)). rw gone (from (z, absent)),
        )
  ]

  prefix_from_iff :
      (ms : List MigrationMarker) (n : ℕ)
      → (prefix_from db false ms ≡ returned n) ↔ IsReflected db n ms
  unfolding prefix_from
  prefix_from_iff [] zero = (λ e. tt, λ _. refl)
  prefix_from_iff [] (suc n) = (λ e. absurd (cc), λ no. absurd no)
  prefix_from_iff (m ∷ ms) zero = elim (Bool-cases (probe_exists db m.probe)) [
    | inl here ↦ (
      λ e.
          let (k, _, is) =
            >>=_returned (prefix_from db false ms) (λ n. returned (suc n)) 0 (rw here at e) in
          absurd (cc is),
      λ (gone, _). absurd (cc (sym here ∙ gone)),
    )
    | inr gone ↦
        let (to, from) = prefix_ended ms 0 in
        (λ e. (gone, (to (rw gone at e)).1), λ (_, absent). rw gone (from (refl, absent)))
  ]
  prefix_from_iff (m ∷ ms) (suc n) = elim (Bool-cases (probe_exists db m.probe)) [
    | inl here ↦
        let (to, from) = prefix_from_iff ms n in
        (
          λ e.
              let (k, runs, is) =
                >>=_returned (prefix_from db false ms) (λ n. returned (suc n)) (suc n)
                  (rw here at e) in
              let same : suc k ≡ suc n = cc is in
              (here, to (runs ∙ ap returned (omega (arith, same)))),
          λ (_, later). rw (here, from later) refl,
        )
    | inr gone ↦ (
      λ e. absurd (cc ((prefix_ended ms (suc n)).0 (rw gone at e)).0),
      λ (here, _). absurd (cc (sym here ∙ gone)),
    )
  ]

insert_recorded-length :
    (r : RecordedRow) (rs : List RecordedRow) → length (insert_recorded r rs) ≡ suc (length rs)
unfolding insert_recorded
insert_recorded-length r [] = refl
insert_recorded-length r (x ∷ xs) = ground (arith, insert_recorded-length r xs)

in_time-length : (rs : List RecordedRow) → length (in_time rs) ≡ length rs
unfolding in_time
in_time-length [] = refl
in_time-length (r ∷ rs) = insert_recorded-length r (in_time rs) ∙ ap suc (in_time-length rs)

find_mismatch_iff :
    (rows : List MigrationRow) (rs : List RecordedRow) (i : ℕ)
    → length rs ≡ length rows
    → (find_mismatch i rows rs ≡ none) ↔ Agree rows rs
unfolding find_mismatch
find_mismatch_iff [] [] i same = (λ _. tt, λ _. refl)
find_mismatch_iff [] (r ∷ rs) i same = absurd (omega (arith, same))
find_mismatch_iff (row ∷ rows) [] i same = absurd (omega (arith, same))
find_mismatch_iff (row ∷ rows) (r ∷ rs) i same =
    let (to, from) = find_mismatch_iff rows rs (suc i) (omega (arith, same)) in
    (
      λ e. elim (Bool-cases (r.hash == row.hash)) [
        | inl hash ↦ elim (Bool-cases (get_or r.created_at 0 == row.when)) [
          | inl time ↦ (
            (==_iff r.hash row.hash).0 hash,
            (==_iff (get_or r.created_at 0) row.when).0 time,
            to (rw (hash, time) at e),
          )
          | inr time ↦ absurd (cc (rw (hash, time) at e))
        ]
        | inr hash ↦ absurd (cc (rw hash at e))
      ],
      λ (hash, time, agree). rw (hash, time, ==_refl row.hash, ==_refl row.when, from agree) refl,
    )

-- What `npm run db:migrate` accepts.
abbrev pub IsAdopted : MigrationsFolder → Database → Type 0
IsAdopted folder db =
    (rows : List RecordedRow) × (n : ℕ) × (expected : List MigrationRow) × (db.journal ≡ some rows)
    × IsReflected db n migration_markers
    × (load_migration_rows folder (map (λ m. m.tag) (leading n migration_markers))
        ≡ returned expected)
    × Agree expected (in_time rows)

same_length : (a n : ℕ) → ltb a n ≡ false → ltb n a ≡ false → a ≡ n
same_length a n few many = ground (arith, few, many)

refuse_if-returned : (b : Bool) (refusal : Refusal) → refuse_if b refusal ≡ returned tt → b ≡ false
refuse_if-returned true refusal e = absurd (cc)
refuse_if-returned false refusal e = refl

refuse_mismatch-returned : (o : Option ℕ) → refuse_mismatch o ≡ returned tt → o ≡ none
refuse_mismatch-returned none e = refl
refuse_mismatch-returned (some i) e = absurd (cc)

Agree-length :
    (rows : List MigrationRow) (rs : List RecordedRow) → Agree rows rs → length rs ≡ length rows
Agree-length [] [] agree = refl
Agree-length [] (r ∷ rs) agree = absurd agree
Agree-length (row ∷ rows) [] agree = absurd agree
Agree-length (row ∷ rows) (r ∷ rs) (_, _, agree) = ap suc (Agree-length rows rs agree)

leading-length :
    (db : Database) (n : ℕ) (ms : List MigrationMarker)
    → IsReflected db n ms
    → length (map (λ m. m.tag) (leading n ms)) ≡ n
leading-length db zero ms r = refl
leading-length db (suc n) [] r = absurd r
leading-length db (suc n) (m ∷ ms) (_, r) = ap suc (leading-length db n ms r)

module _ (folder : MigrationsFolder) (db : Database) where
  expected_length :
      (n : ℕ) (expected : List MigrationRow)
      → IsReflected db n migration_markers
      → load_migration_rows folder (map (λ m. m.tag) (leading n migration_markers))
        ≡ returned expected
      → length expected ≡ n
  expected_length n expected reflected loaded =
      load_migration_rows-length folder (map (λ m. m.tag) (leading n migration_markers)) expected
        loaded
      ∙ leading-length db n migration_markers reflected

  accepted-IsAdopted :
      assert_journal_matches_schema_prefix folder db ≡ returned tt → IsAdopted folder db
  unfolding assert_journal_matches_schema_prefix
  accepted-IsAdopted e =
      let (n, counts, e1) = >>=_returned (prefix_from db false migration_markers) _ tt e in
      let (rows, read, e2) = >>=_returned (or_refuse db.journal no_journal_table) _ tt e1 in
      let (_, few, e3) =
        >>=_returned (refuse_if (ltb (length rows) n) (incomplete_journal (length rows) n)) _ tt
          e2 in
      let (_, many, e4) =
        >>=_returned (refuse_if (ltb n (length rows)) (journal_ahead (length rows) n)) _ tt e3 in
      let (expected, loaded, e5) =
        >>=_returned (load_migration_rows folder (map (λ m. m.tag) (leading n migration_markers))) _
          tt e4 in
      let reflected = (prefix_from_iff db migration_markers n).0 counts in
      let together : length rows ≡ length expected =
        same_length (length rows) n
          (refuse_if-returned (ltb (length rows) n) (incomplete_journal (length rows) n) few)
          (refuse_if-returned (ltb n (length rows)) (journal_ahead (length rows) n) many)
        ∙ sym (expected_length n expected reflected loaded) in
      (
        rows,
        n,
        expected,
        or_refuse-returned db.journal no_journal_table rows read,
        reflected,
        loaded,
        (find_mismatch_iff expected (in_time rows) 0 (in_time-length rows ∙ together)).0
            (refuse_mismatch-returned (find_mismatch 0 expected (in_time rows)) e5),
      )

  IsAdopted-accepted :
      IsAdopted folder db → assert_journal_matches_schema_prefix folder db ≡ returned tt
  unfolding assert_journal_matches_schema_prefix
  IsAdopted-accepted (rows, n, expected, journal, reflected, loaded, agree) =
      let counts = (prefix_from_iff db migration_markers n).1 reflected in
      let matches =
        (find_mismatch_iff expected (in_time rows) 0 (Agree-length expected (in_time rows) agree)).1
          agree in
      let same : length rows ≡ n =
        sym (in_time-length rows)
        ∙ (Agree-length expected (in_time rows) agree
            ∙ expected_length n expected reflected loaded) in
      simp (counts, journal, same, ltb_irrefl n, loaded, matches)

-- `npm run db:migrate` goes ahead exactly on a database without the table `clients` and without a
-- journal, or where the journal's rows, in the order of their times, are those that the files give
-- for the leading migrations whose objects are there, and no later migration's object is.
pub assert_safe_to_migrate_iff :
    (folder : MigrationsFolder) (db : Database)
    → (assert_safe_to_migrate folder db ≡ returned tt)
      ↔ (((db.journal ≡ none) × (database_is_populated db ≡ false)) ⊎ IsAdopted folder db)
unfolding assert_safe_to_migrate
assert_safe_to_migrate_iff folder db = (
  λ e. elim (Option-cases db.journal) [
    | inl fresh ↦
        inl (
          fresh,
          refuse_if-returned (database_is_populated db) unmanaged_database (simp fresh at e),
        )
    | inr (rows, present) ↦ inr (accepted-IsAdopted folder db (simp present at e))
  ],
  λ case_of. elim case_of [
    | inl (fresh, empty) ↦ simp (fresh, empty)
    | inr adopted ↦ simp (adopted.3, IsAdopted-accepted folder db adopted)
  ],
)

-- ===== src/Adoption/Baseline.antt =====
-- db/adoption.ts: the rows that are recorded for the detected migrations are those the check expects.
use identity_platform.Prelude.{
  ℕ, zero, suc, String, Bool, true, false, not, ◌&&◌, ◌||◌, Option, none, some, List, [], ◌∷◌, map,
  length, leb, ltb, get_or, ◌≡◌, refl, sym, ◌∙◌, ap, arith, ==_refl, Bool-cases, and-eq-true, inl,
  inr,
}
use identity_platform.Adoption.{
  MigrationMarker, JournalEntry, MigrationRow, RecordedRow, MigrationsFolder, Database, Refusal,
  Checked, returned, thrown, not_in_journal, unreadable_migration, ◌>>=◌, or_refuse, leading,
  probe_exists, applied_from, prefix_from, rows_of, entry_of, recorded, in_time, insert_recorded,
  find_mismatch, migration_markers, load_migration_rows, assert_journal_matches_schema_prefix,
  unreadable_journal,
}

pub >>=_returned :
    {A B : Type 0} (m : Checked A) (f : A → Checked B) (b : B)
    → (m >>= f) ≡ returned b
    → (a : A) × (m ≡ returned a) × (f a ≡ returned b)
>>=_returned (returned a) f b e = (a, refl, e)
>>=_returned (thrown x) f b e = absurd (cc)

pub ltb_irrefl : (n : ℕ) → ltb n n ≡ false
ltb_irrefl n = ground arith

pub or_refuse-returned :
    {A : Type 0} (o : Option A) (refusal : Refusal) (a : A)
    → or_refuse o refusal ≡ returned a
    → o ≡ some a
or_refuse-returned none refusal a e = absurd (cc)
or_refuse-returned (some b) refusal a e = cc e

returned_injective : {A : Type 0} {a b : A} → returned a ≡ returned b → a ≡ b
returned_injective e = cc e

module _ (db : Database) where
  -- The two loops see the same prefix.
  applied_from-prefix_from :
      (ms : List MigrationMarker) (ended : Bool) (tags : List String)
      → applied_from db ended ms ≡ returned tags
      → (prefix_from db ended ms ≡ returned (length tags))
        × (map (λ m. m.tag) (leading (length tags) ms) ≡ tags)
        × (ended ≡ true → tags ≡ [])
  unfolding applied_from prefix_from
  applied_from-prefix_from [] ended [] e = (refl, refl, λ _. refl)
  applied_from-prefix_from [] ended (x ∷ xs) e = absurd (cc)
  applied_from-prefix_from (m ∷ ms) true tags e = elim (Bool-cases (probe_exists db m.probe)) [
    | inl here ↦ absurd (cc (rw here at e))
    | inr absent ↦
        let (counts, same, nothing) = applied_from-prefix_from ms true tags (rw absent at e) in
        rw (absent, nothing refl) (rw (nothing refl) at counts, refl, λ _. refl)
  ]
  applied_from-prefix_from (m ∷ ms) false tags e = elim (Bool-cases (probe_exists db m.probe)) [
    | inl here ↦
        let (later, runs, is) =
          >>=_returned (applied_from db false ms) (λ ts. returned (m.tag ∷ ts)) tags
            (rw here at e) in
        let (counts, same, _) = applied_from-prefix_from ms false later runs in
        let tags_is = returned_injective is in
        rw (here, counts, sym tags_is) (refl, ap (λ ts. m.tag ∷ ts) same, λ no. absurd (cc))
    | inr absent ↦
        let (counts, same, nothing) = applied_from-prefix_from ms true tags (rw absent at e) in
        rw (absent, nothing refl) (rw (nothing refl) at counts, refl, λ no. refl)
  ]

-- When a migration was made, by the journal's file.
abbrev pub when_of : List JournalEntry → String → ℕ
when_of entries tag = elim (entry_of tag entries) [ none ↦ 0 | some entry ↦ entry.when ]

-- The file gives the migrations in the order of their times.
abbrev pub in_order : List JournalEntry → List String → Bool
in_order entries [] = true
in_order entries (a ∷ []) = true
in_order entries (a ∷ b ∷ rest) =
    leb (when_of entries a) (when_of entries b) && in_order entries (b ∷ rest)

in_order-leading :
    (entries : List JournalEntry) (n : ℕ) (ms : List MigrationMarker)
    → in_order entries (map (λ m. m.tag) ms) ≡ true
    → in_order entries (map (λ m. m.tag) (leading n ms)) ≡ true
in_order-leading entries zero ms e = refl
in_order-leading entries (suc n) [] e = refl
in_order-leading entries (suc zero) (a ∷ ms) e = refl
in_order-leading entries (suc (suc n)) (a ∷ []) e = refl
in_order-leading entries (suc (suc n)) (a ∷ b ∷ ms) e =
    let (first, later) =
      and-eq-true (leb (when_of entries a.tag) (when_of entries b.tag))
        (in_order entries (b.tag ∷ map (λ m. m.tag) ms)) e in
    rw (first, in_order-leading entries (suc n) (b ∷ ms) later) refl

length-recorded : (rows : List MigrationRow) → length (map recorded rows) ≡ length rows
length-recorded [] = refl
length-recorded (row ∷ rows) = ap suc (length-recorded rows)

find_mismatch-recorded :
    (rows : List MigrationRow) (i : ℕ) → find_mismatch i rows (map recorded rows) ≡ none
unfolding find_mismatch
find_mismatch-recorded [] i = refl
find_mismatch-recorded (row ∷ rows) i =
    rw (==_refl row.hash, ==_refl row.when, find_mismatch-recorded rows (suc i)) refl

module _ (folder : MigrationsFolder) (entries : List JournalEntry) where
  rows_of-cons :
      (tag : String) (tags : List String) (rows : List MigrationRow)
      → rows_of folder entries (tag ∷ tags) ≡ returned rows
      → (row : MigrationRow) × (rest : List MigrationRow) × (rows ≡ row ∷ rest)
        × (rows_of folder entries tags ≡ returned rest)
        × (row.when ≡ when_of entries tag)
  unfolding rows_of
  rows_of-cons tag tags rows e =
      let (entry, found, e1) =
        >>=_returned (or_refuse (entry_of tag entries) (not_in_journal tag)) _ rows e in
      let (hash, read, e2) =
        >>=_returned (or_refuse (folder.sql_hash tag) (unreadable_migration tag)) _ rows e1 in
      let (rest, later, e3) = >>=_returned (rows_of folder entries tags) _ rows e2 in
      (
        record { hash = hash; when = entry.when },
        rest,
        sym (returned_injective e3),
        later,
        sym (
            ap (λ o. elim o [ none ↦ 0 | some x ↦ x.when ])
              (or_refuse-returned (entry_of tag entries) (not_in_journal tag) entry found)),
      )

  rows_of-length :
      (tags : List String) (rows : List MigrationRow)
      → rows_of folder entries tags ≡ returned rows
      → length rows ≡ length tags
  unfolding rows_of
  rows_of-length [] rows e = rw (sym (returned_injective e)) refl
  rows_of-length (tag ∷ tags) rows e =
      let (row, rest, is, later, _) = rows_of-cons tag tags rows e in
      rw (is, rows_of-length tags rest later) refl

  in_time-rows_of :
      (tags : List String) (rows : List MigrationRow)
      → in_order entries tags ≡ true
      → rows_of folder entries tags ≡ returned rows
      → in_time (map recorded rows) ≡ map recorded rows
  unfolding in_time insert_recorded rows_of
  in_time-rows_of [] rows ordered e = rw (sym (returned_injective e)) refl
  in_time-rows_of (a ∷ []) rows ordered e =
      let (row, rest, is, later, _) = rows_of-cons a [] rows e in
      rw (is, sym (returned_injective later)) refl
  in_time-rows_of (a ∷ b ∷ tags) rows ordered e =
      let (row, rest, is, later, when_a) = rows_of-cons a (b ∷ tags) rows e in
      let (row', rest', is', later', when_b) = rows_of-cons b tags rest later in
      let (first, ordered') =
        and-eq-true (leb (when_of entries a) (when_of entries b)) (in_order entries (b ∷ tags))
          ordered in
      let sorted = in_time-rows_of (b ∷ tags) rest ordered' later in
      rw (is, sorted, is', when_a, when_b, first) refl

pub load_migration_rows-length :
    (folder : MigrationsFolder) (tags : List String) (rows : List MigrationRow)
    → load_migration_rows folder tags ≡ returned rows
    → length rows ≡ length tags
unfolding load_migration_rows
load_migration_rows-length folder tags rows e =
    let (entries, _, runs) = >>=_returned (or_refuse folder.entries unreadable_journal) _ rows e in
    rows_of-length folder entries tags rows runs

-- The probes do not read the journal.
pub applied_from-journal :
    (db : Database) (journal : Option (List RecordedRow)) (ms : List MigrationMarker) (ended : Bool)
    → applied_from (record db { journal = journal }) ended ms ≡ applied_from db ended ms
unfolding applied_from probe_exists
applied_from-journal db journal [] ended = refl
applied_from-journal db journal (m ∷ ms) ended =
    rw (applied_from-journal db journal ms (ended || not (probe_exists db m.probe))) refl

-- The entries of the journal's file.
abbrev pub folder_entries : MigrationsFolder → List JournalEntry
folder_entries folder = get_or folder.entries []

abbrev pub IsOrdered : MigrationsFolder → Type 0
IsOrdered folder = in_order (folder_entries folder) (map (λ m. m.tag) migration_markers) ≡ true

module _ (folder : MigrationsFolder) (ordered : IsOrdered folder) where
  -- Rows of leading migrations, as the check of the journal reads them back.
  load_migration_rows-in_time :
      (n : ℕ) (tags : List String) (rows : List MigrationRow)
      → map (λ m. m.tag) (leading n migration_markers) ≡ tags
      → load_migration_rows folder tags ≡ returned rows
      → (length (map recorded rows) ≡ length tags)
        × (in_time (map recorded rows) ≡ map recorded rows)
  unfolding load_migration_rows
  load_migration_rows-in_time n tags rows same loaded =
      let (entries, read, runs) =
        >>=_returned (or_refuse folder.entries unreadable_journal) _ rows loaded in
      let listed = or_refuse-returned folder.entries unreadable_journal entries read in
      let leading_ordered : in_order entries tags ≡ true =
        rw (sym same) (in_order-leading entries n migration_markers (rw listed at ordered)) in
      (
        length-recorded rows ∙ rows_of-length folder entries tags rows runs,
        in_time-rows_of folder entries tags rows leading_ordered runs,
      )

  -- The rows of the detected migrations are what the check of the journal expects.
  pub recorded-assert_journal_matches_schema_prefix :
      (db : Database) (tags : List String) (rows : List MigrationRow)
      → applied_from db false migration_markers ≡ returned tags
      → load_migration_rows folder tags ≡ returned rows
      → db.journal ≡ some (map recorded rows)
      → assert_journal_matches_schema_prefix folder db ≡ returned tt
  unfolding assert_journal_matches_schema_prefix
  recorded-assert_journal_matches_schema_prefix db tags rows detected loaded journal =
      let (counts, same, _) = applied_from-prefix_from db migration_markers false tags detected in
      let (many, sorted) = load_migration_rows-in_time (length tags) tags rows same loaded in
      rw
        (
          counts,
          journal,
          many,
          ltb_irrefl (length tags),
          same,
          loaded,
          sorted,
          find_mismatch-recorded rows 0,
        )
        refl

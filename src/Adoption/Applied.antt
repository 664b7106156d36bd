-- ===== src/Adoption/Applied.antt =====
-- scripts/baseline-migrations.ts: what `--apply` writes for a database that was pushed.
use identity_platform.Prelude.{
  ℕ, zero, suc, true, false, not, none, some, List, [], ◌∷◌, map, select, ◌≡◌, refl, ◌∙◌,
}
use identity_platform.Adoption.{
  MigrationMarker, MigrationRow, MigrationsFolder, Database, returned, or_refuse, has_marker,
  leading, applied_from, migration_markers, recorded, load_migration_rows,
  detect_applied_migrations, baseline_journal, baseline, assert_safe_to_migrate,
  database_is_populated, unreadable_journal,
}
use identity_platform.Adoption.Baseline.{
  >>=_returned, or_refuse-returned, folder_entries, IsOrdered, applied_from-journal,
  recorded-assert_journal_matches_schema_prefix,
}
use identity_platform.Adoption.Guard.{IsReflected}

-- Each migration of the journal's file has its marker.
abbrev pub IsMarked : MigrationsFolder → Type 0
IsMarked folder = select (λ e. not (has_marker e)) (folder_entries folder) ≡ []

module _ (db : Database) where
  applied_from_ended :
      (ms : List MigrationMarker) → IsReflected db 0 ms → applied_from db true ms ≡ returned []
  unfolding applied_from
  applied_from_ended [] r = refl
  applied_from_ended (m ∷ ms) (gone, r) = rw (gone, applied_from_ended ms r) refl

  applied_from-leading :
      (n : ℕ) (ms : List MigrationMarker)
      → IsReflected db n ms
      → applied_from db false ms ≡ returned (map (λ m. m.tag) (leading n ms))
  unfolding applied_from
  applied_from-leading zero [] r = refl
  applied_from-leading zero (m ∷ ms) (gone, r) = rw (gone, applied_from_ended ms r) refl
  applied_from-leading (suc n) [] r = absurd r
  applied_from-leading (suc n) (m ∷ ms) (here, r) = rw (here, applied_from-leading n ms r) refl

module _ (folder : MigrationsFolder) (db : Database) (n : ℕ) (rows : List MigrationRow)
    (reflected : IsReflected db n migration_markers)
    (loaded : load_migration_rows folder (map (λ m. m.tag) (leading n migration_markers))
      ≡ returned rows) where
  detected :
      IsMarked folder
      → detect_applied_migrations folder db
        ≡ returned (map (λ m. m.tag) (leading n migration_markers))
  unfolding detect_applied_migrations load_migration_rows
  detected marked =
      let (entries, read, _) =
        >>=_returned (or_refuse folder.entries unreadable_journal) _ rows loaded in
      let listed = or_refuse-returned folder.entries unreadable_journal entries read in
      let unmarked_none : select (λ e. not (has_marker e)) entries ≡ [] = simp listed at marked in
      simp (listed, unmarked_none, applied_from-leading db n migration_markers reflected)

  written :
      db.journal ≡ none
      → baseline_journal folder (map (λ m. m.tag) (leading n migration_markers)) db
        ≡ returned (record db { journal = some (map recorded rows) })
  unfolding baseline_journal
  written fresh = rw loaded (rw fresh refl)

-- A database with the table `clients` and no journal, whose schema has the objects of the first `n`
-- migrations and no later one: a dry run of `npm run db:baseline` changes nothing, `--apply` records
-- the rows that the files give for these migrations, and `npm run db:migrate` then goes ahead, where
-- the files can be read and the journal's file has every migration marked and in order of its time.
pub baseline-assert_safe_to_migrate :
    (folder : MigrationsFolder) (db : Database) (n : ℕ) (rows : List MigrationRow)
    → IsOrdered folder
    → IsMarked folder
    → db.journal ≡ none
    → database_is_populated db ≡ true
    → IsReflected db n migration_markers
    → load_migration_rows folder (map (λ m. m.tag) (leading n migration_markers)) ≡ returned rows
    → (baseline folder false db ≡ returned db)
      × (baseline folder true db ≡ returned (record db { journal = some (map recorded rows) }))
      × (assert_safe_to_migrate folder (record db { journal = some (map recorded rows) })
          ≡ returned tt)
unfolding baseline assert_safe_to_migrate
baseline-assert_safe_to_migrate folder db n rows ordered marked fresh populated reflected loaded = (
  simp (fresh, populated, detected folder db n rows reflected loaded marked),
  simp (
    fresh,
    populated,
    detected folder db n rows reflected loaded marked,
    written folder db n rows reflected loaded fresh,
  ),
  recorded-assert_journal_matches_schema_prefix folder ordered
      (record db { journal = some (map recorded rows) })
      (map (λ m. m.tag) (leading n migration_markers)) rows
      (applied_from-journal db (some (map recorded rows)) migration_markers false
        ∙ applied_from-leading db n migration_markers reflected)
      loaded refl,
)

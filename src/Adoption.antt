-- ===== src/Adoption.antt =====
-- db/adoption.ts, scripts/baseline-migrations.ts: a database that was managed without migrations
-- gets the journal that its schema reflects. The scripts are alone at the database.
pub mod Baseline
pub mod Guard
pub mod Applied
use identity_platform.Prelude.{
  ℕ, zero, suc, String, Bool, true, false, not, ◌&&◌, ◌||◌, Option, none, some, List, [], ◌∷◌, ◌++◌,
  map, find, select, any, length, leb, ltb, ◌==◌, if◌then◌else◌, str_eq, is_some, get_or,
}

pub record Probe : Type 0 where
  pub table : String
  pub column : Option String

pub record MigrationMarker : Type 0 where
  pub tag : String
  pub probe : Probe

abbrev table_marker : String → String → MigrationMarker
table_marker tag table = record { tag = tag; probe = record { table = table; column = none } }

abbrev column_marker : String → String → String → MigrationMarker
column_marker tag table column = record {
  tag = tag;
  probe = record { table = table; column = some column };
}

abbrev pub migration_markers : List MigrationMarker
migration_markers =
    table_marker "0000_known_maria_hill" "clients"
    ∷ table_marker "0001_clear_fixer" "account_tokens"
    ∷ column_marker "0002_stormy_steel_serpent" "clients" "is_public"
    ∷ column_marker "0003_stormy_adam_destine" "clients" "password_reset_url"
    ∷ column_marker "0004_odd_cargill" "clients" "allow_user_registration"
    ∷ table_marker "0005_tearful_nightcrawler" "audit_logs"
    ∷ column_marker "0006_amusing_punisher" "refresh_tokens" "revoked_reason"
    ∷ table_marker "0007_strong_multiple_man" "service_accounts"
    ∷ column_marker "0008_naive_payback" "refresh_tokens" "rotation_operation_hash"
    ∷ []

pub record JournalEntry : Type 0 where
  pub tag : String
  pub when : ℕ

pub record MigrationRow : Type 0 where
  pub hash : ℕ
  pub when : ℕ

-- A row of `drizzle.__drizzle_migrations`, in the order of its ids.
pub record RecordedRow : Type 0 where
  pub hash : ℕ
  pub created_at : Option ℕ

-- The folder `drizzle`: its journal file, and the digest of each migration's file.
pub record MigrationsFolder : Type 0 where
  pub entries : Option (List JournalEntry)
  pub sql_hash : String → Option ℕ

-- What `information_schema` shows, and the journal's table.
pub record Database : Type 0 where
  pub tables : List String
  pub columns : List (String × String)
  pub journal : Option (List RecordedRow)

pub data Refusal : Type 0 where
  unreadable_journal : Refusal
  unreadable_migration : String → Refusal
  no_journal_table : Refusal
  unmarked_migrations : List String → Refusal
  no_migration_prefix : String → Refusal
  not_in_journal : String → Refusal
  incomplete_journal : ℕ → ℕ → Refusal
  journal_ahead : ℕ → ℕ → Refusal
  mismatch_at : ℕ → Refusal
  journal_exists_already : Refusal
  unmanaged_database : Refusal

pub data Checked (A : Type 0) : Type 0 where
  returned : A → Checked A
  thrown : Refusal → Checked A

infixl 5 ◌>>=◌
abbrev pub ◌>>=◌ : {A B : Type 0} → Checked A → (A → Checked B) → Checked B
m >>= f = elim m [ returned a ↦ f a | thrown e ↦ thrown e ]

infixl 5 ◌>>◌
abbrev pub ◌>>◌ : {A B : Type 0} → Checked A → Checked B → Checked B
m >> n = m >>= λ _. n

abbrev pub or_refuse : {A : Type 0} → Option A → Refusal → Checked A
or_refuse none e = thrown e
or_refuse (some a) e = returned a

abbrev pub refuse_if : Bool → Refusal → Checked (Unit {0})
refuse_if b e = if b then thrown e else returned tt

-- `slice(0, n)`
abbrev pub leading : {A : Type 0} → ℕ → List A → List A
leading zero xs = []
leading (suc n) [] = []
leading (suc n) (x ∷ xs) = x ∷ leading n xs

unfoldable pub probe_exists : Database → Probe → Bool
probe_exists db probe = elim probe.column [
  | none ↦ any (λ t. str_eq t probe.table) db.tables
  | some column ↦ any (λ (t, c). str_eq t probe.table && str_eq c column) db.columns
]

abbrev pub journal_exists : Database → Bool
journal_exists db = is_some db.journal

unfoldable pub database_is_populated : Database → Bool
database_is_populated db = probe_exists db (record { table = "clients"; column = none })

-- The loop of `detectAppliedMigrations`; `ended` is its `prefixEnded`.
unfoldable pub applied_from : Database → Bool → List MigrationMarker → Checked (List String)
applied_from db ended [] = returned []
applied_from db ended (m ∷ ms) =
    let present = probe_exists db m.probe in
    let rest = applied_from db (ended || not present) ms in
    if present && ended
    then thrown (no_migration_prefix m.tag)
    else if present
    then rest >>= (λ tags. returned (m.tag ∷ tags))
    else rest

abbrev pub has_marker : JournalEntry → Bool
has_marker e = any (λ m. str_eq m.tag e.tag) migration_markers

abbrev pub refuse_unmarked : List JournalEntry → Checked (Unit {0})
refuse_unmarked [] = returned tt
refuse_unmarked (e ∷ es) = thrown (unmarked_migrations (map (λ x. x.tag) (e ∷ es)))

unfoldable pub detect_applied_migrations : MigrationsFolder → Database → Checked (List String)
detect_applied_migrations folder db = do
  entries ← or_refuse folder.entries unreadable_journal
  refuse_unmarked (select (λ e. not (has_marker e)) entries)
  applied_from db false migration_markers

abbrev pub entry_of : String → List JournalEntry → Option JournalEntry
entry_of tag entries = find (λ e. str_eq e.tag tag) entries

unfoldable pub rows_of :
    MigrationsFolder → List JournalEntry → List String → Checked (List MigrationRow)
rows_of folder entries [] = returned []
rows_of folder entries (tag ∷ tags) = do
  entry ← or_refuse (entry_of tag entries) (not_in_journal tag)
  hash ← or_refuse (folder.sql_hash tag) (unreadable_migration tag)
  rows ← rows_of folder entries tags
  returned (record { hash = hash; when = entry.when } ∷ rows)

unfoldable pub load_migration_rows : MigrationsFolder → List String → Checked (List MigrationRow)
load_migration_rows folder tags = do
  entries ← or_refuse folder.entries unreadable_journal
  rows_of folder entries tags

-- The loop of `presentMarkerPrefix`.
unfoldable pub prefix_from : Database → Bool → List MigrationMarker → Checked ℕ
prefix_from db ended [] = returned 0
prefix_from db ended (m ∷ ms) =
    let present = probe_exists db m.probe in
    let rest = prefix_from db (ended || not present) ms in
    if present && ended
    then thrown (no_migration_prefix m.tag)
    else if present
    then rest >>= (λ n. returned (suc n))
    else rest

-- ORDER BY created_at ASC, id ASC, where a missing time comes last.
abbrev comes_first : Option ℕ → Option ℕ → Bool
comes_first a none = true
comes_first none (some b) = false
comes_first (some a) (some b) = leb a b

unfoldable pub insert_recorded : RecordedRow → List RecordedRow → List RecordedRow
insert_recorded r [] = r ∷ []
insert_recorded r (x ∷ xs) =
    let rest = insert_recorded r xs in
    if comes_first r.created_at x.created_at then r ∷ x ∷ xs else x ∷ rest

unfoldable pub in_time : List RecordedRow → List RecordedRow
in_time [] = []
in_time (r ∷ rs) = insert_recorded r (in_time rs)

-- `Number(null)` is 0.
abbrev pub differs : MigrationRow → RecordedRow → Bool
differs row r = not (r.hash == row.hash) || not (get_or r.created_at 0 == row.when)

-- `findIndex` over the expected rows; a missing recorded row would be an exception as well.
unfoldable pub find_mismatch : ℕ → List MigrationRow → List RecordedRow → Option ℕ
find_mismatch i [] rs = none
find_mismatch i (row ∷ rows) [] = some i
find_mismatch i (row ∷ rows) (r ∷ rs) =
    let rest = find_mismatch (suc i) rows rs in if differs row r then some i else rest

abbrev refuse_mismatch : Option ℕ → Checked (Unit {0})
refuse_mismatch none = returned tt
refuse_mismatch (some i) = thrown (mismatch_at (suc i))

unfoldable pub assert_journal_matches_schema_prefix :
    MigrationsFolder → Database → Checked (Unit {0})
assert_journal_matches_schema_prefix folder db = do
  reflected ← prefix_from db false migration_markers
  rows ← or_refuse db.journal no_journal_table
  refuse_if (ltb (length rows) reflected) (incomplete_journal (length rows) reflected)
  refuse_if (ltb reflected (length rows)) (journal_ahead (length rows) reflected)
  expected ← load_migration_rows folder (map (λ m. m.tag) (leading reflected migration_markers))
  refuse_mismatch (find_mismatch 0 expected (in_time rows))

abbrev pub recorded : MigrationRow → RecordedRow
recorded row = record { hash = row.hash; created_at = some row.when }

unfoldable pub baseline_journal : MigrationsFolder → List String → Database → Checked Database
baseline_journal folder applied db = do
  rows ← load_migration_rows folder applied
  refuse_if (ltb 0 (length (get_or db.journal []))) journal_exists_already
  returned (record db { journal = some (get_or db.journal [] ++ map recorded rows) })

unfoldable pub assert_safe_to_migrate : MigrationsFolder → Database → Checked (Unit {0})
assert_safe_to_migrate folder db =
    if not (journal_exists db)
    then refuse_if (database_is_populated db) unmanaged_database
    else assert_journal_matches_schema_prefix folder db

-- `npm run db:baseline`, with `--apply` or as a dry run.
unfoldable pub baseline : MigrationsFolder → Bool → Database → Checked Database
baseline folder apply db =
    if journal_exists db
    then (assert_journal_matches_schema_prefix folder db >>= λ _. returned db)
    else if not (database_is_populated db)
    then returned db
    else (detect_applied_migrations folder db >>= λ applied.
        if apply then baseline_journal folder applied db else returned db)

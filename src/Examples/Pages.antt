-- ===== src/Examples/Pages.antt =====
-- An audit log of three entries, two to a page.
use identity_platform.Prelude.{
  ◌≤◌, ◌<◌, Bool, true, none, some, List, [], ◌∷◌, count, length, ◌≡◌, refl, arith, All,
}
use identity_platform.Schema.{AuditLog, Store, operator}
use identity_platform.AuditRoutes.{AuditQuery, insert_newest, latest_first, page_of, page_rows}
use identity_platform.AuditRoutes.Pages.{IsDescending, is_shown, shown, page_rows_lem}
use identity_platform.AuditRoutes.Walk.{IsSpread, walk, walk_lem}
use identity_platform.Examples.Fixture.{store}

abbrev entry : AuditLog
entry = record {
  id = 80;
  client_id = 10;
  action = "client.updated";
  actor_type = operator;
  actor_id = none;
  target_id = some 10;
  ip = none;
  user_agent = none;
  created_at = 100;
}

abbrev logged : Store
logged = record store {
  audit_logs =
      entry
      ∷ record entry { id = 81; created_at = 300 }
      ∷ record entry { id = 82; created_at = 200 }
      ∷ record entry { id = 83; client_id = 11; created_at = 250 }
      ∷ [];
}

abbrev query : AuditQuery
query = record {
  action = none;
  actor_id = none;
  target_id = none;
  from = none;
  to = none;
  limit = some 2;
  before = none;
}

page_rows_lem_example :
    (length (page_rows 10 query logged) ≤ 2)
    × All (λ a. is_shown 10 query a ≡ true) (page_rows 10 query logged)
    × IsDescending (page_rows 10 query logged)
    × (length (page_rows 10 query logged) < 2
        → (p : AuditLog → Bool)
        → count p (page_rows 10 query logged) ≡ count p (shown 10 query logged))
page_rows_lem_example = page_rows_lem 10 query logged

walk_lem_example :
    (entries : List AuditLog) × (walk 4 10 query logged ≡ some entries)
    × ((p : AuditLog → Bool) → count p entries ≤ count p (shown 10 query logged))
    × (IsSpread 10 query logged
        → (p : AuditLog → Bool) → count p entries ≡ count p (shown 10 query logged))
walk_lem_example = walk_lem 4 10 query logged (omega arith) (omega arith)

-- Two entries of the same time around the end of a page: the second page is empty, and one of them is
-- on neither.
same_time_skipped :
    walk 4 10
      (record query { limit = some 1 })
      (record store { audit_logs = entry ∷ record entry { id = 81 } ∷ [] })
    ≡ some (entry ∷ [])
unfolding walk page_of page_rows latest_first insert_newest
same_time_skipped = refl

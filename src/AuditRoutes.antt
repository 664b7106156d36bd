-- ===== src/AuditRoutes.antt =====
-- routes/audit.ts: a client's audit log, page by page.
pub mod Pages
pub mod Walk
use identity_platform.Prelude.{
  ℕ, ◌-◌, String, Bool, true, false, ◌&&◌, Option, none, some, List, [], ◌∷◌, select, length, ltb,
  leb, ◌==◌, str_eq, if◌then◌else◌, is_truthy, get_or,
}
use identity_platform.Text.{utf16_length}
use identity_platform.Schema.{AuditLog, Store}
use identity_platform.Exec.{Host, Env, Request, Reply, Exec, pure, read, parse, ◌>>=◌, ◌>>◌}
use identity_platform.Authenticate.{authenticated_client_id}
use identity_platform.Admin.{permitted}

-- The query parameters after coercion.
pub record AuditQuery : Type 0 where
  pub action : Option String
  pub actor_id : Option ℕ
  pub target_id : Option ℕ
  pub from : Option ℕ
  pub to : Option ℕ
  pub limit : Option ℕ
  pub before : Option ℕ

-- `limit` has the default 50.
abbrev pub limit_of : AuditQuery → ℕ
limit_of q = get_or q.limit 50

abbrev pub action_fits : Option String → Bool
action_fits none = true
action_fits (some a) = leb (utf16_length a) 64

unfoldable pub list_schema : AuditQuery → Bool
list_schema q = action_fits q.action && (leb 1 (limit_of q) && leb (limit_of q) 200)

-- `if (query.action)`: an empty text is no condition.
abbrev pub is_action : Option String → AuditLog → Bool
is_action none a = true
is_action (some action) a = if str_eq action "" then true else str_eq a.action action

abbrev pub is_same_id : Option ℕ → Option ℕ → Bool
is_same_id none b = true
is_same_id (some a) none = false
is_same_id (some a) (some b) = b == a

abbrev pub is_from : Option ℕ → ℕ → Bool
is_from none time = true
is_from (some t) time = leb t time

abbrev pub is_to : Option ℕ → ℕ → Bool
is_to none time = true
is_to (some t) time = leb time t

abbrev pub is_before : Option ℕ → ℕ → Bool
is_before none time = true
is_before (some t) time = ltb time t

-- The WHERE clause, but for `before`.
abbrev pub matches : ℕ → AuditQuery → AuditLog → Bool
matches client_id q a =
    a.client_id == client_id
    && (is_action q.action a
        && (is_same_id q.actor_id a.actor_id
            && (is_same_id q.target_id a.target_id
                && (is_from q.from a.created_at && is_to q.to a.created_at))))

-- ORDER BY created_at DESC.
unfoldable pub insert_newest : AuditLog → List AuditLog → List AuditLog
insert_newest a [] = a ∷ []
insert_newest a (b ∷ bs) =
    let rest = insert_newest a bs in if leb b.created_at a.created_at then a ∷ b ∷ bs else b ∷ rest

unfoldable pub latest_first : List AuditLog → List AuditLog
latest_first [] = []
latest_first (a ∷ rest) = insert_newest a (latest_first rest)

-- LIMIT.
abbrev pub take : {A : Type 0} → ℕ → List A → List A
take n [] = []
take n (x ∷ xs) = let rest = take (n - 1) xs in if n == 0 then [] else x ∷ rest

pub record AuditPage : Type 0 where
  pub entries : List AuditLog
  pub next_before : Option ℕ

-- `rows[rows.length - 1].createdAt.toISOString()`, in whole milliseconds as every time here; the
-- database's microseconds, which the conversion cuts off, are not modelled.
abbrev pub last_time : List AuditLog → Option ℕ
last_time [] = none
last_time (a ∷ []) = some a.created_at
last_time (a ∷ b ∷ rest) = last_time (b ∷ rest)

unfoldable pub page_rows : ℕ → AuditQuery → Store → List AuditLog
page_rows client_id q st = take (limit_of q) (
    latest_first
      (select (λ a. matches client_id q a && is_before q.before a.created_at) st.audit_logs))

unfoldable pub page_of : ℕ → List AuditLog → AuditPage
page_of limit rows = record {
  entries = rows;
  next_before = if length rows == limit then last_time rows else none;
}

unfoldable pub list_audit : Env → Host → Request → AuditQuery → Exec (Reply AuditPage)
list_audit env h req q = do
  principal ← permitted env h req "audit:read"
  parse (list_schema q)
  client_id ← authenticated_client_id principal
  rows ← read h (page_rows client_id q)
  pure (record { status = 200; body = page_of (limit_of q) rows })

-- ===== src/Schema/Inserts.antt =====
-- db/schema.ts: INSERT statements, with the columns' default values. One that breaks a primary key
-- or a unique index is refused, and nothing is written.
use identity_platform.Prelude.{
  ℕ, String, Bool, true, false, ◌&&◌, ◌||◌, Option, none, some, List, [], ◌∷◌, ◌++◌, any, str_eq,
  ◌==◌, if◌then◌else◌,
}
use identity_platform.Schema.{
  Store, User, UserRole, RefreshToken, AccountToken, Purpose, AuditLog, ActorType,
}

pub record NewUser : Type 0 where
  pub client_id : ℕ
  pub email : String
  pub password_hash : Option String
  pub oauth_provider : Option String
  pub oauth_provider_id : Option String
  pub email_verified : Bool

pub record NewRefreshToken : Type 0 where
  pub id : ℕ
  pub user_id : ℕ
  pub token_hash : ℕ
  pub ip_address : Option String
  pub user_agent : Option String
  pub expires_at : ℕ

pub record NewAccountToken : Type 0 where
  pub user_id : ℕ
  pub purpose : Purpose
  pub token_hash : ℕ
  pub expires_at : ℕ

pub record NewAuditLog : Type 0 where
  pub client_id : ℕ
  pub action : String
  pub actor_type : ActorType
  pub actor_id : Option ℕ
  pub target_id : Option ℕ
  pub ip : Option String
  pub user_agent : Option String

abbrev pub user_row : NewUser → ℕ → ℕ → User
user_row u id time = record {
  id = id;
  client_id = u.client_id;
  email = u.email;
  password_hash = u.password_hash;
  oauth_provider = u.oauth_provider;
  oauth_provider_id = u.oauth_provider_id;
  email_verified = u.email_verified;
  is_active = true;
  created_at = time;
  updated_at = time;
}

abbrev pub refresh_token_row : NewRefreshToken → ℕ → RefreshToken
refresh_token_row t time = record {
  id = t.id;
  user_id = t.user_id;
  token_hash = t.token_hash;
  ip_address = t.ip_address;
  user_agent = t.user_agent;
  revoked = false;
  revoked_reason = none;
  rotation_operation_hash = none;
  rotated_at = none;
  replaced_by_token_id = none;
  expires_at = t.expires_at;
  created_at = time;
}

abbrev pub account_token_row : NewAccountToken → ℕ → ℕ → AccountToken
account_token_row t id time = record {
  id = id;
  user_id = t.user_id;
  purpose = t.purpose;
  token_hash = t.token_hash;
  expires_at = t.expires_at;
  used_at = none;
  created_at = time;
}

abbrev pub audit_log_row : NewAuditLog → ℕ → ℕ → AuditLog
audit_log_row a id time = record {
  id = id;
  client_id = a.client_id;
  action = a.action;
  actor_type = a.actor_type;
  actor_id = a.actor_id;
  target_id = a.target_id;
  ip = a.ip;
  user_agent = a.user_agent;
  created_at = time;
}

-- `.returning()` gives the row.
unfoldable pub insert_user : NewUser → ℕ → ℕ → Store → Option (User × Store)
insert_user u id time st =
    if any (λ r. r.id == id || (r.client_id == u.client_id && str_eq r.email u.email)) st.users
    then none
    else some (user_row u id time, record st { users = st.users ++ user_row u id time ∷ [] })

unfoldable pub insert_user_role : UserRole → Store → Option Store
insert_user_role u st =
    if any (λ r. r.user_id == u.user_id && r.role_id == u.role_id && r.client_id == u.client_id)
      st.user_roles
    then none
    else some (record st { user_roles = st.user_roles ++ u ∷ [] })

-- A statement with several rows is refused as a whole.
unfoldable pub insert_user_roles : List UserRole → Store → Option (Unit {0} × Store)
insert_user_roles [] st = some (tt, st)
insert_user_roles (u ∷ us) st = elim (insert_user_role u st) [
  | none ↦ none
  | some st' ↦ insert_user_roles us st'
]

unfoldable pub insert_refresh_token : NewRefreshToken → ℕ → Store → Option (Unit {0} × Store)
insert_refresh_token t time st =
    if any (λ r. r.id == t.id || r.token_hash == t.token_hash) st.refresh_tokens
    then none
    else some
        (tt, record st { refresh_tokens = st.refresh_tokens ++ refresh_token_row t time ∷ [] })

unfoldable pub insert_account_token : NewAccountToken → ℕ → ℕ → Store → Option (Unit {0} × Store)
insert_account_token t id time st =
    if any (λ r. r.id == id || r.token_hash == t.token_hash) st.account_tokens
    then none
    else some
        (tt, record st { account_tokens = st.account_tokens ++ account_token_row t id time ∷ [] })

unfoldable pub insert_audit_log : NewAuditLog → ℕ → ℕ → Store → Option (Unit {0} × Store)
insert_audit_log a id time st =
    if any (λ r. r.id == id) st.audit_logs
    then none
    else some (tt, record st { audit_logs = st.audit_logs ++ audit_log_row a id time ∷ [] })

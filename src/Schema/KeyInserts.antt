-- ===== src/Schema/KeyInserts.antt =====
-- db/schema.ts: INSERT statements on clients, service accounts and API keys.
use identity_platform.Prelude.{
  ℕ, String, Bool, true, false, ◌&&◌, ◌||◌, Option, none, some, List, [], ◌∷◌, ◌++◌, any, str_eq,
  ◌==◌, if◌then◌else◌,
}
use identity_platform.Schema.{Client, ServiceAccount, ApiKey, Store}

pub record NewClient : Type 0 where
  pub name : String
  pub client_id : String
  pub client_secret_hash : Option ℕ
  pub is_public : Bool
  pub allow_user_registration : Bool
  pub redirect_uris : List String
  pub password_reset_url : Option String
  pub email_verify_url : Option String

pub record NewServiceAccount : Type 0 where
  pub client_id : ℕ
  pub name : String
  pub description : Option String

pub record NewApiKey : Type 0 where
  pub client_id : ℕ
  pub service_account_id : Option ℕ
  pub key_prefix : String
  pub key_hash : ℕ
  pub name : String
  pub scopes : List String
  pub expires_at : Option ℕ

abbrev pub client_row : NewClient → ℕ → ℕ → Client
client_row c id time = record {
  id = id;
  name = c.name;
  client_id = c.client_id;
  client_secret_hash = c.client_secret_hash;
  is_public = c.is_public;
  allow_user_registration = c.allow_user_registration;
  redirect_uris = some c.redirect_uris;
  password_reset_url = c.password_reset_url;
  email_verify_url = c.email_verify_url;
  is_active = true;
  created_at = time;
  updated_at = time;
}

abbrev pub service_account_row : NewServiceAccount → ℕ → ℕ → ServiceAccount
service_account_row a id time = record {
  id = id;
  client_id = a.client_id;
  name = a.name;
  description = a.description;
  is_active = true;
  created_at = time;
  updated_at = time;
}

abbrev pub api_key_row : NewApiKey → ℕ → ℕ → ApiKey
api_key_row k id time = record {
  id = id;
  client_id = k.client_id;
  service_account_id = k.service_account_id;
  key_prefix = k.key_prefix;
  key_hash = k.key_hash;
  name = k.name;
  scopes = some k.scopes;
  revoked = false;
  expires_at = k.expires_at;
  last_used_at = none;
  created_at = time;
}

unfoldable pub insert_client : NewClient → ℕ → ℕ → Store → Option (Client × Store)
insert_client c id time st =
    if any (λ r. r.id == id || str_eq r.client_id c.client_id) st.clients
    then none
    else some
        (client_row c id time, record st { clients = st.clients ++ client_row c id time ∷ [] })

-- `.onConflictDoNothing().returning()`: no row where one is there already.
unfoldable pub insert_service_account :
    NewServiceAccount → ℕ → ℕ → Store → Option ServiceAccount × Store
insert_service_account a id time st =
    if any (λ r. r.id == id || (r.client_id == a.client_id && str_eq r.name a.name))
      st.service_accounts
    then (none, st)
    else (
      some (service_account_row a id time),
      record st { service_accounts = st.service_accounts ++ service_account_row a id time ∷ [] },
    )

unfoldable pub insert_api_key : NewApiKey → ℕ → ℕ → Store → Option (ApiKey × Store)
insert_api_key k id time st =
    if any (λ r. r.id == id || r.key_hash == k.key_hash) st.api_keys
    then none
    else some
        (api_key_row k id time, record st { api_keys = st.api_keys ++ api_key_row k id time ∷ [] })

-- ===== src/ServiceAccounts.antt =====
-- routes/serviceAccounts.ts and services/serviceAccount.ts: role-bearing machine principals and
-- their keys.
use identity_platform.Prelude.{
  ℕ, String, Bool, true, false, ◌&&◌, ◌||◌, Option, none, some, List, [], ◌∷◌, map, select, find,
  update, any, get_or, is_some, leb, ◌==◌, str_eq, if◌then◌else◌,
}
use identity_platform.Text.{utf16_length}
use identity_platform.Errors.{bad_request, not_found, conflict, zod_error}
use identity_platform.Schema.{Role, ServiceAccount, ServiceAccountRole, Store}
use identity_platform.Schema.RoleInserts.{add_service_account_role, insert_service_account_roles}
use identity_platform.Schema.KeyInserts.{insert_service_account, insert_api_key}
use identity_platform.Exec.{
  Host, Env, Request, Reply, Exec, pure, or_throw, check, statement, read, write, now, parse, ◌>>=◌,
  ◌>>◌,
}
use identity_platform.Permission.{Principal}
use identity_platform.Authenticate.{authenticated_client_id}
use identity_platform.Audit.{audit}
use identity_platform.Admin.{permitted, by_principal, uuids, distinct, is_empty}
use identity_platform.Roles.{role_of_client}
use identity_platform.Users.{assert_roles_exist}
use identity_platform.ApiKeys.{CreatedKey, days_fit, key_view, generate_api_key, expiry_of}

-- An id is `none` where it is no UUID.
pub record CreateAccountBody : Type 0 where
  pub name : String
  pub description : Option String
  pub role_ids : List (Option ℕ)

-- `none` is a member that is not sent, `some none` a description that is sent as null.
pub record UpdateAccountBody : Type 0 where
  pub name : Option String
  pub description : Option (Option String)
  pub is_active : Option Bool

pub record AccountKeyBody : Type 0 where
  pub name : String
  pub expires_in_days : Option ℕ

pub record AccountView : Type 0 where
  pub account : ServiceAccount
  pub role_ids : List ℕ

abbrev pub name_fits : String → Bool
name_fits name = leb 1 (utf16_length name) && leb (utf16_length name) 255

abbrev pub optional_name_fits : Option String → Bool
optional_name_fits none = true
optional_name_fits (some name) = name_fits name

abbrev pub description_fits : Option String → Bool
description_fits none = true
description_fits (some text) = leb (utf16_length text) 2000

unfoldable pub create_account_schema : CreateAccountBody → Bool
create_account_schema b = name_fits b.name && description_fits b.description

unfoldable pub update_account_schema : UpdateAccountBody → Bool
update_account_schema b =
    optional_name_fits b.name
    && (description_fits (get_or b.description none)
        && (is_some b.name || (is_some b.description || is_some b.is_active)))

unfoldable pub account_key_schema : AccountKeyBody → Bool
account_key_schema b = name_fits b.name && days_fit b.expires_in_days

abbrev pub account_of_client : ℕ → ℕ → Store → Option ServiceAccount
account_of_client id client_id st =
    find (λ a. a.id == id && a.client_id == client_id) st.service_accounts

abbrev pub account_role_ids : ℕ → ℕ → Store → List ℕ
account_role_ids id client_id st =
    map (λ ar. ar.role_id)
      (select (λ ar. ar.service_account_id == id && ar.client_id == client_id)
        st.service_account_roles)

-- Another account of the client has the name.
abbrev pub name_taken : ℕ → ℕ → String → Store → Bool
name_taken id client_id name st =
    any
      (λ a.
        a.client_id == client_id && (str_eq a.name name && (if a.id == id then false else true)))
      st.service_accounts

-- `if (body.name)`
abbrev pub new_name_taken : ℕ → ℕ → Option String → Store → Bool
new_name_taken id client_id none st = false
new_name_taken id client_id (some name) st = name_taken id client_id name st

abbrev pub updated_account : UpdateAccountBody → ℕ → ServiceAccount → ServiceAccount
updated_account b time a = record a {
  name = get_or b.name a.name;
  description = get_or b.description a.description;
  is_active = get_or b.is_active a.is_active;
  updated_at = time;
}

-- UPDATE … RETURNING; the unique index refuses a name that is taken.
unfoldable pub update_account_row :
    ℕ → ℕ → UpdateAccountBody → ℕ → Store → Option (Option ServiceAccount × Store)
update_account_row id client_id b time st =
    let accounts =
      update (λ a. a.id == id && a.client_id == client_id) (updated_account b time)
        st.service_accounts in
    if is_some (account_of_client id client_id st) && new_name_taken id client_id b.name st
    then none
    else some (
      find (λ a. a.id == id && a.client_id == client_id) accounts,
      record st { service_accounts = accounts },
    )

abbrev pub remove_account_role : ℕ → ℕ → ℕ → Store → Store
remove_account_role id role_id client_id st = record st {
  service_account_roles =
      select
        (λ ar.
          if ar.service_account_id == id && (ar.role_id == role_id && ar.client_id == client_id)
          then false
          else true)
        st.service_account_roles;
}

abbrev pub account_role : ℕ → ℕ → ℕ → ℕ → ServiceAccountRole
account_role id client_id time role_id = record {
  service_account_id = id;
  role_id = role_id;
  client_id = client_id;
  assigned_at = time;
}

module _ (h : Host) where
  unfoldable pub assert_service_account_belongs_to_client : ℕ → ℕ → Exec ServiceAccount
  assert_service_account_belongs_to_client id client_id = do
    found ← read h (account_of_client id client_id)
    or_throw found (not_found "Service account not found" none)

  unfoldable pub assert_role_belongs_to_client : ℕ → ℕ → Exec Role
  assert_role_belongs_to_client role_id client_id = do
    found ← read h (role_of_client role_id client_id)
    or_throw found (not_found "Role not found" none)

  -- The queries of `Promise.all`, one after the other.
  unfoldable pub account_views : ℕ → List ServiceAccount → Exec (List AccountView)
  account_views client_id [] = pure []
  account_views client_id (a ∷ rest) = do
    role_ids ← read h (account_role_ids a.id client_id)
    views ← account_views client_id rest
    pure (record { account = a; role_ids = role_ids } ∷ views)

  -- `if (body.name)`
  unfoldable pub refuse_taken_name : ℕ → ℕ → Option String → Exec (Unit {0})
  refuse_taken_name id client_id none = pure tt
  refuse_taken_name id client_id (some name) = do
    taken ← read h (name_taken id client_id name)
    check (if taken then false else true) (conflict "Service account already exists" none)

  -- `if (roleIds.length > 0)`: an insert of no rows is no statement.
  unfoldable pub attach_roles : ℕ → ℕ → List ℕ → Exec (Unit {0})
  attach_roles id client_id ids =
      if is_empty ids
      then pure tt
      else statement h
          λ d st. (insert_service_account_roles (map (account_role id client_id d.time) ids) st)

module _ (h : Host) (req : Request) (principal : Principal) (client_id : ℕ) where
  unfoldable pub create_account_for : CreateAccountBody → List ℕ → Exec (Reply AccountView)
  create_account_for body sent = do
    let ids = distinct sent
    assert_roles_exist h ids client_id
    found ← statement h λ d st. some (
        insert_service_account
          (record { client_id = client_id; name = body.name; description = body.description }) d.id
          d.time st)
    account ← or_throw found (conflict "Service account already exists" none)
    attach_roles h account.id client_id ids
    audit h req (by_principal principal client_id "service_account.created" account.id)
    pure (record { status = 201; body = record { account = account; role_ids = ids } })

  unfoldable pub update_account_for : ℕ → UpdateAccountBody → Exec (Reply AccountView)
  update_account_for id body = do
    refuse_taken_name h id client_id body.name
    time ← now h
    found ← statement h (λ _. update_account_row id client_id body time)
    account ← or_throw found (not_found "Service account not found" none)
    audit h req (by_principal principal client_id "service_account.updated" account.id)
    role_ids ← read h (account_role_ids account.id client_id)
    pure (record { status = 200; body = record { account = account; role_ids = role_ids } })

  unfoldable pub assign_account_role_for : ℕ → ℕ → Exec (Reply (ℕ × ℕ))
  assign_account_role_for id role_id = do
    account ← assert_service_account_belongs_to_client h id client_id
    role ← assert_role_belongs_to_client h role_id client_id
    statement h
        λ d st. some (tt, add_service_account_role (account_role id client_id d.time role_id) st)
    audit h req (by_principal principal client_id "service_account.role_assigned" account.id)
    pure (record { status = 200; body = (id, role_id) })

  unfoldable pub revoke_account_role_for : ℕ → ℕ → Exec (Reply (ℕ × ℕ))
  revoke_account_role_for id role_id = do
    account ← assert_service_account_belongs_to_client h id client_id
    write h (remove_account_role id role_id client_id)
    audit h req (by_principal principal client_id "service_account.role_revoked" account.id)
    pure (record { status = 200; body = (id, role_id) })

  unfoldable pub create_account_key_for : ℕ → AccountKeyBody → Exec (Reply CreatedKey)
  create_account_key_for id body = do
    account ← assert_service_account_belongs_to_client h id client_id
    check account.is_active (
        bad_request "Cannot create a key for an inactive service account"
          (some "SERVICE_ACCOUNT_INACTIVE"))
    generated ← generate_api_key h
    expires_at ← expiry_of h body.expires_in_days
    created ← statement h λ d.
        insert_api_key
          (record {
            client_id = client_id;
            service_account_id = some id;
            key_prefix = generated.prefix;
            key_hash = generated.hash;
            name = body.name;
            scopes = [];
            expires_at = expires_at;
          })
          d.id d.time
    audit h req (by_principal principal client_id "service_account.key_created" created.id)
    pure (record { status = 201; body = record { view = key_view created; key = generated.key } })

-- A path parameter is `none` where it is no UUID.
module _ (env : Env) (h : Host) where
  unfoldable pub list_accounts : Request → Exec (Reply (List AccountView))
  list_accounts req = do
    principal ← permitted env h req "service-accounts:read"
    client_id ← authenticated_client_id principal
    accounts ← read h (λ st. select (λ a. a.client_id == client_id) st.service_accounts)
    views ← account_views h client_id accounts
    pure (record { status = 200; body = views })

  unfoldable pub create_account : Request → CreateAccountBody → Exec (Reply AccountView)
  create_account req body = do
    principal ← permitted env h req "service-accounts:write"
    parse (create_account_schema body)
    sent ← or_throw (uuids body.role_ids) zod_error
    client_id ← authenticated_client_id principal
    create_account_for h req principal client_id body sent

  unfoldable pub update_account : Request → Option ℕ → UpdateAccountBody → Exec (Reply AccountView)
  update_account req param body = do
    principal ← permitted env h req "service-accounts:write"
    id ← or_throw param zod_error
    parse (update_account_schema body)
    client_id ← authenticated_client_id principal
    update_account_for h req principal client_id id body

  unfoldable pub assign_account_role : Request → Option ℕ → Option ℕ → Exec (Reply (ℕ × ℕ))
  assign_account_role req param body = do
    principal ← permitted env h req "service-accounts:write"
    id ← or_throw param zod_error
    role_id ← or_throw body zod_error
    client_id ← authenticated_client_id principal
    assign_account_role_for h req principal client_id id role_id

  unfoldable pub revoke_account_role : Request → Option ℕ → Option ℕ → Exec (Reply (ℕ × ℕ))
  revoke_account_role req param role_param = do
    principal ← permitted env h req "service-accounts:write"
    id ← or_throw param zod_error
    role_id ← or_throw role_param zod_error
    client_id ← authenticated_client_id principal
    revoke_account_role_for h req principal client_id id role_id

  unfoldable pub create_account_key : Request → Option ℕ → AccountKeyBody → Exec (Reply CreatedKey)
  create_account_key req param body = do
    principal ← permitted env h req "service-accounts:write"
    id ← or_throw param zod_error
    parse (account_key_schema body)
    client_id ← authenticated_client_id principal
    create_account_key_for h req principal client_id id body

-- ===== src/Clients/Bootstrap.antt =====
-- routes/clients.ts: `POST /clients/:id/bootstrap`, the first administrator of a tenant.
use identity_platform.Prelude.{
  ℕ, String, Bool, true, false, ◌&&◌, Option, none, some, List, [], ◌∷◌, map, select, find, any,
  append, get_or, is_some, leb, ◌==◌, str_eq, if◌then◌else◌,
}
use identity_platform.Text.{to_lower, utf16_length}
use identity_platform.Errors.{unexpected, bad_request, not_found, conflict, zod_error}
use identity_platform.Schema.{Role, Permission, Store}
use identity_platform.Schema.Inserts.{insert_user}
use identity_platform.Schema.RoleInserts.{
  NewPermission, insert_permissions, insert_role, add_role_permissions,
}
use identity_platform.Exec.{
  Host, Env, Request, Reply, Exec, pure, or_throw, check, statement, read, write, parse, ◌>>=◌,
  ◌>>◌,
}
use identity_platform.Session.{truthy, assign}
use identity_platform.Audit.{audit}
use identity_platform.Admin.{is_empty}
use identity_platform.Users.{user_by_email, invite}
use identity_platform.Clients.{by_operator, registered_client, require_admin_key}

pub record BootstrapBody : Type 0 where
  pub admin_email : String
  pub role_name : Option String

abbrev pub role_name_of : BootstrapBody → String
role_name_of b = get_or b.role_name "admin"

unfoldable pub bootstrap_schema : Host → BootstrapBody → Bool
bootstrap_schema h b =
    (h.is_email b.admin_email && leb (utf16_length b.admin_email) 320)
    && (leb 1 (utf16_length (role_name_of b)) && leb (utf16_length (role_name_of b)) 100)

abbrev managed : String → String → String → NewPermission
managed resource action description = record {
  resource = resource;
  action = action;
  description = some description;
}

-- `MANAGEMENT_PERMISSIONS`
abbrev pub management_permissions : List NewPermission
management_permissions =
    managed "users" "read" "View users"
    ∷ managed "users" "write" "Create and manage users"
    ∷ managed "roles" "read" "View roles and permissions"
    ∷ managed "roles" "write" "Create, edit, assign roles"
    ∷ managed "api-keys" "read" "View API keys"
    ∷ managed "api-keys" "write" "Create and revoke API keys"
    ∷ managed "service-accounts" "read" "View service accounts"
    ∷ managed "service-accounts" "write" "Create and manage service accounts"
    ∷ []

abbrev pub is_management : Permission → Bool
is_management p =
    any (λ m. str_eq m.resource p.resource && str_eq m.action p.action) management_permissions

abbrev pub management_rows : ℕ → Store → List Permission
management_rows client_id st =
    select is_management (select (λ p. p.client_id == client_id) st.permissions)

abbrev pub role_by_name : ℕ → String → Store → Option Role
role_by_name client_id name st = find (λ r. r.client_id == client_id && str_eq r.name name) st.roles

pub record Bootstrapped : Type 0 where
  pub user_id : ℕ
  pub email : String
  pub role_id : ℕ
  pub role_name : String
  pub permissions : List String
  pub invite_sent : Bool

module _ (h : Host) where
  unfoldable pub management_role : ℕ → String → Exec Role
  management_role client_id name = do
    found ← read h (role_by_name client_id name)
    elim found [
      | some role ↦ pure role
      | none ↦ statement h λ d.
          insert_role
            (record {
              client_id = client_id;
              name = name;
              description = some "Tenant administration";
              is_default = false;
            })
            d.id d.time
    ]

  -- drizzle refuses an insert of no rows.
  unfoldable pub grant_management : ℕ → List Permission → Exec (Unit {0})
  grant_management role_id perms = do
    check (if is_empty perms then false else true) unexpected
    write h (add_role_permissions role_id (map (λ p. p.id) perms))

unfoldable pub bootstrap :
    Env → Host → Request → Option ℕ → BootstrapBody → Exec (Reply Bootstrapped)
bootstrap env h req param body = do
  require_admin_key env h req
  id ← or_throw param zod_error
  parse (bootstrap_schema h body)
  found ← read h (registered_client id)
  client ← or_throw found (not_found "Client not found" none)
  url ← or_throw (truthy client.password_reset_url) (
      bad_request "Set passwordResetUrl on the client first, the admin invite links there"
        (some "RESET_URL_NOT_CONFIGURED"))
  let email = to_lower body.admin_email
  existing ← read h (user_by_email client.id email)
  check (if is_some existing then false else true)
      (conflict "Email already registered for this client" (some "EMAIL_EXISTS"))
  statement h
      λ d st. some (insert_permissions client.id management_permissions (h.row_uuid d.id) 0 st)
  perms ← read h (management_rows client.id)
  role ← management_role h client.id (role_name_of body)
  grant_management h role.id perms
  admin ← statement h λ d.
      insert_user
        (record {
          client_id = client.id;
          email = email;
          password_hash = none;
          oauth_provider = none;
          oauth_provider_id = none;
          email_verified = false;
        })
        d.id d.time
  assign h admin.id client.id (role.id ∷ [])
  sent ← invite h admin.id email (append "You have been invited to administer " client.name) url
  audit h req (by_operator client.id "client.bootstrapped")
  pure (record {
    status = 201;
    body = record {
      user_id = admin.id;
      email = admin.email;
      role_id = role.id;
      role_name = role.name;
      permissions = map (λ p. append p.resource (append ":" p.action)) perms;
      invite_sent = sent;
    };
  })

-- ===== src/Roles.antt =====
-- routes/roles.ts: the roles of a client, and whom they are given to.
pub mod Catalog
pub mod Replaced
use identity_platform.Prelude.{
  ℕ, String, Bool, true, false, ◌&&◌, Option, none, some, List, [], ◌∷◌, map, select, find, length,
  get_or, leb, ◌==◌, if◌then◌else◌,
}
use identity_platform.Text.{utf16_length}
use identity_platform.Errors.{bad_request, not_found, zod_error}
use identity_platform.Schema.{User, Role, Permission, RolePermission, UserRole, Store}
use identity_platform.Schema.RoleInserts.{
  NewRole, insert_role, insert_role_permissions, add_user_role,
}
use identity_platform.Exec.{
  Host, Env, Request, Reply, Exec, pure, or_throw, check, statement, read, write, write_returning,
  parse, ◌>>=◌, ◌>>◌,
}
use identity_platform.Permission.{Principal}
use identity_platform.Authenticate.{authenticated_client_id}
use identity_platform.Audit.{audit}
use identity_platform.Session.{flat}
use identity_platform.Admin.{
  permitted, by_principal, uuids, optional_uuids, has_id, distinct, is_empty,
}

pub record CreateRoleBody : Type 0 where
  pub name : String
  pub description : Option String
  pub is_default : Option Bool
  pub permission_ids : Option (List (Option ℕ))

-- An id is `none` where it is no UUID.
pub record AssignRoleBody : Type 0 where
  pub user_id : Option ℕ
  pub role_id : Option ℕ

unfoldable pub create_role_schema : CreateRoleBody → Bool
create_role_schema b = leb 1 (utf16_length b.name) && leb (utf16_length b.name) 100

-- The answer of `GET /roles`.
pub record RoleView : Type 0 where
  pub role : Role
  pub permissions : List Permission

abbrev pub owned_permissions : List ℕ → ℕ → Store → List Permission
owned_permissions ids client_id st =
    select (λ p. has_id ids p.id && p.client_id == client_id) st.permissions

abbrev pub role_of_client : ℕ → ℕ → Store → Option Role
role_of_client id client_id st = find (λ r. r.id == id && r.client_id == client_id) st.roles

abbrev pub user_of_client : ℕ → ℕ → Store → Option User
user_of_client id client_id st = find (λ u. u.id == id && u.client_id == client_id) st.users

-- The permissions joined to a role.
unfoldable pub rows_of_role : ℕ → Store → List Permission
unfolding flat
rows_of_role role_id st =
    flat (λ rp. select (λ p. p.id == rp.permission_id) st.permissions)
      (select (λ rp. rp.role_id == role_id) st.role_permissions)

-- DELETE FROM role_permissions WHERE role_id.
abbrev pub clear_role : ℕ → Store → Store
clear_role role_id st = record st {
  role_permissions =
      select (λ rp. if rp.role_id == role_id then false else true) st.role_permissions;
}

-- DELETE FROM roles … RETURNING; the rows that refer to the role go with it.
unfoldable pub delete_role_row : ℕ → ℕ → Store → Option Role × Store
delete_role_row id client_id st = elim (role_of_client id client_id st) [
  | none ↦ (none, st)
  | some r ↦ (
    some r,
    record st {
      roles = select (λ q. if q.id == id && q.client_id == client_id then false else true) st.roles;
      role_permissions =
          select (λ rp. if rp.role_id == id then false else true) st.role_permissions;
      user_roles = select (λ ur. if ur.role_id == id then false else true) st.user_roles;
      service_account_roles =
          select (λ ar. if ar.role_id == id then false else true) st.service_account_roles;
    },
  )
]

abbrev pub is_user_role : ℕ → ℕ → ℕ → UserRole → Bool
is_user_role user_id role_id client_id ur =
    ur.user_id == user_id && (ur.role_id == role_id && ur.client_id == client_id)

abbrev pub remove_user_role : ℕ → ℕ → ℕ → Store → Store
remove_user_role user_id role_id client_id st = record st {
  user_roles =
      select (λ ur. if is_user_role user_id role_id client_id ur then false else true)
        st.user_roles;
}

module _ (h : Host) where
  unfoldable pub assert_permissions_belong_to_client : List ℕ → ℕ → Exec (Unit {0})
  assert_permissions_belong_to_client ids client_id =
      if is_empty ids
      then pure tt
      else (read h (owned_permissions ids client_id) >>= λ owned.
          check (length owned == length (distinct ids)) (
            bad_request "One or more permissions do not exist for this client"
              (some "UNKNOWN_PERMISSION")))

  unfoldable pub assert_user_belongs_to_client : ℕ → ℕ → Exec (Unit {0})
  assert_user_belongs_to_client user_id client_id = do
    found ← read h (user_of_client user_id client_id)
    user ← or_throw found (not_found "User not found" none)
    pure tt

  -- `if (permissionIds.length > 0)`: an insert of no rows is no statement.
  unfoldable pub attach_permissions : ℕ → List ℕ → Exec (Unit {0})
  attach_permissions role_id ids =
      if is_empty ids then pure tt else statement h (λ d st. insert_role_permissions role_id ids st)

  -- The queries of `Promise.all`, one after the other.
  unfoldable pub role_views : List Role → Exec (List RoleView)
  role_views [] = pure []
  role_views (role ∷ rest) = do
    permissions ← read h (rows_of_role role.id)
    views ← role_views rest
    pure (record { role = role; permissions = permissions } ∷ views)

module _ (h : Host) (req : Request) (principal : Principal) (client_id : ℕ) where
  unfoldable pub create_role_for : CreateRoleBody → List ℕ → Exec (Reply Role)
  create_role_for body ids = do
    assert_permissions_belong_to_client h ids client_id
    role ← statement h λ d.
        insert_role
          (record {
            client_id = client_id;
            name = body.name;
            description = body.description;
            is_default = get_or body.is_default false;
          })
          d.id d.time
    attach_permissions h role.id ids
    audit h req (by_principal principal client_id "role.created" role.id)
    pure (record { status = 201; body = role })

  unfoldable pub replace_permissions_for : ℕ → List ℕ → Exec (Reply (ℕ × List ℕ))
  replace_permissions_for role_id ids = do
    found ← read h (role_of_client role_id client_id)
    role ← or_throw found (not_found "Role not found" none)
    assert_permissions_belong_to_client h ids client_id
    write h (clear_role role_id)
    attach_permissions h role_id ids
    audit h req (by_principal principal client_id "role.permissions_replaced" role_id)
    pure (record { status = 200; body = (role_id, ids) })

  unfoldable pub delete_role_for : ℕ → Exec (Reply String)
  delete_role_for role_id = do
    found ← write_returning h (delete_role_row role_id client_id)
    deleted ← or_throw found (not_found "Role not found" none)
    audit h req (by_principal principal client_id "role.deleted" role_id)
    pure (record { status = 200; body = "Role deleted" })

  unfoldable pub assign_role_for : ℕ → ℕ → Exec (Reply (ℕ × ℕ))
  assign_role_for user_id role_id = do
    found ← read h (role_of_client role_id client_id)
    role ← or_throw found (not_found "Role not found" none)
    assert_user_belongs_to_client h user_id client_id
    statement h λ d st. some (
      tt,
      add_user_role
          (record {
            user_id = user_id;
            role_id = role_id;
            client_id = client_id;
            assigned_at = d.time;
          })
          st,
    )
    audit h req (by_principal principal client_id "role.assigned" user_id)
    pure (record { status = 200; body = (user_id, role_id) })

  unfoldable pub revoke_role_for : ℕ → ℕ → Exec (Reply (ℕ × ℕ))
  revoke_role_for user_id role_id = do
    assert_user_belongs_to_client h user_id client_id
    write h (remove_user_role user_id role_id client_id)
    audit h req (by_principal principal client_id "role.revoked" user_id)
    pure (record { status = 200; body = (user_id, role_id) })

module _ (env : Env) (h : Host) where
  unfoldable pub list_roles : Request → Exec (Reply (List RoleView))
  list_roles req = do
    principal ← permitted env h req "roles:read"
    client_id ← authenticated_client_id principal
    client_roles ← read h (λ st. select (λ r. r.client_id == client_id) st.roles)
    views ← role_views h client_roles
    pure (record { status = 200; body = views })

  unfoldable pub create_role : Request → CreateRoleBody → Exec (Reply Role)
  create_role req body = do
    principal ← permitted env h req "roles:write"
    parse (create_role_schema body)
    ids ← or_throw (optional_uuids body.permission_ids) zod_error
    client_id ← authenticated_client_id principal
    create_role_for h req principal client_id body ids

  unfoldable pub replace_permissions :
      Request → Option ℕ → List (Option ℕ) → Exec (Reply (ℕ × List ℕ))
  replace_permissions req param body = do
    principal ← permitted env h req "roles:write"
    role_id ← or_throw param zod_error
    client_id ← authenticated_client_id principal
    ids ← or_throw (uuids body) zod_error
    replace_permissions_for h req principal client_id role_id ids

  unfoldable pub delete_role : Request → Option ℕ → Exec (Reply String)
  delete_role req param = do
    principal ← permitted env h req "roles:write"
    role_id ← or_throw param zod_error
    client_id ← authenticated_client_id principal
    delete_role_for h req principal client_id role_id

  unfoldable pub assign_role : Request → AssignRoleBody → Exec (Reply (ℕ × ℕ))
  assign_role req body = do
    principal ← permitted env h req "roles:write"
    user_id ← or_throw body.user_id zod_error
    role_id ← or_throw body.role_id zod_error
    client_id ← authenticated_client_id principal
    assign_role_for h req principal client_id user_id role_id

  unfoldable pub revoke_role : Request → AssignRoleBody → Exec (Reply (ℕ × ℕ))
  revoke_role req body = do
    principal ← permitted env h req "roles:write"
    user_id ← or_throw body.user_id zod_error
    role_id ← or_throw body.role_id zod_error
    client_id ← authenticated_client_id principal
    revoke_role_for h req principal client_id user_id role_id

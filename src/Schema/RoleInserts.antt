-- ===== src/Schema/RoleInserts.antt =====
-- db/schema.ts: INSERT statements on permissions, roles and the tables that join them.
use identity_platform.Prelude.{
  ℕ, ◌+◌, String, Bool, ◌&&◌, ◌||◌, Option, none, some, List, [], ◌∷◌, ◌++◌, any, str_eq, ◌==◌,
  if◌then◌else◌,
}
use identity_platform.Schema.{Role, Permission, RolePermission, UserRole, ServiceAccountRole, Store}

pub record NewPermission : Type 0 where
  pub resource : String
  pub action : String
  pub description : Option String

pub record NewRole : Type 0 where
  pub client_id : ℕ
  pub name : String
  pub description : Option String
  pub is_default : Bool

abbrev pub permission_row : ℕ → NewPermission → ℕ → Permission
permission_row client_id p id = record {
  id = id;
  client_id = client_id;
  resource = p.resource;
  action = p.action;
  description = p.description;
}

abbrev pub role_row : NewRole → ℕ → ℕ → Role
role_row r id time = record {
  id = id;
  client_id = r.client_id;
  name = r.name;
  description = r.description;
  is_default = r.is_default;
  created_at = time;
}

-- `.onConflictDoNothing().returning()`: no row where one is there already.
unfoldable pub insert_permission : ℕ → NewPermission → ℕ → Store → Option Permission × Store
insert_permission client_id p id st =
    if any
      (λ r.
        r.id == id
        || (r.client_id == client_id && (str_eq r.resource p.resource && str_eq r.action p.action)))
      st.permissions
    then (none, st)
    else (
      some (permission_row client_id p id),
      record st { permissions = st.permissions ++ permission_row client_id p id ∷ [] },
    )

abbrev pub prepend : {A : Type 0} → Option A → List A → List A
prepend none xs = xs
prepend (some x) xs = x ∷ xs

-- The same with several rows: a row that conflicts, also with an earlier one, is left out.
unfoldable pub insert_permissions :
    ℕ → List NewPermission → (ℕ → ℕ) → ℕ → Store → List Permission × Store
insert_permissions client_id [] ids k st = ([], st)
insert_permissions client_id (p ∷ ps) ids k st =
    let one = insert_permission client_id p (ids k) st in
    let rest = insert_permissions client_id ps ids (k + 1) one.1 in (prepend one.0 rest.0, rest.1)

unfoldable pub insert_role : NewRole → ℕ → ℕ → Store → Option (Role × Store)
insert_role r id time st =
    if any (λ q. q.id == id || (q.client_id == r.client_id && str_eq q.name r.name)) st.roles
    then none
    else some (role_row r id time, record st { roles = st.roles ++ role_row r id time ∷ [] })

abbrev pub is_link : ℕ → ℕ → RolePermission → Bool
is_link role_id permission_id r = r.role_id == role_id && r.permission_id == permission_id

abbrev pub link : ℕ → ℕ → RolePermission
link role_id permission_id = record { role_id = role_id; permission_id = permission_id }

-- `rolePermissions` of one role; the statement is refused as a whole if a pair is there already or
-- comes twice.
unfoldable pub insert_role_permissions : ℕ → List ℕ → Store → Option (Unit {0} × Store)
insert_role_permissions role_id [] st = some (tt, st)
insert_role_permissions role_id (p ∷ ps) st =
    let rest =
      insert_role_permissions role_id ps
        (record st { role_permissions = st.role_permissions ++ link role_id p ∷ [] }) in
    if any (is_link role_id p) st.role_permissions then none else rest

-- `.onConflictDoNothing()`
unfoldable pub add_role_permissions : ℕ → List ℕ → Store → Store
add_role_permissions role_id [] st = st
add_role_permissions role_id (p ∷ ps) st = add_role_permissions role_id ps (
    if any (is_link role_id p) st.role_permissions
    then st
    else record st { role_permissions = st.role_permissions ++ link role_id p ∷ [] })

-- `.onConflictDoNothing()`
unfoldable pub add_user_role : UserRole → Store → Store
add_user_role u st =
    if any (λ r. r.user_id == u.user_id && (r.role_id == u.role_id && r.client_id == u.client_id))
      st.user_roles
    then st
    else record st { user_roles = st.user_roles ++ u ∷ [] }

abbrev pub is_account_role : ServiceAccountRole → ServiceAccountRole → Bool
is_account_role a r =
    r.service_account_id == a.service_account_id
    && (r.role_id == a.role_id && r.client_id == a.client_id)

-- `.onConflictDoNothing()`
unfoldable pub add_service_account_role : ServiceAccountRole → Store → Store
add_service_account_role a st =
    if any (is_account_role a) st.service_account_roles
    then st
    else record st { service_account_roles = st.service_account_roles ++ a ∷ [] }

unfoldable pub insert_service_account_roles :
    List ServiceAccountRole → Store → Option (Unit {0} × Store)
insert_service_account_roles [] st = some (tt, st)
insert_service_account_roles (a ∷ rest_of) st =
    let rest =
      insert_service_account_roles rest_of
        (record st { service_account_roles = st.service_account_roles ++ a ∷ [] }) in
    if any (is_account_role a) st.service_account_roles then none else rest

-- ===== src/Roles/Catalog.antt =====
-- routes/roles.ts: the permissions that a client's roles can carry.
use identity_platform.Prelude.{
  ℕ, Bool, true, ◌&&◌, none, some, List, [], ◌∷◌, select, length, leb, ◌==◌,
}
use identity_platform.Text.{utf16_length}
use identity_platform.Errors.{conflict}
use identity_platform.Schema.{Permission}
use identity_platform.Schema.RoleInserts.{NewPermission, insert_permission, insert_permissions}
use identity_platform.Exec.{
  Host, Env, Request, Reply, Exec, pure, or_throw, statement, read, parse, ◌>>=◌, ◌>>◌,
}
use identity_platform.Permission.{Principal}
use identity_platform.Authenticate.{authenticated_client_id}
use identity_platform.Audit.{audit}
use identity_platform.Admin.{permitted, by_principal}

unfoldable pub create_permission_schema : NewPermission → Bool
create_permission_schema b =
    leb 1 (utf16_length b.resource)
    && (leb (utf16_length b.resource) 100
        && (leb 1 (utf16_length b.action) && leb (utf16_length b.action) 50))

abbrev pub all_fit : List NewPermission → Bool
all_fit [] = true
all_fit (p ∷ ps) = create_permission_schema p && all_fit ps

-- `z.array(createPermissionSchema).min(1).max(100)`
unfoldable pub bulk_schema : List NewPermission → Bool
bulk_schema ps = leb 1 (length ps) && (leb (length ps) 100 && all_fit ps)

module _ (h : Host) (req : Request) (principal : Principal) (client_id : ℕ) where
  unfoldable pub create_permission_for : NewPermission → Exec (Reply Permission)
  create_permission_for body = do
    found ← statement h (λ d st. some (insert_permission client_id body d.id st))
    perm ← or_throw found (conflict "Permission already exists" none)
    audit h req (by_principal principal client_id "permission.created" perm.id)
    pure (record { status = 201; body = perm })

  unfoldable pub audit_created : List Permission → Exec (Unit {0})
  audit_created [] = pure tt
  audit_created (perm ∷ perms) = do
    audit h req (by_principal principal client_id "permission.created" perm.id)
    audit_created perms

  unfoldable pub create_permissions_for : List NewPermission → Exec (Reply (ℕ × List Permission))
  create_permissions_for body = do
    created ← statement h λ d st. some (insert_permissions client_id body (h.row_uuid d.id) 0 st)
    audit_created created
    pure (record { status = 201; body = (length created, created) })

module _ (env : Env) (h : Host) where
  unfoldable pub list_permissions : Request → Exec (Reply (List Permission))
  list_permissions req = do
    principal ← permitted env h req "roles:read"
    client_id ← authenticated_client_id principal
    all ← read h (λ st. select (λ p. p.client_id == client_id) st.permissions)
    pure (record { status = 200; body = all })

  unfoldable pub create_permission : Request → NewPermission → Exec (Reply Permission)
  create_permission req body = do
    principal ← permitted env h req "roles:write"
    parse (create_permission_schema body)
    client_id ← authenticated_client_id principal
    create_permission_for h req principal client_id body

  unfoldable pub create_permissions :
      Request → List NewPermission → Exec (Reply (ℕ × List Permission))
  create_permissions req body = do
    principal ← permitted env h req "roles:write"
    parse (bulk_schema body)
    client_id ← authenticated_client_id principal
    create_permissions_for h req principal client_id body

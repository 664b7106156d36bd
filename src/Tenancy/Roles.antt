-- ===== src/Tenancy/Roles.antt =====
-- routes/roles.ts keeps the rows of different clients apart.
use identity_platform.Prelude.{ℕ, List, [], ◌∷◌, ◌≡◌, Option-cases, inl, inr}
use identity_platform.Schema.{Role, Permission, Store}
use identity_platform.Schema.RoleInserts.{NewPermission, insert_permission, insert_permissions}
use identity_platform.Exec.{Host, Request}
use identity_platform.Exec.Invariant.{
  Respects, Maintains, Anything, pure_keeps, or_throw_keeps, bind_keeps, statement_keeps,
  total_keeps, write_keeps, write_returning_keeps,
}
use identity_platform.Permission.{Principal}
use identity_platform.Roles.{
  CreateRoleBody, clear_role, delete_role_row, role_of_client, remove_user_role, create_role_for,
  replace_permissions_for, delete_role_for, assign_role_for, revoke_role_for,
}
use identity_platform.Roles.Catalog.{create_permission_for, audit_created, create_permissions_for}
use identity_platform.Tenancy.{
  IsTied, IsRole, IsRolePermission, IsUserRole, IsAccountRole, with_roles, with_role_permissions,
  with_user_roles, with_account_roles,
}
use identity_platform.Tenancy.Rows.{All-select, unique-select}
use identity_platform.Tenancy.Statements.{
  insert_permission-IsTied, insert_permissions-IsTied, insert_role-IsTied, add_user_role-IsTied,
}
use identity_platform.Tenancy.Checks.{
  audit_keeps, role_keeps, assert_permissions_keeps, assert_user_keeps, attach_permissions_keeps,
}

module _ (owner : ℕ → ℕ) where
  clear_role-IsTied :
      (role_id : ℕ) (st : Store) → IsTied owner st → IsTied owner (clear_role role_id st)
  clear_role-IsTied role_id st t =
      with_role_permissions t _
        (All-select (IsRolePermission owner) _ st.role_permissions t.of_role_permissions)

  remove_user_role-IsTied :
      (user_id role_id c : ℕ) (st : Store)
      → IsTied owner st
      → IsTied owner (remove_user_role user_id role_id c st)
  remove_user_role-IsTied user_id role_id c st t =
      with_user_roles t _ (All-select (IsUserRole owner) _ st.user_roles t.of_user_roles)

  delete_role_row-IsTied :
      (id c : ℕ) (st : Store) → IsTied owner st → IsTied owner (delete_role_row id c st).1
  unfolding delete_role_row
  delete_role_row-IsTied id c st t = elim (Option-cases (role_of_client id c st)) [
    | inl missing ↦ rw (missing, delete_role_row) t
    | inr (r, found) ↦
        rw (found, delete_role_row)
          (with_account_roles
            (with_user_roles
              (with_role_permissions
                (with_roles t _ (All-select (IsRole owner) _ st.roles t.of_roles)
                  (unique-select (λ (r : Role). r.id) _ st.roles t.roles_unique))
                _ (All-select (IsRolePermission owner) _ st.role_permissions t.of_role_permissions))
              _ (All-select (IsUserRole owner) _ st.user_roles t.of_user_roles))
            _ (All-select (IsAccountRole owner) _ st.service_account_roles t.of_account_roles))
  ]

module _ {owner : ℕ → ℕ} {h : Host} (o : Respects (IsTied owner) h) (req : Request)
    (principal : Principal) (c : ℕ) where
  module _ (drawn : (k : ℕ) → owner (h.uuid k) ≡ c) where
    pub create_permission_keeps :
        (body : NewPermission)
        → Maintains (IsTied owner) (create_permission_for h req principal c body) Anything
    unfolding create_permission_for
    create_permission_keeps body =
        bind_keeps
          (total_keeps o {Q = Anything} (λ d st. insert_permission c body d.id st)
            λ k st t. (tt, insert_permission-IsTied owner c body (h.uuid k) st (drawn k) t))
          λ found _.
            bind_keeps (or_throw_keeps found _)
              λ perm _. bind_keeps (audit_keeps o req _) λ _ _. pure_keeps _ tt

    pub create_role_keeps :
        (body : CreateRoleBody) (ids : List ℕ)
        → Maintains (IsTied owner) (create_role_for h req principal c body ids) Anything
    unfolding create_role_for
    create_role_keeps body ids = bind_keeps (assert_permissions_keeps o ids c) λ _ each.
        bind_keeps
          (statement_keeps o {Q = λ role. owner role.id ≡ c} _ λ k st role st' t e.
            insert_role-IsTied owner _ (h.uuid k) (h.clock k) st role st' (drawn k) t e)
          λ role own.
            bind_keeps (attach_permissions_keeps o role.id c ids own each)
              λ _ _. bind_keeps (audit_keeps o req _) λ _ _. pure_keeps _ tt

  audit_created_keeps :
      (perms : List Permission)
      → Maintains (IsTied owner) (audit_created h req principal c perms) Anything
  unfolding audit_created
  audit_created_keeps [] = pure_keeps tt tt
  audit_created_keeps (perm ∷ perms) =
      bind_keeps (audit_keeps o req _) λ _ _. audit_created_keeps perms

  pub create_permissions_keeps :
      (body : List NewPermission)
      → ((k i : ℕ) → owner (h.row_uuid (h.uuid k) i) ≡ c)
      → Maintains (IsTied owner) (create_permissions_for h req principal c body) Anything
  unfolding create_permissions_for
  create_permissions_keeps body drawn =
      bind_keeps
        (total_keeps o {Q = Anything} (λ d st. insert_permissions c body (h.row_uuid d.id) 0 st)
          λ k st t.
            (tt, insert_permissions-IsTied owner c body (h.row_uuid (h.uuid k)) 0 st (drawn k) t))
        λ created _. bind_keeps (audit_created_keeps created) λ _ _. pure_keeps _ tt

  pub replace_permissions_keeps :
      (role_id : ℕ) (ids : List ℕ)
      → Maintains (IsTied owner) (replace_permissions_for h req principal c role_id ids) Anything
  unfolding replace_permissions_for
  replace_permissions_keeps role_id ids = bind_keeps (role_keeps o role_id c) λ found tells.
      bind_keeps (or_throw_keeps found _) λ role is_found.
        bind_keeps (assert_permissions_keeps o ids c) λ _ each.
          bind_keeps (write_keeps o _ (clear_role-IsTied owner role_id)) λ _ _.
            bind_keeps (attach_permissions_keeps o role_id c ids (tells role is_found) each)
              λ _ _. bind_keeps (audit_keeps o req _) λ _ _. pure_keeps _ tt

  pub delete_role_keeps :
      (role_id : ℕ) → Maintains (IsTied owner) (delete_role_for h req principal c role_id) Anything
  unfolding delete_role_for
  delete_role_keeps role_id =
      bind_keeps
        (write_returning_keeps o {Q = Anything} _
          λ st t. (tt, delete_role_row-IsTied owner role_id c st t))
        λ found _.
          bind_keeps (or_throw_keeps found _)
            λ role _. bind_keeps (audit_keeps o req _) λ _ _. pure_keeps _ tt

  pub assign_role_keeps :
      (user_id role_id : ℕ)
      → Maintains (IsTied owner) (assign_role_for h req principal c user_id role_id) Anything
  unfolding assign_role_for
  assign_role_keeps user_id role_id = bind_keeps (role_keeps o role_id c) λ found tells.
      bind_keeps (or_throw_keeps found _) λ role is_found.
        bind_keeps (assert_user_keeps o user_id c) λ _ own.
          bind_keeps
            (total_keeps o {Q = Anything} _
              λ k st t. (tt, add_user_role-IsTied owner _ st (own, tells role is_found) t))
            λ _ _. bind_keeps (audit_keeps o req _) λ _ _. pure_keeps _ tt

  pub revoke_role_keeps :
      (user_id role_id : ℕ)
      → Maintains (IsTied owner) (revoke_role_for h req principal c user_id role_id) Anything
  unfolding revoke_role_for
  revoke_role_keeps user_id role_id = bind_keeps (assert_user_keeps o user_id c) λ _ _.
      bind_keeps (write_keeps o _ (remove_user_role-IsTied owner user_id role_id c))
        λ _ _. bind_keeps (audit_keeps o req _) λ _ _. pure_keeps _ tt

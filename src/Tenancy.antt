-- ===== src/Tenancy.antt =====
-- db/schema.ts and the administration routes: no row ties one client's rows to another's.
pub mod Rows
pub mod Statements
pub mod Checks
pub mod Roles
pub mod Accounts
pub mod Calls
pub mod Grants
use identity_platform.Prelude.{ℕ, true, List, map, ◌≡◌, All}
use identity_platform.Schema.{
  Role, Permission, User, ServiceAccount, RolePermission, UserRole, ServiceAccountRole, Store,
}
use identity_platform.Admin.Ids.{unique}

-- `owner` is the client for whose rows an id is drawn.
module _ (owner : ℕ → ℕ) where
  abbrev pub IsRole : Role → Type 0
  IsRole r = owner r.id ≡ r.client_id

  abbrev pub IsPermission : Permission → Type 0
  IsPermission p = owner p.id ≡ p.client_id

  abbrev pub IsUser : User → Type 0
  IsUser u = owner u.id ≡ u.client_id

  abbrev pub IsAccount : ServiceAccount → Type 0
  IsAccount a = owner a.id ≡ a.client_id

  abbrev pub IsRolePermission : RolePermission → Type 0
  IsRolePermission rp = owner rp.role_id ≡ owner rp.permission_id

  abbrev pub IsUserRole : UserRole → Type 0
  IsUserRole ur = (owner ur.user_id ≡ ur.client_id) × (owner ur.role_id ≡ ur.client_id)

  abbrev pub IsAccountRole : ServiceAccountRole → Type 0
  IsAccountRole ar =
      (owner ar.service_account_id ≡ ar.client_id) × (owner ar.role_id ≡ ar.client_id)

pub record Tied (owner : ℕ → ℕ) (roles : List Role) (permissions : List Permission)
    (users : List User) (accounts : List ServiceAccount) (role_permissions : List RolePermission)
    (user_roles : List UserRole) (account_roles : List ServiceAccountRole) : Type 0 where
  pub of_roles : All (IsRole owner) roles
  pub of_permissions : All (IsPermission owner) permissions
  pub of_users : All (IsUser owner) users
  pub of_accounts : All (IsAccount owner) accounts
  pub of_role_permissions : All (IsRolePermission owner) role_permissions
  pub of_user_roles : All (IsUserRole owner) user_roles
  pub of_account_roles : All (IsAccountRole owner) account_roles
  pub roles_unique : unique (map (λ r. r.id) roles) ≡ true
  pub permissions_unique : unique (map (λ p. p.id) permissions) ≡ true

abbrev pub IsTied : (ℕ → ℕ) → Store → Type 0
IsTied owner st =
    Tied owner st.roles st.permissions st.users st.service_accounts st.role_permissions
      st.user_roles st.service_account_roles

-- Another table in the place of one.
module _ {owner : ℕ → ℕ} {roles : List Role} {permissions : List Permission} {users : List User}
    {accounts : List ServiceAccount} {role_permissions : List RolePermission}
    {user_roles : List UserRole} {account_roles : List ServiceAccountRole}
    (t : Tied owner roles permissions users accounts role_permissions user_roles
      account_roles) where
  pub with_roles :
      (new : List Role)
      → All (IsRole owner) new
      → unique (map (λ x. x.id) new) ≡ true
      → Tied owner new permissions users accounts role_permissions user_roles account_roles
  with_roles new each distinct = record {
    of_roles = each;
    of_permissions = t.of_permissions;
    of_users = t.of_users;
    of_accounts = t.of_accounts;
    of_role_permissions = t.of_role_permissions;
    of_user_roles = t.of_user_roles;
    of_account_roles = t.of_account_roles;
    roles_unique = distinct;
    permissions_unique = t.permissions_unique;
  }

  pub with_permissions :
      (new : List Permission)
      → All (IsPermission owner) new
      → unique (map (λ x. x.id) new) ≡ true
      → Tied owner roles new users accounts role_permissions user_roles account_roles
  with_permissions new each distinct = record {
    of_roles = t.of_roles;
    of_permissions = each;
    of_users = t.of_users;
    of_accounts = t.of_accounts;
    of_role_permissions = t.of_role_permissions;
    of_user_roles = t.of_user_roles;
    of_account_roles = t.of_account_roles;
    roles_unique = t.roles_unique;
    permissions_unique = distinct;
  }

  pub with_users :
      (new : List User)
      → All (IsUser owner) new
      → Tied owner roles permissions new accounts role_permissions user_roles account_roles
  with_users new each = record {
    of_roles = t.of_roles;
    of_permissions = t.of_permissions;
    of_users = each;
    of_accounts = t.of_accounts;
    of_role_permissions = t.of_role_permissions;
    of_user_roles = t.of_user_roles;
    of_account_roles = t.of_account_roles;
    roles_unique = t.roles_unique;
    permissions_unique = t.permissions_unique;
  }

  pub with_accounts :
      (new : List ServiceAccount)
      → All (IsAccount owner) new
      → Tied owner roles permissions users new role_permissions user_roles account_roles
  with_accounts new each = record {
    of_roles = t.of_roles;
    of_permissions = t.of_permissions;
    of_users = t.of_users;
    of_accounts = each;
    of_role_permissions = t.of_role_permissions;
    of_user_roles = t.of_user_roles;
    of_account_roles = t.of_account_roles;
    roles_unique = t.roles_unique;
    permissions_unique = t.permissions_unique;
  }

  pub with_role_permissions :
      (new : List RolePermission)
      → All (IsRolePermission owner) new
      → Tied owner roles permissions users accounts new user_roles account_roles
  with_role_permissions new each = record {
    of_roles = t.of_roles;
    of_permissions = t.of_permissions;
    of_users = t.of_users;
    of_accounts = t.of_accounts;
    of_role_permissions = each;
    of_user_roles = t.of_user_roles;
    of_account_roles = t.of_account_roles;
    roles_unique = t.roles_unique;
    permissions_unique = t.permissions_unique;
  }

  pub with_user_roles :
      (new : List UserRole)
      → All (IsUserRole owner) new
      → Tied owner roles permissions users accounts role_permissions new account_roles
  with_user_roles new each = record {
    of_roles = t.of_roles;
    of_permissions = t.of_permissions;
    of_users = t.of_users;
    of_accounts = t.of_accounts;
    of_role_permissions = t.of_role_permissions;
    of_user_roles = each;
    of_account_roles = t.of_account_roles;
    roles_unique = t.roles_unique;
    permissions_unique = t.permissions_unique;
  }

  pub with_account_roles :
      (new : List ServiceAccountRole)
      → All (IsAccountRole owner) new
      → Tied owner roles permissions users accounts role_permissions user_roles new
  with_account_roles new each = record {
    of_roles = t.of_roles;
    of_permissions = t.of_permissions;
    of_users = t.of_users;
    of_accounts = t.of_accounts;
    of_role_permissions = t.of_role_permissions;
    of_user_roles = t.of_user_roles;
    of_account_roles = each;
    roles_unique = t.roles_unique;
    permissions_unique = t.permissions_unique;
  }

-- ===== src/Tenancy/Grants.antt =====
-- services/session.ts and serviceAccount.ts: whose permissions a principal of a client has.
use identity_platform.Prelude.{
  ℕ, String, ◌&&◌, List, [], ◌∷◌, append, ◌==◌, ==_iff, and-eq-true, ◌≡◌, sym, ◌∙◌, ap, inl, inr,
  Some, All,
}
use identity_platform.Schema.{Permission, Store}
use identity_platform.Session.{user_permissions, permissions_of_role}
use identity_platform.Session.Grants.{
  Some-flat, Some-select, Grants, permissions_of_role_iff, user_permissions_iff,
}
use identity_platform.Authenticate.{service_account_permissions}
use identity_platform.Tenancy.{IsTied, IsPermission, IsRolePermission, IsUserRole, IsAccountRole}

-- A permission of the client that reads so.
abbrev pub IsOwn : ℕ → String → Permission → Type 0
IsOwn c text p = (p.client_id ≡ c) × (append p.resource (append ":" p.action) ≡ text)

module _ {A : Type 0} (P Q : A → Type 0) where
  -- From one row to a conclusion that depends on no row.
  Some-elim : {C : Type 0} (xs : List A) → All P xs → ((x : A) → P x → Q x → C) → Some Q xs → C
  Some-elim [] all k h = absurd h
  Some-elim (x ∷ xs) all k (inl here) = k x all.0 here
  Some-elim (x ∷ xs) all k (inr there) = Some-elim xs all.1 k there

  Some-both :
      {R : A → Type 0} (xs : List A)
      → All P xs
      → ((x : A) → P x → Q x → R x)
      → Some Q xs
      → Some R xs
  Some-both [] all k h = h
  Some-both (x ∷ xs) all k (inl here) = inl (k x all.0 here)
  Some-both (x ∷ xs) all k (inr there) = inr (Some-both xs all.1 k there)

module _ (owner : ℕ → ℕ) (c : ℕ) (text : String) (st : Store) (t : IsTied owner st) where
  role-IsOwn :
      (role_id : ℕ)
      → owner role_id ≡ c
      → Grants role_id text st
      → Some (IsOwn c text) st.permissions
  role-IsOwn role_id own =
      Some-elim (IsRolePermission owner) _ st.role_permissions t.of_role_permissions
        λ rp tied (of_role, granted).
          Some-both (IsPermission owner) _ st.permissions t.of_permissions
            (λ p mine (same, reads).
              (sym mine ∙ (ap owner same ∙ (sym tied ∙ (ap owner of_role ∙ own))), reads))
            granted

  of_account :
      (id : ℕ)
      → Some (λ s. s ≡ text) (service_account_permissions id c st)
      → Some (IsOwn c text) st.permissions
  unfolding service_account_permissions
  of_account id h =
      Some-elim (IsAccountRole owner) _ st.service_account_roles t.of_account_roles
        (λ ar (_, role) (e, granted).
          let (_, same) = and-eq-true (ar.service_account_id == id) (ar.client_id == c) e in
          role-IsOwn ar.role_id (role ∙ (==_iff ar.client_id c).0 same)
            ((permissions_of_role_iff ar.role_id text st).0 granted))
        ((Some-select (λ ar. Some (λ s. s ≡ text) (permissions_of_role ar.role_id st))
            (λ ar. ar.service_account_id == id && ar.client_id == c) st.service_account_roles).0
          ((Some-flat (λ s. s ≡ text) _ _).0 h))

-- Where the rows of different clients are apart, whatever `getUserPermissions` and
-- `getServiceAccountPermissions` list for a user or a service account of a client is the text of a
-- permission that this client has.
pub user_permissions-IsOwn :
    (owner : ℕ → ℕ) (id c : ℕ) (text : String) (st : Store)
    → IsTied owner st
    → (Some (λ s. s ≡ text) (user_permissions id c st) → Some (IsOwn c text) st.permissions)
      × (Some (λ s. s ≡ text) (service_account_permissions id c st)
          → Some (IsOwn c text) st.permissions)
user_permissions-IsOwn owner id c text st t = (
  λ h.
      Some-elim (IsUserRole owner) _ st.user_roles t.of_user_roles
        (λ ur (_, role) (_, same, granted).
          role-IsOwn owner c text st t ur.role_id (role ∙ same) granted)
        ((user_permissions_iff id c text st).0 h),
  of_account owner c text st t id,
)

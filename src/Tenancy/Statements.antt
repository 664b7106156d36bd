-- ===== src/Tenancy/Statements.antt =====
-- db/schema.ts: which statements tie no rows of different clients together.
use identity_platform.Prelude.{
  ℕ, ◌+◌, Bool, true, false, ◌&&◌, ◌||◌, Option, none, some, List, [], ◌∷◌, ◌++◌, map, any, ◌==◌,
  ◌≡◌, refl, sym, subst, ◌∙◌, arith, if◌then◌else◌, All, Bool-cases, inl, inr,
}
use identity_platform.Schema.{
  Role, Permission, User, ServiceAccount, UserRole, ServiceAccountRole, ApiKey, Store,
}
use identity_platform.Schema.Inserts.{
  NewUser, insert_user, insert_user_role, insert_user_roles, NewAuditLog, insert_audit_log,
  NewAccountToken, insert_account_token,
}
use identity_platform.Schema.RoleInserts.{
  NewPermission, NewRole, insert_permission, insert_permissions, insert_role, is_link, link,
  insert_role_permissions, add_role_permissions, add_user_role, add_service_account_role,
  is_account_role, insert_service_account_roles,
}
use identity_platform.Schema.KeyInserts.{
  NewServiceAccount, insert_service_account, service_account_row, NewApiKey, insert_api_key,
}
use identity_platform.Admin.{has_id}
use identity_platform.Tenancy.{
  IsRole, IsPermission, IsUser, IsAccount, IsRolePermission, IsUserRole, IsAccountRole, IsTied,
  with_roles, with_permissions, with_users, with_accounts, with_role_permissions, with_user_roles,
  with_account_roles,
}
use identity_platform.Tenancy.Rows.{All-append, unique-append}

-- What a statement keeps, if it is not refused.
pub allowed :
    {A : Type 0} (I : A → Type 0) (b : Bool) (x y : A)
    → (b ≡ false → I x)
    → (if b then none else some x) ≡ some y
    → I y
allowed I true x y k e = absurd (cc)
allowed I false x y k e = subst I (ground arith) (k refl)

pub skipped :
    {A : Type 0} (I : A → Type 0) (b : Bool) (x y : A)
    → I x
    → (b ≡ false → I y)
    → I (if b then x else y)
skipped I true x y hx k = hx
skipped I false x y hx k = k refl

module _ {A : Type 0} (id : A → ℕ) (other : A → Bool) where
  -- No conflict on the id.
  no_conflict :
      (i : ℕ) (xs : List A)
      → any (λ r. id r == i || other r) xs ≡ false
      → has_id (map id xs) i ≡ false
  no_conflict i [] h = refl
  no_conflict i (x ∷ xs) h = ground (arith, no_conflict i xs)

module _ (owner : ℕ → ℕ) where
  pub insert_permission-IsTied :
      (c : ℕ) (p : NewPermission) (id : ℕ) (st : Store)
      → owner id ≡ c
      → IsTied owner st
      → IsTied owner (insert_permission c p id st).1
  unfolding insert_permission
  insert_permission-IsTied c p id st own t =
      skipped (λ (z : Option Permission × Store). IsTied owner z.1) (any _ st.permissions) _ _ t
        λ free.
          with_permissions t _
            (All-append (IsPermission owner) st.permissions _ t.of_permissions own)
            (unique-append (λ (p : Permission). p.id) st.permissions _ t.permissions_unique
              (no_conflict (λ (p : Permission). p.id) _ id st.permissions free))

  pub insert_permissions-IsTied :
      (c : ℕ) (ps : List NewPermission) (ids : ℕ → ℕ) (k : ℕ) (st : Store)
      → ((i : ℕ) → owner (ids i) ≡ c)
      → IsTied owner st
      → IsTied owner (insert_permissions c ps ids k st).1
  unfolding insert_permissions
  insert_permissions-IsTied c [] ids k st own t = t
  insert_permissions-IsTied c (p ∷ ps) ids k st own t =
      insert_permissions-IsTied c ps ids (k + 1) (insert_permission c p (ids k) st).1 own
        (insert_permission-IsTied c p (ids k) st (own k) t)

  pub insert_role-IsTied :
      (r : NewRole) (id time : ℕ) (st : Store) (role : Role) (st' : Store)
      → owner id ≡ r.client_id
      → IsTied owner st
      → insert_role r id time st ≡ some (role, st')
      → (owner role.id ≡ r.client_id) × IsTied owner st'
  unfolding insert_role
  insert_role-IsTied r id time st role st' own t e =
      allowed (λ (z : Role × Store). (owner z.0.id ≡ r.client_id) × IsTied owner z.1)
        (any _ st.roles) _ _
        (λ free. (
          own,
          with_roles t _ (All-append (IsRole owner) st.roles _ t.of_roles own) (
              unique-append (λ (r : Role). r.id) st.roles _ t.roles_unique
                (no_conflict (λ (r : Role). r.id) _ id st.roles free)),
        ))
        e

  pub insert_role_permissions-IsTied :
      (role_id c : ℕ) (ids : List ℕ) (st : Store) (u : Unit {0}) (st' : Store)
      → owner role_id ≡ c
      → All (λ i. owner i ≡ c) ids
      → IsTied owner st
      → insert_role_permissions role_id ids st ≡ some (u, st')
      → IsTied owner st'
  unfolding insert_role_permissions
  insert_role_permissions-IsTied role_id c [] st u st' own each t e =
      subst (λ (z : Option (Unit {0} × Store)). elim z [ none ↦ Unit | some r ↦ IsTied owner r.1 ])
        e t
  insert_role_permissions-IsTied role_id c (p ∷ ps) st u st' own each t e =
      elim (Bool-cases (any (is_link role_id p) st.role_permissions)) [
        | inl taken ↦ absurd (cc (rw taken at e))
        | inr free ↦
            insert_role_permissions-IsTied role_id c ps
              (record st { role_permissions = st.role_permissions ++ link role_id p ∷ [] }) u st'
              own each.1
              (with_role_permissions t _ (
                All-append (IsRolePermission owner) st.role_permissions _ t.of_role_permissions
                  (own ∙ sym each.0)))
              (rw free at e)
      ]

  pub add_role_permissions-IsTied :
      (role_id c : ℕ) (ids : List ℕ) (st : Store)
      → owner role_id ≡ c
      → All (λ i. owner i ≡ c) ids
      → IsTied owner st
      → IsTied owner (add_role_permissions role_id ids st)
  unfolding add_role_permissions
  add_role_permissions-IsTied role_id c [] st own each t = t
  add_role_permissions-IsTied role_id c (p ∷ ps) st own each t =
      add_role_permissions-IsTied role_id c ps _ own each.1 (
        skipped (IsTied owner) (any (is_link role_id p) st.role_permissions) _ _ t λ free.
          with_role_permissions t _ (
            All-append (IsRolePermission owner) st.role_permissions _ t.of_role_permissions
              (own ∙ sym each.0)))

  pub add_user_role-IsTied :
      (u : UserRole) (st : Store)
      → IsUserRole owner u
      → IsTied owner st
      → IsTied owner (add_user_role u st)
  unfolding add_user_role
  add_user_role-IsTied u st own t = skipped (IsTied owner) (any _ st.user_roles) _ _ t λ free.
      with_user_roles t _ (All-append (IsUserRole owner) st.user_roles _ t.of_user_roles own)

  pub insert_user_roles-IsTied :
      (us : List UserRole) (st : Store) (u : Unit {0}) (st' : Store)
      → All (IsUserRole owner) us
      → IsTied owner st
      → insert_user_roles us st ≡ some (u, st')
      → IsTied owner st'
  unfolding insert_user_roles insert_user_role
  insert_user_roles-IsTied [] st u st' each t e =
      subst (λ (z : Option (Unit {0} × Store)). elim z [ none ↦ Unit | some r ↦ IsTied owner r.1 ])
        e t
  insert_user_roles-IsTied (r ∷ rs) st u st' each t e =
      elim (Bool-cases (
        any (λ q. q.user_id == r.user_id && q.role_id == r.role_id && q.client_id == r.client_id)
          st.user_roles)) [
            | inl taken ↦ absurd (cc (rw (taken, insert_user_roles, insert_user_role) at e))
            | inr free ↦
                insert_user_roles-IsTied rs (record st { user_roles = st.user_roles ++ r ∷ [] }) u
                  st' each.1
                  (with_user_roles t _
                    (All-append (IsUserRole owner) st.user_roles _ t.of_user_roles each.0))
                  (rw (free, insert_user_roles, insert_user_role) at e)
          ]

  pub add_service_account_role-IsTied :
      (a : ServiceAccountRole) (st : Store)
      → IsAccountRole owner a
      → IsTied owner st
      → IsTied owner (add_service_account_role a st)
  unfolding add_service_account_role
  add_service_account_role-IsTied a st own t =
      skipped (IsTied owner) (any (is_account_role a) st.service_account_roles) _ _ t λ free.
        with_account_roles t _
          (All-append (IsAccountRole owner) st.service_account_roles _ t.of_account_roles own)

  pub insert_service_account_roles-IsTied :
      (rows : List ServiceAccountRole) (st : Store) (u : Unit {0}) (st' : Store)
      → All (IsAccountRole owner) rows
      → IsTied owner st
      → insert_service_account_roles rows st ≡ some (u, st')
      → IsTied owner st'
  unfolding insert_service_account_roles
  insert_service_account_roles-IsTied [] st u st' each t e =
      subst (λ (z : Option (Unit {0} × Store)). elim z [ none ↦ Unit | some r ↦ IsTied owner r.1 ])
        e t
  insert_service_account_roles-IsTied (r ∷ rs) st u st' each t e =
      elim (Bool-cases (any (is_account_role r) st.service_account_roles)) [
        | inl taken ↦ absurd (cc (rw taken at e))
        | inr free ↦
            insert_service_account_roles-IsTied rs
              (record st { service_account_roles = st.service_account_roles ++ r ∷ [] }) u st'
              each.1
              (with_account_roles t _ (
                All-append (IsAccountRole owner) st.service_account_roles _ t.of_account_roles
                  each.0))
              (rw free at e)
      ]

  pub insert_user-IsTied :
      (n : NewUser) (id time : ℕ) (st : Store) (user : User) (st' : Store)
      → owner id ≡ n.client_id
      → IsTied owner st
      → insert_user n id time st ≡ some (user, st')
      → (owner user.id ≡ n.client_id) × IsTied owner st'
  unfolding insert_user
  insert_user-IsTied n id time st user st' own t e =
      allowed (λ (z : User × Store). (owner z.0.id ≡ n.client_id) × IsTied owner z.1)
        (any _ st.users) _ _
        (λ free. (own, with_users t _ (All-append (IsUser owner) st.users _ t.of_users own))) e

  pub insert_service_account-IsTied :
      (n : NewServiceAccount) (id time : ℕ) (st : Store)
      → owner id ≡ n.client_id
      → IsTied owner st
      → ((a : ServiceAccount)
          → (insert_service_account n id time st).0 ≡ some a
          → owner a.id ≡ n.client_id)
        × IsTied owner (insert_service_account n id time st).1
  unfolding insert_service_account
  insert_service_account-IsTied n id time st own t =
      skipped
        (λ (z : Option ServiceAccount × Store).
          ((a : ServiceAccount) → z.0 ≡ some a → owner a.id ≡ n.client_id) × IsTied owner z.1)
        (any _ st.service_accounts) _ _ (λ a e. absurd (cc), t)
        λ free. (
          λ a e.
              let same : service_account_row n id time ≡ a = ground arith in
              subst (λ (x : ServiceAccount). owner x.id ≡ n.client_id) same own,
          with_accounts t _ (All-append (IsAccount owner) st.service_accounts _ t.of_accounts own),
        )

  -- These write to other tables.
  pub insert_api_key-IsTied :
      (k : NewApiKey) (id time : ℕ) (st : Store) (key : ApiKey) (st' : Store)
      → IsTied owner st
      → insert_api_key k id time st ≡ some (key, st')
      → IsTied owner st'
  unfolding insert_api_key
  insert_api_key-IsTied k id time st key st' t e =
      allowed (λ (z : ApiKey × Store). IsTied owner z.1) (any _ st.api_keys) _ _ (λ free. t) e

  pub insert_audit_log-IsTied :
      (a : NewAuditLog) (id time : ℕ) (st : Store) (u : Unit {0}) (st' : Store)
      → IsTied owner st
      → insert_audit_log a id time st ≡ some (u, st')
      → IsTied owner st'
  unfolding insert_audit_log
  insert_audit_log-IsTied a id time st u st' t e =
      allowed (λ (z : Unit {0} × Store). IsTied owner z.1) (any _ st.audit_logs) _ _ (λ free. t) e

  pub insert_account_token-IsTied :
      (n : NewAccountToken) (id time : ℕ) (st : Store) (u : Unit {0}) (st' : Store)
      → IsTied owner st
      → insert_account_token n id time st ≡ some (u, st')
      → IsTied owner st'
  unfolding insert_account_token
  insert_account_token-IsTied n id time st u st' t e =
      allowed (λ (z : Unit {0} × Store). IsTied owner z.1) (any _ st.account_tokens) _ _ (λ free. t)
        e

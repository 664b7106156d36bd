-- ===== src/Tenancy/Checks.antt =====
-- routes/roles.ts, users.ts and serviceAccounts.ts: a check of ids or of a row tells whose they are.
use identity_platform.Prelude.{
  ℕ, true, some, List, [], ◌∷◌, map, length, ◌==◌, ==_refl, ◌≡◌, arith, All,
}
use identity_platform.Schema.{User, Role, Permission, ServiceAccount}
use identity_platform.Exec.{Host, Request, read}
use identity_platform.Exec.Invariant.{
  Respects, Maintains, Anything, pure_keeps, check_keeps, or_throw_keeps, bind_keeps, catch_keeps,
  weaker, statement_keeps, read_keeps,
}
use identity_platform.Audit.{AuditEvent, audit}
use identity_platform.Session.{assign}
use identity_platform.Admin.{has_id, distinct}
use identity_platform.Roles.{
  owned_permissions, role_of_client, user_of_client, assert_permissions_belong_to_client,
  assert_user_belongs_to_client, attach_permissions,
}
use identity_platform.Users.{owned_roles, assert_roles_exist}
use identity_platform.ServiceAccounts.{
  account_of_client, account_role, assert_service_account_belongs_to_client,
  assert_role_belongs_to_client, attach_roles,
}
use identity_platform.Tenancy.{IsTied, IsUserRole, IsAccountRole}
use identity_platform.Tenancy.Rows.{owned_complete, found_owner}
use identity_platform.Tenancy.Statements.{
  insert_audit_log-IsTied, insert_role_permissions-IsTied, insert_user_roles-IsTied,
  insert_service_account_roles-IsTied,
}

-- Every id is drawn for the client.
pub each_id :
    (owner : ℕ → ℕ) (c : ℕ) (ids : List ℕ)
    → ((i : ℕ) → has_id ids i ≡ true → owner i ≡ c)
    → All (λ i. owner i ≡ c) ids
each_id owner c [] k = tt
each_id owner c (i ∷ ids) k =
    (k i (ground (arith, ==_refl i)), each_id owner c ids λ j h. k j (ground arith))

module _ {owner : ℕ → ℕ} {h : Host} (o : Respects (IsTied owner) h) where
  pub audit_keeps :
      (req : Request) (event : AuditEvent) → Maintains (IsTied owner) (audit h req event) Anything
  unfolding audit
  audit_keeps req event =
      catch_keeps
        (statement_keeps o _
          λ k st u st' t e. (tt, insert_audit_log-IsTied owner _ _ _ st u st' t e))
        λ _. pure_keeps tt tt

  pub assert_permissions_keeps :
      (ids : List ℕ) (c : ℕ)
      → Maintains
          (IsTied owner)
          (assert_permissions_belong_to_client h ids c)
          (λ _. All (λ i. owner i ≡ c) ids)
  unfolding assert_permissions_belong_to_client
  assert_permissions_keeps [] c = pure_keeps tt tt
  assert_permissions_keeps (i ∷ ids) c =
      bind_keeps
        (read_keeps o
          {Q = λ owned.
            (length owned == length (distinct (i ∷ ids))) ≡ true → All (λ j. owner j ≡ c) (i ∷ ids)}
          (owned_permissions (i ∷ ids) c)
          λ st t passed. each_id owner c (i ∷ ids) (
            owned_complete (λ (p : Permission). p.id) (λ p. p.client_id) owner (i ∷ ids) c
              st.permissions t.permissions_unique t.of_permissions passed))
        λ owned tells. weaker (check_keeps _ _) λ _ passed. tells passed

  pub assert_roles_keeps :
      (ids : List ℕ) (c : ℕ)
      → Maintains (IsTied owner) (assert_roles_exist h ids c) (λ _. All (λ i. owner i ≡ c) ids)
  unfolding assert_roles_exist
  assert_roles_keeps [] c = pure_keeps tt tt
  assert_roles_keeps (i ∷ ids) c =
      bind_keeps
        (read_keeps o
          {Q = λ owned.
            (length owned == length (distinct (i ∷ ids))) ≡ true → All (λ j. owner j ≡ c) (i ∷ ids)}
          (owned_roles (i ∷ ids) c)
          λ st t passed. each_id owner c (i ∷ ids) (
            owned_complete (λ (r : Role). r.id) (λ r. r.client_id) owner (i ∷ ids) c st.roles
              t.roles_unique t.of_roles passed))
        λ owned tells. weaker (check_keeps _ _) λ _ passed. tells passed

  pub role_keeps :
      (id c : ℕ)
      → Maintains
          (IsTied owner)
          (read h (role_of_client id c))
          (λ found. (r : Role) → found ≡ some r → owner id ≡ c)
  role_keeps id c = read_keeps o (role_of_client id c) λ st t r e.
      found_owner (λ (r : Role). r.id) (λ r. r.client_id) owner id c st.roles r t.of_roles e

  pub assert_role_keeps :
      (id c : ℕ)
      → Maintains (IsTied owner) (assert_role_belongs_to_client h id c) (λ _. owner id ≡ c)
  unfolding assert_role_belongs_to_client
  assert_role_keeps id c =
      bind_keeps (role_keeps id c) λ found tells. weaker (or_throw_keeps found _) λ r e. tells r e

  pub assert_user_keeps :
      (id c : ℕ)
      → Maintains (IsTied owner) (assert_user_belongs_to_client h id c) (λ _. owner id ≡ c)
  unfolding assert_user_belongs_to_client
  assert_user_keeps id c =
      bind_keeps
        (read_keeps o {Q = λ found. (u : User) → found ≡ some u → owner id ≡ c}
          (user_of_client id c)
          λ st t u e.
            found_owner (λ (u : User). u.id) (λ u. u.client_id) owner id c st.users u t.of_users e)
        λ found tells. bind_keeps (or_throw_keeps found _) λ u e. pure_keeps tt (tells u e)

  pub assert_account_keeps :
      (id c : ℕ)
      → Maintains
          (IsTied owner)
          (assert_service_account_belongs_to_client h id c)
          (λ _. owner id ≡ c)
  unfolding assert_service_account_belongs_to_client
  assert_account_keeps id c =
      bind_keeps
        (read_keeps o {Q = λ found. (a : ServiceAccount) → found ≡ some a → owner id ≡ c}
          (account_of_client id c)
          λ st t a e.
            found_owner (λ (a : ServiceAccount). a.id) (λ a. a.client_id) owner id c
              st.service_accounts a t.of_accounts e)
        λ found tells. weaker (or_throw_keeps found _) λ a e. tells a e

  pub attach_permissions_keeps :
      (role_id c : ℕ) (ids : List ℕ)
      → owner role_id ≡ c
      → All (λ i. owner i ≡ c) ids
      → Maintains (IsTied owner) (attach_permissions h role_id ids) Anything
  unfolding attach_permissions
  attach_permissions_keeps role_id c [] own each = pure_keeps tt tt
  attach_permissions_keeps role_id c (i ∷ ids) own each = statement_keeps o _ λ k st u st' t e.
      (tt, insert_role_permissions-IsTied owner role_id c (i ∷ ids) st u st' own each t e)

  rows-IsUserRole :
      (user_id c time : ℕ) (ids : List ℕ)
      → owner user_id ≡ c
      → All (λ i. owner i ≡ c) ids
      → All (IsUserRole owner) (
          map
            (λ role_id. record {
              user_id = user_id;
              role_id = role_id;
              client_id = c;
              assigned_at = time;
            })
            ids)
  rows-IsUserRole user_id c time [] own each = tt
  rows-IsUserRole user_id c time (i ∷ ids) own each =
      ((own, each.0), rows-IsUserRole user_id c time ids own each.1)

  pub assign_keeps :
      (user_id c : ℕ) (ids : List ℕ)
      → owner user_id ≡ c
      → All (λ i. owner i ≡ c) ids
      → Maintains (IsTied owner) (assign h user_id c ids) Anything
  unfolding assign
  assign_keeps user_id c [] own each = pure_keeps tt tt
  assign_keeps user_id c (i ∷ ids) own each = statement_keeps o _ λ k st u st' t e. (
    tt,
    insert_user_roles-IsTied owner _ st u st'
        (rows-IsUserRole user_id c (h.clock k) (i ∷ ids) own each) t e,
  )

  account_role_rows :
      (id c time : ℕ) (ids : List ℕ)
      → owner id ≡ c
      → All (λ i. owner i ≡ c) ids
      → All (IsAccountRole owner) (map (account_role id c time) ids)
  account_role_rows id c time [] own each = tt
  account_role_rows id c time (i ∷ ids) own each =
      ((own, each.0), account_role_rows id c time ids own each.1)

  pub attach_roles_keeps :
      (id c : ℕ) (ids : List ℕ)
      → owner id ≡ c
      → All (λ i. owner i ≡ c) ids
      → Maintains (IsTied owner) (attach_roles h id c ids) Anything
  unfolding attach_roles
  attach_roles_keeps id c [] own each = pure_keeps tt tt
  attach_roles_keeps id c (i ∷ ids) own each = statement_keeps o _ λ k st u st' t e. (
    tt,
    insert_service_account_roles-IsTied owner _ st u st'
        (account_role_rows id c (h.clock k) (i ∷ ids) own each) t e,
  )

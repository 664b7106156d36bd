-- ===== src/Tenancy/Accounts.antt =====
-- routes/users.ts, serviceAccounts.ts and apiKeys.ts keep the rows of different clients apart.
use identity_platform.Prelude.{
  ℕ, String, Bool, true, false, Option, none, some, List, ◌≡◌, if◌then◌else◌, is_some, ◌&&◌,
}
use identity_platform.Schema.{Client, ServiceAccount, Purpose, Store}
use identity_platform.Exec.{Host, Request}
use identity_platform.Exec.Invariant.{
  Respects, Maintains, Anything, pure_keeps, throw_keeps, check_keeps, or_throw_keeps, if_keeps,
  bind_keeps, catch_keeps, weaker, statement_keeps, total_keeps, read_keeps, write_keeps,
  write_returning_keeps, now_keeps, random_bytes_keeps,
}
use identity_platform.Permission.{Principal}
use identity_platform.Session.{truthy}
use identity_platform.AccountTokens.{create_account_token}
use identity_platform.Account.{send_mail, revoke_all_refresh_tokens}
use identity_platform.Admin.{distinct}
use identity_platform.Users.{
  CreateUserBody, set_active, invite_url, invite, invite_if_wanted, create_user_for,
  update_user_for,
}
use identity_platform.ApiKeys.{
  CreateKeyBody, generate_api_key, expiry_of, create_key_for, revoke_key_for, revoke_key_row,
}
use identity_platform.ServiceAccounts.{
  CreateAccountBody, UpdateAccountBody, AccountKeyBody, update_account_row, new_name_taken,
  account_of_client, remove_account_role, refuse_taken_name, create_account_for, update_account_for,
  assign_account_role_for, revoke_account_role_for, create_account_key_for,
}
use identity_platform.Tenancy.{
  IsTied, IsUser, IsAccount, IsAccountRole, with_users, with_accounts, with_account_roles,
}
use identity_platform.Tenancy.Rows.{All-select, All-update}
use identity_platform.Tenancy.Statements.{
  allowed, insert_user-IsTied, insert_service_account-IsTied, add_service_account_role-IsTied,
  insert_api_key-IsTied, insert_account_token-IsTied,
}
use identity_platform.Tenancy.Checks.{
  audit_keeps, assert_role_keeps, assert_account_keeps, assert_roles_keeps, assign_keeps,
  attach_roles_keeps,
}

module _ (owner : ℕ → ℕ) where
  set_active-IsTied :
      (id c : ℕ) (active : Bool) (time : ℕ) (st : Store)
      → IsTied owner st
      → IsTied owner (set_active id c active time st).1
  unfolding set_active
  set_active-IsTied id c active time st t =
      with_users t _ (All-update (IsUser owner) _ _ st.users (λ u own. own) t.of_users)

  update_account_row-IsTied :
      (id c : ℕ) (b : UpdateAccountBody) (time : ℕ) (st : Store) (a : Option ServiceAccount)
      (st' : Store)
      → IsTied owner st
      → update_account_row id c b time st ≡ some (a, st')
      → IsTied owner st'
  unfolding update_account_row
  update_account_row-IsTied id c b time st a st' t e =
      allowed (λ (z : Option ServiceAccount × Store). IsTied owner z.1)
        (is_some (account_of_client id c st) && new_name_taken id c b.name st) _ _
        (λ free.
          with_accounts t _
            (All-update (IsAccount owner) _ _ st.service_accounts (λ x own. own) t.of_accounts))
        e

  remove_account_role-IsTied :
      (id role_id c : ℕ) (st : Store)
      → IsTied owner st
      → IsTied owner (remove_account_role id role_id c st)
  remove_account_role-IsTied id role_id c st t =
      with_account_roles t _
        (All-select (IsAccountRole owner) _ st.service_account_roles t.of_account_roles)

module _ {owner : ℕ → ℕ} {h : Host} (o : Respects (IsTied owner) h) where
  create_account_token_keeps :
      (user_id : ℕ) (purpose : Purpose) (hours : ℕ)
      → Maintains (IsTied owner) (create_account_token h user_id purpose hours) Anything
  unfolding create_account_token
  create_account_token_keeps user_id purpose hours = bind_keeps (random_bytes_keeps h) λ token _.
      bind_keeps (now_keeps h) λ time _.
        bind_keeps
          (statement_keeps o {Q = Anything} _
            λ k st u st' t e. (tt, insert_account_token-IsTied owner _ _ _ st u st' t e))
          λ _ _. pure_keeps _ tt

  invite_url_keeps :
      (send : Bool) (client : Client) → Maintains (IsTied owner) (invite_url h send client) Anything
  unfolding invite_url
  invite_url_keeps true client =
      bind_keeps (or_throw_keeps (truthy client.password_reset_url) _) λ url _. pure_keeps _ tt
  invite_url_keeps false client = pure_keeps _ tt

  invite_if_wanted_keeps :
      (user_id : ℕ) (email : String) (client : Client) (url : Option String)
      → Maintains (IsTied owner) (invite_if_wanted h user_id email client url) Anything
  unfolding invite_if_wanted invite send_mail
  invite_if_wanted_keeps user_id email client none = pure_keeps _ tt
  invite_if_wanted_keeps user_id email client (some url) =
      bind_keeps (create_account_token_keeps user_id _ 24) λ token _.
        catch_keeps
          (bind_keeps (catch_keeps (write_keeps o _ λ st t. t) λ _. throw_keeps _)
            λ _ _. pure_keeps true tt)
          λ _. pure_keeps false tt

  generate_api_key_keeps : Maintains (IsTied owner) (generate_api_key h) Anything
  unfolding generate_api_key
  generate_api_key_keeps = bind_keeps (random_bytes_keeps h) λ random _. pure_keeps _ tt

  expiry_of_keeps : (days : Option ℕ) → Maintains (IsTied owner) (expiry_of h days) Anything
  unfolding expiry_of
  expiry_of_keeps none = pure_keeps _ tt
  expiry_of_keeps (some days) = bind_keeps (now_keeps h) λ time _. pure_keeps _ tt

module _ {owner : ℕ → ℕ} {h : Host} (o : Respects (IsTied owner) h) (req : Request)
    (principal : Principal) (c : ℕ) where
  pub create_user_keeps :
      (body : CreateUserBody) (ids : List ℕ)
      → ((k : ℕ) → owner (h.uuid k) ≡ c)
      → Maintains (IsTied owner) (create_user_for h req principal c body ids) Anything
  unfolding create_user_for
  create_user_keeps body ids drawn =
      bind_keeps (read_keeps o {Q = Anything} _ λ st t. tt) λ found _.
        bind_keeps (or_throw_keeps found _) λ client _.
          bind_keeps (invite_url_keeps o _ client) λ url _.
            bind_keeps (read_keeps o {Q = Anything} _ λ st t. tt) λ existing _.
              bind_keeps (check_keeps (if is_some existing then false else true) _) λ _ _.
                bind_keeps (assert_roles_keeps o ids c) λ _ each.
                  bind_keeps
                    (statement_keeps o {Q = λ user. owner user.id ≡ c} _ λ k st user st' t e.
                      insert_user-IsTied owner _ (h.uuid k) (h.clock k) st user st' (drawn k) t e)
                    λ user own. bind_keeps (assign_keeps o user.id c ids own each) λ _ _.
                      bind_keeps (invite_if_wanted_keeps o user.id _ client url)
                        λ invited _. bind_keeps (audit_keeps o req _) λ _ _. pure_keeps _ tt

  pub update_user_keeps :
      (user_id : ℕ) (active : Bool)
      → Maintains (IsTied owner) (update_user_for h req principal c user_id active) Anything
  unfolding update_user_for revoke_all_refresh_tokens
  update_user_keeps user_id active = bind_keeps (now_keeps h) λ time _.
      bind_keeps
        (write_returning_keeps o {Q = Anything} _
          λ st t. (tt, set_active-IsTied owner user_id c active time st t))
        λ found _. bind_keeps (or_throw_keeps found _) λ updated _.
          bind_keeps (if_keeps {Q = Anything} active (pure_keeps tt tt) (write_keeps o _ λ st t. t))
            λ _ _. bind_keeps (audit_keeps o req _) λ _ _. pure_keeps _ tt

  pub create_account_keeps :
      (body : CreateAccountBody) (ids : List ℕ)
      → ((k : ℕ) → owner (h.uuid k) ≡ c)
      → Maintains (IsTied owner) (create_account_for h req principal c body ids) Anything
  unfolding create_account_for
  create_account_keeps body ids drawn = bind_keeps (assert_roles_keeps o (distinct ids) c) λ _ each.
      bind_keeps
        (total_keeps o {Q = λ found. (a : ServiceAccount) → found ≡ some a → owner a.id ≡ c} _
          λ k st t. insert_service_account-IsTied owner _ (h.uuid k) (h.clock k) st (drawn k) t)
        λ found tells. bind_keeps (or_throw_keeps found _) λ account is_found.
          bind_keeps
            (attach_roles_keeps o account.id c (distinct ids) (tells account is_found) each)
            λ _ _. bind_keeps (audit_keeps o req _) λ _ _. pure_keeps _ tt

  refuse_taken_name_keeps :
      (id : ℕ) (name : Option String)
      → Maintains (IsTied owner) (refuse_taken_name h id c name) Anything
  unfolding refuse_taken_name
  refuse_taken_name_keeps id none = pure_keeps tt tt
  refuse_taken_name_keeps id (some name) =
      bind_keeps (read_keeps o {Q = Anything} _ λ st t. tt)
        λ taken _. weaker (check_keeps _ _) λ _ _. tt

  pub update_account_keeps :
      (id : ℕ) (body : UpdateAccountBody)
      → Maintains (IsTied owner) (update_account_for h req principal c id body) Anything
  unfolding update_account_for
  update_account_keeps id body = bind_keeps (refuse_taken_name_keeps id body.name) λ _ _.
      bind_keeps (now_keeps h) λ time _.
        bind_keeps
          (statement_keeps o {Q = Anything} _
            λ k st a st' t e. (tt, update_account_row-IsTied owner id c body time st a st' t e))
          λ found _. bind_keeps (or_throw_keeps found _) λ account _.
            bind_keeps (audit_keeps o req _)
              λ _ _. bind_keeps (read_keeps o {Q = Anything} _ λ st t. tt) λ ids _. pure_keeps _ tt

  pub assign_account_role_keeps :
      (id role_id : ℕ)
      → Maintains (IsTied owner) (assign_account_role_for h req principal c id role_id) Anything
  unfolding assign_account_role_for
  assign_account_role_keeps id role_id = bind_keeps (assert_account_keeps o id c) λ account own.
      bind_keeps (assert_role_keeps o role_id c) λ role own_role.
        bind_keeps
          (total_keeps o {Q = Anything} _
            λ k st t. (tt, add_service_account_role-IsTied owner _ st (own, own_role) t))
          λ _ _. bind_keeps (audit_keeps o req _) λ _ _. pure_keeps _ tt

  pub revoke_account_role_keeps :
      (id role_id : ℕ)
      → Maintains (IsTied owner) (revoke_account_role_for h req principal c id role_id) Anything
  unfolding revoke_account_role_for
  revoke_account_role_keeps id role_id = bind_keeps (assert_account_keeps o id c) λ account _.
      bind_keeps (write_keeps o _ (remove_account_role-IsTied owner id role_id c))
        λ _ _. bind_keeps (audit_keeps o req _) λ _ _. pure_keeps _ tt

  pub create_key_keeps :
      (body : CreateKeyBody)
      → Maintains (IsTied owner) (create_key_for h req principal c body) Anything
  unfolding create_key_for
  create_key_keeps body = bind_keeps (generate_api_key_keeps o) λ generated _.
      bind_keeps (expiry_of_keeps o body.expires_in_days) λ expires_at _.
        bind_keeps
          (statement_keeps o {Q = Anything} _
            λ k st key st' t e. (tt, insert_api_key-IsTied owner _ _ _ st key st' t e))
          λ created _. bind_keeps (audit_keeps o req _) λ _ _. pure_keeps _ tt

  pub revoke_key_keeps :
      (id : ℕ) → Maintains (IsTied owner) (revoke_key_for h req principal c id) Anything
  unfolding revoke_key_for revoke_key_row
  revoke_key_keeps id =
      bind_keeps (write_returning_keeps o {Q = Anything} _ λ st t. (tt, t)) λ found _.
        bind_keeps (or_throw_keeps found _)
          λ key _. bind_keeps (audit_keeps o req _) λ _ _. pure_keeps _ tt

  pub create_account_key_keeps :
      (id : ℕ) (body : AccountKeyBody)
      → Maintains (IsTied owner) (create_account_key_for h req principal c id body) Anything
  unfolding create_account_key_for
  create_account_key_keeps id body = bind_keeps (assert_account_keeps o id c) λ account _.
      bind_keeps (check_keeps account.is_active _) λ _ _.
        bind_keeps (generate_api_key_keeps o) λ generated _.
          bind_keeps (expiry_of_keeps o body.expires_in_days) λ expires_at _.
            bind_keeps
              (statement_keeps o {Q = Anything} _
                λ k st key st' t e. (tt, insert_api_key-IsTied owner _ _ _ st key st' t e))
              λ created _. bind_keeps (audit_keeps o req _) λ _ _. pure_keeps _ tt

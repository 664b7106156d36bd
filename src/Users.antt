-- ===== src/Users.antt =====
-- routes/users.ts: the users of a client, as its administrators see them.
pub mod Deactivated
use identity_platform.Prelude.{
  ℕ, String, Bool, true, false, ◌&&◌, Option, none, some, List, [], ◌∷◌, map, select, find, update,
  length, append, get_or, is_some, leb, ◌==◌, str_eq, if◌then◌else◌,
}
use identity_platform.Text.{to_lower, utf16_length}
use identity_platform.Errors.{bad_request, unauthorized, not_found, conflict, zod_error}
use identity_platform.Schema.{password_reset, Client, User, Role, Store}
use identity_platform.Schema.Inserts.{insert_user}
use identity_platform.Exec.{
  Host, Env, Request, Reply, Exec, pure, or_throw, check, catch, statement, read, write_returning,
  now, parse, ◌>>=◌, ◌>>◌,
}
use identity_platform.Permission.{Principal}
use identity_platform.Session.{truthy, assign}
use identity_platform.Authenticate.{authenticated_client_id}
use identity_platform.Audit.{audit}
use identity_platform.AccountTokens.{create_account_token}
use identity_platform.Account.{send_mail, revoke_every, revoke_all_refresh_tokens}
use identity_platform.Admin.{permitted, by_principal, optional_uuids, has_id, distinct, is_empty}

pub record CreateUserBody : Type 0 where
  pub email : String
  pub role_ids : Option (List (Option ℕ))
  pub send_invite : Option Bool

unfoldable pub create_user_schema : Host → CreateUserBody → Bool
create_user_schema h b = h.is_email b.email && leb (utf16_length b.email) 320

pub record CreatedUser : Type 0 where
  pub id : ℕ
  pub email : String
  pub role_ids : List ℕ
  pub invited : Bool
  -- Whether the answer warns that the invite could not be delivered.
  pub invite_failed : Bool

pub record UserView : Type 0 where
  pub id : ℕ
  pub email : String
  pub email_verified : Bool
  pub is_active : Bool
  pub oauth_provider : Option String
  pub created_at : ℕ

abbrev pub user_view : User → UserView
user_view u = record {
  id = u.id;
  email = u.email;
  email_verified = u.email_verified;
  is_active = u.is_active;
  oauth_provider = u.oauth_provider;
  created_at = u.created_at;
}

pub record UpdatedUser : Type 0 where
  pub id : ℕ
  pub email : String
  pub is_active : Bool

abbrev pub updated_user : User → UpdatedUser
updated_user c = record { id = c.id; email = c.email; is_active = c.is_active }

-- ORDER BY created_at.
unfoldable pub insert_oldest : User → List User → List User
insert_oldest u [] = u ∷ []
insert_oldest u (v ∷ vs) =
    let rest = insert_oldest u vs in if leb u.created_at v.created_at then u ∷ v ∷ vs else v ∷ rest

unfoldable pub oldest_first : List User → List User
unfolding insert_oldest
oldest_first [] = []
oldest_first (u ∷ us) = insert_oldest u (oldest_first us)

abbrev pub client_by_id : ℕ → Store → Option Client
client_by_id id st = find (λ c. c.id == id) st.clients

abbrev pub user_by_email : ℕ → String → Store → Option User
user_by_email client_id email st =
    find (λ u. u.client_id == client_id && str_eq u.email email) st.users

abbrev pub owned_roles : List ℕ → ℕ → Store → List Role
owned_roles ids client_id st = select (λ r. has_id ids r.id && r.client_id == client_id) st.roles

-- UPDATE users SET is_active, updated_at … RETURNING.
unfoldable pub set_active : ℕ → ℕ → Bool → ℕ → Store → Option User × Store
set_active id client_id active time st =
    let users =
      update (λ u. u.id == id && u.client_id == client_id)
        (λ u. record u { is_active = active; updated_at = time }) st.users in
    (find (λ u. u.id == id && u.client_id == client_id) users, record st { users = users })

module _ (h : Host) where
  -- The registered URL, where an invite is to be sent.
  unfoldable pub invite_url : Bool → Client → Exec (Option String)
  invite_url send client =
      if send
      then (or_throw (truthy client.password_reset_url) (
            bad_request "Set passwordResetUrl on the client first, invites link there"
              (some "RESET_URL_NOT_CONFIGURED"))
          >>= λ url. pure (some url))
      else pure none

  unfoldable pub assert_roles_exist : List ℕ → ℕ → Exec (Unit {0})
  assert_roles_exist ids client_id =
      if is_empty ids
      then pure tt
      else (read h (owned_roles ids client_id) >>= λ owned.
          check (length owned == length (distinct ids))
            (bad_request "One or more roles do not exist for this client" (some "UNKNOWN_ROLE")))

  -- Whether the mail with the set-password link was delivered.
  unfoldable pub invite : ℕ → String → String → String → Exec Bool
  invite user_id email subject url = do
    token ← create_account_token h user_id password_reset 24
    catch (send_mail h email subject (url, token) >> pure true) (λ _. pure false)

  unfoldable pub invite_if_wanted : ℕ → String → Client → Option String → Exec Bool
  unfolding invite
  invite_if_wanted user_id email client none = pure false
  invite_if_wanted user_id email client (some url) =
      invite user_id email (append "Your " (append client.name " account")) url

module _ (h : Host) (req : Request) (principal : Principal) (client_id : ℕ) where
  unfoldable pub create_user_for : CreateUserBody → List ℕ → Exec (Reply CreatedUser)
  create_user_for body ids = do
    let email = to_lower body.email
    found ← read h (client_by_id client_id)
    client ← or_throw found (unauthorized "Client not found" none)
    url ← invite_url h (get_or body.send_invite true) client
    existing ← read h (user_by_email client_id email)
    check (if is_some existing then false else true)
        (conflict "Email already registered" (some "EMAIL_EXISTS"))
    assert_roles_exist h ids client_id
    user ← statement h λ d.
        insert_user
          (record {
            client_id = client_id;
            email = email;
            password_hash = none;
            oauth_provider = none;
            oauth_provider_id = none;
            email_verified = false;
          })
          d.id d.time
    assign h user.id client_id ids
    invited ← invite_if_wanted h user.id email client url
    audit h req (by_principal principal client_id "user.provisioned" user.id)
    pure (record {
      status = 201;
      body = record {
        id = user.id;
        email = user.email;
        role_ids = ids;
        invited = invited;
        invite_failed = is_some url && (if invited then false else true);
      };
    })

  unfoldable pub update_user_for : ℕ → Bool → Exec (Reply UpdatedUser)
  update_user_for user_id active = do
    time ← now h
    found ← write_returning h (set_active user_id client_id active time)
    updated ← or_throw found (not_found "User not found" none)
    if active then pure tt else revoke_all_refresh_tokens h user_id
    audit h req (
        by_principal principal client_id (if active then "user.reactivated" else "user.deactivated")
          user_id)
    pure (record { status = 200; body = updated_user updated })

module _ (env : Env) (h : Host) where
  unfoldable pub create_user : Request → CreateUserBody → Exec (Reply CreatedUser)
  create_user req body = do
    principal ← permitted env h req "users:write"
    parse (create_user_schema h body)
    ids ← or_throw (optional_uuids body.role_ids) zod_error
    client_id ← authenticated_client_id principal
    create_user_for h req principal client_id body ids

  unfoldable pub list_users : Request → Exec (Reply (List UserView))
  list_users req = do
    principal ← permitted env h req "users:read"
    client_id ← authenticated_client_id principal
    all ← read h (λ st. oldest_first (select (λ u. u.client_id == client_id) st.users))
    pure (record { status = 200; body = map user_view all })

  -- The path parameter is `none` where it is no UUID.
  unfoldable pub patch_user : Request → Option ℕ → Bool → Exec (Reply UpdatedUser)
  patch_user req param active = do
    principal ← permitted env h req "users:write"
    user_id ← or_throw param zod_error
    client_id ← authenticated_client_id principal
    update_user_for h req principal client_id user_id active

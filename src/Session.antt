-- ===== src/Session.antt =====
-- services/session.ts: client credentials, the permissions of a user, and new sessions.
pub mod Credentials
pub mod Guarantee
pub mod Contents
pub mod Grants
use identity_platform.Prelude.{
  ℕ, ◌+◌, ◌*◌, String, Bool, true, false, ◌&&◌, Option, none, some, List, [], ◌∷◌, ◌++◌, map,
  select, find, append, ◌==◌, str_eq, if◌then◌else◌, is_truthy,
}
use identity_platform.Errors.{Failure, unauthorized}
use identity_platform.Schema.{Client, User, UserRole, Permission, RolePermission, Store}
use identity_platform.Schema.Inserts.{NewRefreshToken, insert_refresh_token, insert_user_roles}
use identity_platform.Exec.{
  Host, Env, TokenClaims, Request, Exec, pure, throw, or_throw, check, statement, read, now,
  random_uuid, ◌>>=◌, ◌>>◌,
}
use identity_platform.Token.{TokenPair, create_token_pair}

abbrev pub invalid_client : Failure
invalid_client = unauthorized "Invalid client credentials" (some "INVALID_CLIENT")

abbrev pub find_active_client : String → Store → Option Client
find_active_client client_id st = find (λ c. str_eq c.client_id client_id && c.is_active) st.clients

-- `clientSecret`, or nothing where it is missing or empty.
abbrev pub truthy : Option String → Option String
truthy none = none
truthy (some s) = if str_eq s "" then none else some s

-- The digest of the secret that was sent is the stored one.
abbrev pub secret_matches : Host → Option String → Option ℕ → Bool
secret_matches h none _ = false
secret_matches h (some secret) none = false
secret_matches h (some secret) (some hash) = h.sha256 secret == hash

-- SELECT over user_roles, role_permissions and permissions, joined on the role and the permission.
unfoldable pub flat {ℓ} : {A B : Type ℓ} → (A → List B) → List A → List B
flat f [] = []
flat f (x ∷ xs) = f x ++ flat f xs

unfoldable pub permissions_of_role : ℕ → Store → List String
unfolding flat
permissions_of_role role_id st =
    flat
      (λ rp.
        map (λ p. append p.resource (append ":" p.action))
          (select (λ p. p.id == rp.permission_id) st.permissions))
      (select (λ rp. rp.role_id == role_id) st.role_permissions)

unfoldable pub user_permissions : ℕ → ℕ → Store → List String
unfolding flat
user_permissions user_id client_id st =
    flat (λ ur. permissions_of_role ur.role_id st)
      (select (λ ur. ur.user_id == user_id && ur.client_id == client_id) st.user_roles)

-- What `prepareSession` returns.
pub record Prepared : Type 0 where
  pub response : TokenPair
  pub refresh_token_record : NewRefreshToken

abbrev pub day_ms : ℕ
day_ms = 24 * 60 * 60 * 1000

module _ (h : Host) where
  unfoldable pub verify_client_credentials : String → Option String → Exec Client
  verify_client_credentials client_id client_secret = do
    found ← read h (find_active_client client_id)
    client ← or_throw found invalid_client
    if client.is_public
        then pure client
        else (check (secret_matches h (truthy client_secret) client.client_secret_hash)
              invalid_client
            >> pure client)

  -- `if (defaultRoles.length > 0)`: an insert of no rows is no statement.
  unfoldable pub assign : ℕ → ℕ → List ℕ → Exec (Unit {0})
  assign user_id client_id [] = pure tt
  assign user_id client_id (r ∷ rs) = statement h λ d st.
      (insert_user_roles
        (map
          (λ role_id. record {
            user_id = user_id;
            role_id = role_id;
            client_id = client_id;
            assigned_at = d.time;
          })
          (r ∷ rs))
        st)

  unfoldable pub assign_default_roles : ℕ → ℕ → Exec (Unit {0})
  unfolding assign
  assign_default_roles user_id client_id = do
    default_roles ←
        read h
          λ st. (map (λ r. r.id) (select (λ r. r.client_id == client_id && r.is_default) st.roles))
    assign user_id client_id default_roles

module _ (env : Env) (h : Host) where
  unfoldable pub prepare_session : ℕ → String → Client → Request → Exec Prepared
  prepare_session user_id email client req = do
    perms ← read h (user_permissions user_id client.id)
    pair ← create_token_pair env h (record {
      sub = user_id;
      cid = client.id;
      aud = client.client_id;
      email = email;
      permissions = perms;
    })
    id ← random_uuid h
    t ← now h
    pure (record {
      response = pair.0;
      refresh_token_record = record {
        id = id;
        user_id = user_id;
        token_hash = pair.1;
        ip_address = req.ip;
        user_agent = req.user_agent;
        expires_at = t + env.jwt_refresh_expiry_days * day_ms;
      };
    })

  unfoldable pub issue_session : ℕ → String → Client → Request → Exec TokenPair
  unfolding prepare_session
  issue_session user_id email client req = do
    prepared ← prepare_session user_id email client req
    statement h (λ d. insert_refresh_token prepared.refresh_token_record d.time)
    pure prepared.response

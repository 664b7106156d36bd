-- ===== src/Auth/Password.antt =====
-- routes/auth.ts: `POST /auth/register` and `POST /auth/login`; services/password.ts.
use identity_platform.Prelude.{
  ℕ, suc, String, Bool, true, false, ◌&&◌, Option, none, some, find, is_some, leb, ◌==◌, str_eq,
  if◌then◌else◌,
}
use identity_platform.Text.{to_lower, utf16_length}
use identity_platform.Errors.{Failure, unauthorized, forbidden, conflict}
use identity_platform.Schema.{Client, User, Store}
use identity_platform.Schema.Inserts.{NewUser, insert_user}
use identity_platform.Exec.{
  Host, Env, Request, Reply, Exec, pure, throw, check, statement, read, parse, ◌>>=◌, ◌>>◌, done,
}
use identity_platform.Token.{TokenPair}
use identity_platform.Session.{verify_client_credentials, assign_default_roles, issue_session}
use identity_platform.Audit.{audit, by_user, by_anonymous}
use identity_platform.Auth.Refresh.{optional_min_one}

pub record CredentialsBody : Type 0 where
  pub email : String
  pub password : String
  pub client_id : String
  pub client_secret : Option String

-- The `user` member of the answer, beside the session.
pub record SignedIn : Type 0 where
  pub id : ℕ
  pub email : String
  pub session : TokenPair

unfoldable pub register_schema : Host → CredentialsBody → Bool
register_schema h b =
    h.is_email b.email
    && (leb (utf16_length b.email) 320
        && (leb 8 (utf16_length b.password)
            && (leb (utf16_length b.password) 128
                && (leb 1 (utf16_length b.client_id) && optional_min_one b.client_secret))))

unfoldable pub login_schema : Host → CredentialsBody → Bool
login_schema h b = h.is_email b.email && optional_min_one b.client_secret

abbrev pub find_user : ℕ → String → Store → Option User
find_user client_id email st = find (λ u. u.client_id == client_id && str_eq u.email email) st.users

abbrev pub find_active_user : ℕ → String → Store → Option User
find_active_user client_id email st =
    find (λ u. u.client_id == client_id && (str_eq u.email email && u.is_active)) st.users

abbrev pub password_user : ℕ → String → String → NewUser
password_user client_id email hash = record {
  client_id = client_id;
  email = email;
  password_hash = some hash;
  oauth_provider = none;
  oauth_provider_id = none;
  email_verified = false;
}

abbrev pub invalid_credentials : Failure
invalid_credentials = unauthorized "Invalid credentials" (some "INVALID_CREDENTIALS")

-- `!user || !user.passwordHash`
abbrev pub password_of : Option User → Option (User × String)
password_of none = none
password_of (some u) = elim u.password_hash [
  | none ↦ none
  | some hash ↦ if str_eq hash "" then none else some (u, hash)
]

module _ (h : Host) where
  unfoldable pub hash_password : String → Exec String
  hash_password password s = done (h.argon2_hash s.step password) (record s { step = suc s.step })

  -- An exception of `argon2.verify` is a refusal.
  unfoldable pub verify_password : String → String → Bool
  verify_password hash password = elim (h.argon2_verify hash password) [ none ↦ false | some b ↦ b ]

module _ (env : Env) (h : Host) where
  unfoldable pub register : Request → CredentialsBody → Exec (Reply SignedIn)
  unfolding hash_password
  register req body = do
    parse (register_schema h body)
    client ← verify_client_credentials h body.client_id body.client_secret
    check client.allow_user_registration
        (forbidden "Registration is disabled for this client" (some "REGISTRATION_DISABLED"))
    existing ← read h (find_user client.id (to_lower body.email))
    check (if is_some existing then false else true)
        (conflict "Email already registered" (some "EMAIL_EXISTS"))
    hash ← hash_password h body.password
    user ←
        statement h
          (λ d. insert_user (password_user client.id (to_lower body.email) hash) d.id d.time)
    assign_default_roles h user.id client.id
    session ← issue_session env h user.id user.email client req
    audit h req (by_user client.id "user.registered" user.id)
    pure (record {
      status = 201;
      body = record { id = user.id; email = user.email; session = session };
    })

  -- The answer to an unknown user, a user without a password, and a wrong password.
  unfoldable pub refuse_login : Request → Client → Exec (Reply SignedIn)
  refuse_login req client =
      audit h req (by_anonymous client.id "user.login_failed") >> throw invalid_credentials

  unfoldable pub log_in : Request → Client → User → Exec (Reply SignedIn)
  log_in req client user = do
    session ← issue_session env h user.id user.email client req
    audit h req (by_user client.id "user.login" user.id)
    pure (record {
      status = 200;
      body = record { id = user.id; email = user.email; session = session };
    })

  unfoldable pub login : Request → CredentialsBody → Exec (Reply SignedIn)
  unfolding hash_password verify_password refuse_login log_in
  login req body = do
    parse (login_schema h body)
    client ← verify_client_credentials h body.client_id body.client_secret
    found ← read h (find_active_user client.id (to_lower body.email))
    elim (password_of found) [
      | none ↦ hash_password h "dummy-password-for-timing" >>= (λ _. refuse_login req client)
      | some (user, hash) ↦
          if verify_password h hash body.password
          then log_in req client user
          else refuse_login req client
    ]

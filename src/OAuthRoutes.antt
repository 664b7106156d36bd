-- ===== src/OAuthRoutes.antt =====
-- routes/oauth.ts: starting a flow, the provider's callback, and the exchange of a code for tokens.
pub mod Exchange
pub mod Callback
use identity_platform.Prelude.{
  ℕ, String, Bool, true, false, not, ◌&&◌, Option, none, some, List, [], ◌∷◌, ◌++◌, find, any,
  append, leb, ◌==◌, str_eq, if◌then◌else◌, is_truthy, is_some,
}
use identity_platform.Text.{to_lower, utf16_length}
use identity_platform.Errors.{Failure, bad_request, unauthorized, zod_error}
use identity_platform.Schema.{AuthCodeData, Client, User, Store}
use identity_platform.Schema.Inserts.{NewUser, insert_user}
use identity_platform.Exec.{
  Host, Env, Request, Reply, OAuthState, Exec, pure, throw, or_throw, check, catch, statement, read,
  write, now, random_uuid, random_bytes, parse, ◌>>=◌, ◌>>◌,
}
use identity_platform.Permission.{includes}
use identity_platform.Session.{
  truthy, find_active_client, verify_client_credentials, assign_default_roles, issue_session,
}
use identity_platform.Audit.{audit, by_user}
use identity_platform.Auth.Refresh.{optional_min_one}
use identity_platform.Auth.Password.{SignedIn, find_user}
use identity_platform.Account.{active_user, update_user}
use identity_platform.OAuth.{
  ProviderConfig, get_provider_config, ProfileResult, profile, refused, OAuthUserInfo,
  redirect_code_text, provider_profile, encrypt_state, decrypt_state, consume_state_nonce,
  store_auth_code, consume_auth_code, resolve_auth_code, verifier_matches_challenge,
}

-- The query of `GET /auth/oauth/:provider`; `code_challenge_method` is S256 where it is set.
pub record InitiateQuery : Type 0 where
  pub client_id : String
  pub redirect_uri : String
  pub code_challenge : Option String
  pub code_challenge_method : Option String
  pub state : Option String

pub record ExchangeBody : Type 0 where
  pub code : String
  pub client_id : String
  pub client_secret : Option String
  pub redirect_uri : String
  pub code_verifier : Option String

-- `z.string().min(lo).max(hi).optional()`
abbrev pub optional_between : ℕ → ℕ → Option String → Bool
optional_between lo hi none = true
optional_between lo hi (some s) = leb lo (utf16_length s) && leb (utf16_length s) hi

abbrev pub is_s256 : Option String → Bool
is_s256 none = true
is_s256 (some s) = str_eq s "S256"

abbrev pub same_truth : Bool → Bool → Bool
same_truth true b = b
same_truth false b = not b

unfoldable pub initiate_schema : Host → InitiateQuery → Bool
initiate_schema h q =
    leb 1 (utf16_length q.client_id)
    && (h.is_url q.redirect_uri
        && (optional_between 43 128 q.code_challenge
            && (is_s256 q.code_challenge_method
                && (optional_between 1 512 q.state
                    && same_truth (is_truthy q.code_challenge)
                        (is_truthy q.code_challenge_method)))))

unfoldable pub token_exchange_schema : Host → ExchangeBody → Bool
token_exchange_schema h b =
    leb 1 (utf16_length b.code)
    && (leb 1 (utf16_length b.client_id)
        && (optional_min_one b.client_secret
            && (h.is_url b.redirect_uri && optional_between 43 128 b.code_verifier)))

-- The redirect to the provider: its address, the platform's client id there, the callback, and the
-- sealed state.
pub record AuthorizeRedirect : Type 0 where
  pub auth_url : String
  pub client_id : String
  pub redirect_uri : String
  pub scopes : List String
  pub state : String

-- The redirect to the application: the registered URI and the parameters that are set on it.
pub record RedirectBack : Type 0 where
  pub redirect_uri : String
  pub params : List (String × String)

abbrev pub callback_url : Env → String → String
callback_url env provider =
    append env.service_url (append "/auth/oauth/" (append provider "/callback"))

-- `client.redirectUris || []`
abbrev pub allowed_uris : Client → List String
allowed_uris c = elim c.redirect_uris [ none ↦ [] | some uris ↦ uris ]

-- `client.isPublic && !query.code_challenge`, negated.
abbrev pub has_pkce_if_public : Client → Option String → Bool
has_pkce_if_public c challenge = if c.is_public then is_truthy challenge else true

abbrev pub same_text : Option String → String → Bool
same_text none text = false
same_text (some s) text = str_eq s text

-- The parameters of a redirect, and the consumer's own state where it has one.
abbrev pub redirect_back : OAuthState → String → String → RedirectBack
redirect_back state name value = record {
  redirect_uri = state.redirect_uri;
  params =
      (name, value)
      ∷ (elim (truthy state.consumer_state) [ none ↦ [] | some s ↦ ("state", s) ∷ [] ]);
}

-- PKCE: a code with a challenge wants its verifier.
abbrev pub pkce_holds : Host → Option String → Option String → Bool
pkce_holds h challenge verifier = elim (truthy challenge) [
  | none ↦ true
  | some c ↦ elim (truthy verifier) [ none ↦ false | some v ↦ verifier_matches_challenge h v c ]
]

abbrev pub oauth_user : ℕ → String → OAuthUserInfo → NewUser
oauth_user client_id provider info = record {
  client_id = client_id;
  email = to_lower info.email;
  password_hash = none;
  oauth_provider = some provider;
  oauth_provider_id = some info.provider_id;
  email_verified = true;
}

abbrev pub invalid_code : Failure
invalid_code = unauthorized "Invalid or expired authorization code" (some "INVALID_CODE")

abbrev pub client_mismatch : Failure
client_mismatch = unauthorized "Client ID mismatch" (some "CLIENT_MISMATCH")

-- The user behind the provider's profile, or the error that goes back to the application.
pub data Resolution : Type 0 where
  signed_in_as : User → Resolution
  rejected : String → Resolution

module _ (env : Env) (h : Host) where
  unfoldable pub initiate : String → InitiateQuery → Exec AuthorizeRedirect
  initiate provider query = do
    parse (initiate_schema h query)
    config ← get_provider_config env provider
    found ← read h (find_active_client query.client_id)
    client ← or_throw found (bad_request "Invalid client_id" none)
    check (includes (allowed_uris client) query.redirect_uri)
        (bad_request "redirect_uri not registered for this client" none)
    check (has_pkce_if_public client query.code_challenge)
        (bad_request "code_challenge is required for public clients" (some "PKCE_REQUIRED"))
    nonce ← random_uuid h
    state ← encrypt_state h (record {
      client_id = query.client_id;
      redirect_uri = query.redirect_uri;
      provider = some provider;
      nonce = nonce;
      code_challenge = query.code_challenge;
      consumer_state = query.state;
      iat = none;
    })
    pure (record {
      auth_url = config.auth_url;
      client_id = config.client_id;
      redirect_uri = callback_url env provider;
      scopes = config.scopes;
      state = state;
    })

  -- A user is created for a new email.
  unfoldable pub create_oauth_user : Request → Client → String → OAuthUserInfo → Exec Resolution
  create_oauth_user req client provider info = do
    user ← statement h (λ d. insert_user (oauth_user client.id provider info) d.id d.time)
    assign_default_roles h user.id client.id
    audit h req (by_user client.id "user.registered" user.id)
    pure (signed_in_as user)

  -- A user of the tenant is linked to the provider, or must be linked to this identity already.
  unfoldable pub link_oauth_user : String → OAuthUserInfo → User → Exec Resolution
  link_oauth_user provider info user = elim (truthy user.oauth_provider) [
    | none ↦ do
      time ← now h
      write h (
          update_user user.id λ u. record u {
            oauth_provider = some provider;
            oauth_provider_id = some info.provider_id;
            email_verified = true;
            updated_at = time;
          })
      pure (signed_in_as user)
    | some linked ↦
        if str_eq linked provider && same_text user.oauth_provider_id info.provider_id
        then pure (signed_in_as user)
        else pure (rejected "account_mismatch")
  ]

  unfoldable pub resolve_oauth_user : Request → Client → String → OAuthUserInfo → Exec Resolution
  unfolding create_oauth_user link_oauth_user
  resolve_oauth_user req client provider info = do
    existing ← read h (find_user client.id (to_lower info.email))
    elim existing [
      | none ↦ create_oauth_user req client provider info
      | some user ↦
          if user.is_active
          then link_oauth_user provider info user
          else pure (rejected "account_inactive")
    ]

  -- A code for the user, or the error.
  unfoldable pub respond : Client → OAuthState → Resolution → Exec RedirectBack
  respond client state (signed_in_as user) = do
    code ← random_bytes h
    store_auth_code h code (record {
      user_id = user.id;
      client_id = client.id;
      app_client_id = state.client_id;
      redirect_uri = state.redirect_uri;
      code_challenge = state.code_challenge;
    })
    pure (redirect_back state "code" code)
  respond client state (rejected error) = pure (redirect_back state "error" error)

  unfoldable pub finish_callback :
      Request → Client → String → OAuthState → ProfileResult → Exec RedirectBack
  unfolding respond
  finish_callback req client provider state (profile info) = do
    resolution ← resolve_oauth_user req client provider info
    respond client state resolution
  finish_callback req client provider state (refused reason) =
      pure (redirect_back state "error" (redirect_code_text reason))

  -- From the validated transaction on.
  unfoldable pub process_callback :
      Request → String → OAuthState → Option String → Option String → Exec RedirectBack
  process_callback req provider state code error = elim (truthy error) [
    | some e ↦ pure (redirect_back state "error" e)
    | none ↦ do
      given ← or_throw (truthy code) (bad_request "Missing code" none)
      found ← read h (find_active_client state.client_id)
      client ← or_throw found (bad_request "Invalid client" none)
      result ← provider_profile h env provider given
      finish_callback req client provider state result
  ]

  unfoldable pub callback :
      Request → String → Option String → Option String → Option String → Exec RedirectBack
  unfolding process_callback finish_callback
  callback req provider code state error = do
    sealed ← or_throw (truthy state) (bad_request "Missing state" none)
    transaction ←
        catch (decrypt_state h sealed)
          (λ _. throw (bad_request "Invalid or tampered state parameter" none))
    check (same_text transaction.provider provider)
        (bad_request "State was issued for a different provider" (some "PROVIDER_MISMATCH"))
    first ← consume_state_nonce h transaction.nonce
    check first (bad_request "State has already been used" (some "STATE_ALREADY_USED"))
    process_callback req provider transaction code error

  unfoldable pub exchange : Request → ExchangeBody → Exec (Reply SignedIn)
  exchange req body = do
    parse (token_exchange_schema h body)
    resolved ← resolve_auth_code h body.code
    code ← or_throw resolved invalid_code
    check (str_eq code.app_client_id body.client_id) client_mismatch
    client ← verify_client_credentials h body.client_id body.client_secret
    check (code.client_id == client.id) client_mismatch
    check (str_eq code.redirect_uri body.redirect_uri) (unauthorized "redirect_uri mismatch" none)
    check (pkce_holds h code.code_challenge body.code_verifier)
        (unauthorized "Invalid code verifier" (some "INVALID_VERIFIER"))
    taken ← consume_auth_code h body.code
    consumed ← or_throw taken invalid_code
    owner ← read h (active_user consumed.user_id)
    user ← or_throw owner (unauthorized "User not found or inactive" none)
    session ← issue_session env h user.id user.email client req
    audit h req (by_user client.id "user.login" user.id)
    pure (record {
      status = 200;
      body = record { id = user.id; email = user.email; session = session };
    })

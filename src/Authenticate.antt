-- ===== src/Authenticate.antt =====
-- middleware/authenticate.ts and services/serviceAccount.ts (`getServiceAccountPermissions`): the
-- principal of a request, from its Authorization header.
pub mod Keys
pub mod Header
use identity_platform.Prelude.{
  ℕ, String, Bool, true, false, ◌&&◌, Option, none, some, List, [], ◌∷◌, find, select, update, ltb,
  ◌==◌, str_eq, if◌then◌else◌, get_or,
}
use identity_platform.Text.{split}
use identity_platform.Errors.{Failure, unauthorized}
use identity_platform.Schema.{ApiKey, ServiceAccount, Store}
use identity_platform.Exec.{
  Host, Env, Request, TokenClaims, Exec, pure, throw, or_throw, check, catch, read, write, now,
  ◌>>=◌, ◌>>◌,
}
use identity_platform.Permission.{Principal, UserClaims, bearer, key, nobody}
use identity_platform.Session.{truthy, flat, permissions_of_role}
use identity_platform.Token.{verify_access_token}

abbrev pub find_key : ℕ → Store → Option ApiKey
find_key hash st = find (λ k. k.key_hash == hash && (if k.revoked then false else true)) st.api_keys

-- `owningClient?.isActive`
abbrev pub client_is_active : ℕ → Store → Bool
client_is_active id st = elim (find (λ c. c.id == id) st.clients) [
  | none ↦ false
  | some c ↦ c.is_active
]

abbrev pub find_active_account : ℕ → ℕ → Store → Option ServiceAccount
find_active_account id client_id st =
    find (λ a. a.id == id && (a.client_id == client_id && a.is_active)) st.service_accounts

unfoldable pub service_account_permissions : ℕ → ℕ → Store → List String
unfolding flat
service_account_permissions account_id client_id st =
    flat (λ ar. permissions_of_role ar.role_id st)
      (select (λ ar. ar.service_account_id == account_id && ar.client_id == client_id)
        st.service_account_roles)

-- `key.expiresAt && key.expiresAt < now`
abbrev pub has_expired : Option ℕ → ℕ → Bool
has_expired none time = false
has_expired (some at) time = ltb at time

-- `const [scheme, token] = authHeader.split(" ")`, where a missing token is as good as an empty one.
abbrev pub scheme_and_token : List String → String × String
scheme_and_token [] = ("", "")
scheme_and_token (scheme ∷ []) = (scheme, "")
scheme_and_token (scheme ∷ token ∷ _) = (scheme, token)

abbrev pub user_claims : TokenClaims → UserClaims
user_claims c = record { sub = c.sub; cid = c.cid; email = c.email; permissions = c.permissions }

abbrev pub touch_key : ℕ → ℕ → Store → Store
touch_key id time st = record st {
  api_keys = update (λ k. k.id == id) (λ k. record k { last_used_at = some time }) st.api_keys;
}

abbrev pub invalid_api_key : Failure
invalid_api_key = unauthorized "Invalid API key" none

abbrev pub bad_scheme : Failure
bad_scheme = unauthorized "Invalid authorization scheme. Use: Bearer <jwt> or ApiKey <key>" none

module _ (env : Env) (h : Host) where
  unfoldable pub authenticate_bearer : String → Exec Principal
  authenticate_bearer token =
      catch (verify_access_token env h token none >>= (λ c. pure (bearer (user_claims c))))
        (λ _. throw (unauthorized "Invalid or expired token" (some "TOKEN_EXPIRED")))

  -- The scopes and the name of the key's service account, if it has one.
  unfoldable pub key_grants : ApiKey → Exec (List String × Option String)
  key_grants k = elim k.service_account_id [
    | none ↦ pure (get_or k.scopes [], none)
    | some account_id ↦ do
      found ← read h (find_active_account account_id k.client_id)
      account ← or_throw found invalid_api_key
      scopes ← read h (service_account_permissions account.id k.client_id)
      pure (scopes, some account.name)
  ]

  unfoldable pub authenticate_key : String → Exec Principal
  unfolding key_grants
  authenticate_key token = do
    time ← now h
    found ← read h (find_key (h.sha256 token))
    k ← or_throw found invalid_api_key
    check (if has_expired k.expires_at time then false else true)
        (unauthorized "API key expired" none)
    active ← read h (client_is_active k.client_id)
    check active invalid_api_key
    grants ← key_grants k
    catch (write h (touch_key k.id time)) (λ _. pure tt)
    pure (
        key (record {
          id = k.id;
          client_id = k.client_id;
          scopes = grants.0;
          service_account_id = k.service_account_id;
          service_account_name = grants.1;
        }))

  unfoldable pub authenticate_with : String → String → Exec Principal
  authenticate_with scheme token =
      if str_eq token ""
      then throw bad_scheme
      else if str_eq scheme "Bearer"
      then authenticate_bearer token
      else if str_eq scheme "ApiKey"
      then authenticate_key token
      else throw bad_scheme

  unfoldable pub authenticate : Request → Exec Principal
  unfolding authenticate_with
  authenticate req = do
    header ← or_throw (truthy req.authorization) (unauthorized "Missing authorization header" none)
    let pair = scheme_and_token (split " " header)
    authenticate_with pair.0 pair.1

  -- `optionalAuth`
  unfoldable pub optional_auth : Request → Exec Principal
  optional_auth req = elim (truthy req.authorization) [
    | none ↦ pure nobody
    | some _ ↦ catch (authenticate req) (λ _. pure nobody)
  ]

-- `req.user?.cid ?? req.apiKey?.clientId`
unfoldable pub authenticated_client_id : Principal → Exec ℕ
authenticated_client_id (bearer u) = pure u.cid
authenticated_client_id (key k) = pure k.client_id
authenticated_client_id nobody = throw (unauthorized "Authentication required" none)

-- ===== src/Verify.antt =====
-- routes/verify.ts: `POST /auth/verify`, remote verification of a token or an API key.
pub mod Authorized
use identity_platform.Prelude.{
  ℕ, String, Bool, true, false, ◌&&◌, Option, none, some, List, [], find, append, ◌==◌, str_eq,
  if◌then◌else◌, get_or,
}
use identity_platform.Schema.{ApiKey, Store}
use identity_platform.Exec.{
  Host, Env, TokenClaims, Exec, pure, catch, read, write, now, ◌>>=◌, ◌>>◌,
}
use identity_platform.Session.{truthy}
use identity_platform.Permission.{has_scope, has_permission}
use identity_platform.Token.{verify_access_token}
use identity_platform.Authenticate.{
  has_expired, find_active_account, service_account_permissions, touch_key,
}

-- The members that are texts. The source's body is untyped: a member of another type is left out here
-- (an `apiKey` that is no text makes hashing throw, which is a 500).
pub record VerifyBody : Type 0 where
  pub token : Option String
  pub api_key : Option String
  pub audience : Option String
  pub required_permission : Option String

pub record KeyGrant : Type 0 where
  pub client_id : ℕ
  pub name : String
  pub scopes : List String
  pub service_account : Option (ℕ × String)

-- The answers: refused with a status, not valid, valid without the permission, or authorized.
pub data Verdict : Type 0 where
  refused : ℕ → String → Verdict
  invalid : String → Verdict
  unauthorized : String → Verdict
  user : TokenClaims → Verdict
  api_key : KeyGrant → Verdict

-- The join of api_keys with the active client of the audience.
abbrev pub is_active_audience : ℕ → String → Store → Bool
is_active_audience id audience st =
    elim (find (λ c. c.id == id && (str_eq c.client_id audience && c.is_active)) st.clients) [
      | none ↦ false
      | some _ ↦ true
    ]

abbrev pub find_key_for : ℕ → String → Store → Option ApiKey
find_key_for hash audience st =
    find
      (λ k.
        is_active_audience k.client_id audience st
        && (k.key_hash == hash && (if k.revoked then false else true)))
      st.api_keys

-- `requiredPermission && !…`, negated, for the two kinds of principal.
abbrev pub permits : Option String → (String → Bool) → Bool
permits none has = true
permits (some required) has = has required

abbrev pub invalid_key : Verdict
invalid_key = invalid "Invalid or expired API key"

module _ (env : Env) (h : Host) where
  unfoldable pub verify_token : String → String → Option String → Exec Verdict
  verify_token token audience required =
      catch
        (do
          claims ← verify_access_token env h token (some audience)
          pure (
              if permits required (has_permission claims.permissions)
              then user claims
              else unauthorized (append "Missing permission: " (get_or required ""))))
        (λ _. pure (invalid "Invalid token"))

  -- The scopes and the service account of a key; `none` where its account is gone or inactive.
  unfoldable pub account_of : ApiKey → Exec (Option (List String × Option (ℕ × String)))
  account_of k = elim k.service_account_id [
    | none ↦ pure (some (get_or k.scopes [], none))
    | some account_id ↦ do
      account ← read h (find_active_account account_id k.client_id)
      elim account [
        | none ↦ pure none
        | some a ↦ do
          scopes ← read h (service_account_permissions a.id k.client_id)
          pure (some (scopes, some (a.id, a.name)))
      ]
  ]

  unfoldable pub grant_key :
      ApiKey → Option String → List String × Option (ℕ × String) → Exec Verdict
  grant_key k required grants =
      if permits required (has_scope grants.0)
      then (do
        time ← now h
        catch (write h (touch_key k.id time)) (λ _. pure tt)
        pure (
            api_key (record {
              client_id = k.client_id;
              name = k.name;
              scopes = grants.0;
              service_account = grants.1;
            })))
      else pure (unauthorized (append "API key missing scope: " (get_or required "")))

  unfoldable pub verify_key : String → String → Option String → Exec Verdict
  unfolding account_of grant_key
  verify_key text audience required = do
    found ← read h (find_key_for (h.sha256 text) audience)
    time ← now h
    elim found [
      | none ↦ pure invalid_key
      | some k ↦ if has_expired k.expires_at time then pure invalid_key else (do
        grants ← account_of k
        elim grants [ none ↦ pure invalid_key | some g ↦ grant_key k required g ])
    ]

  unfoldable pub verify : VerifyBody → Exec Verdict
  verify body = elim (truthy body.audience) [
    | none ↦ pure (refused 400 "Provide the expected application audience")
    | some audience ↦ elim (truthy body.token) [
      | some token ↦ verify_token token audience (truthy body.required_permission)
      | none ↦ elim (truthy body.api_key) [
        | some text ↦ verify_key text audience (truthy body.required_permission)
        | none ↦ pure (refused 400 "Provide either 'token' or 'apiKey' in request body")
      ]
    ]
  ]

-- ===== src/Exec.antt =====
-- How a handler runs. It works on the store through single statements; other requests may change
-- the store before each of them, any statement may fail, and what was written before an exception
-- stays written, so the state comes back beside the failure too.
pub mod Guarantee
pub mod Inversion
pub mod Invariant
use identity_platform.Prelude.{
  ℕ, ◌+◌, String, Bool, true, false, Option, none, some, List, if◌then◌else◌,
}
use identity_platform.Errors.{Failure, zod_error, unexpected}
use identity_platform.Schema.{Store}

pub record TokenClaims : Type 0 where
  pub sub : ℕ
  pub cid : ℕ
  pub aud : String
  pub email : String
  pub permissions : List String

-- The keys that utils/env.ts configures.
pub data SigningKey : Type 0 where
  legacy_secret private_key public_key : SigningKey

pub record JwtHeader : Type 0 where
  pub alg : String
  pub kid : String

-- What is set on a `SignJWT` before it is signed; `expiry` is the configured text, such as "15m".
pub record JwtPayload : Type 0 where
  pub claims : TokenClaims
  pub issuer : String
  pub audience : String
  pub expiry : String

pub record JwtOptions : Type 0 where
  pub issuer : String
  pub audience : Option String
  pub algorithms : List String

-- utils/env.ts: the settings that the modelled handlers read, after `parseEnv`.
pub record Env : Type 0 where
  pub jwt_private_key : Option String
  pub jwt_public_key : Option String
  pub jwt_key_id : String
  pub jwt_issuer : String
  pub jwt_access_expiry : String
  pub jwt_refresh_expiry_days : ℕ
  pub refresh_retry_grace_seconds : ℕ
  pub allow_legacy_hs256 : Bool
  pub audit_retention_days : ℕ
  pub google_client_id : Option String
  pub google_client_secret : Option String
  pub github_client_id : Option String
  pub github_client_secret : Option String
  pub service_url : String
  pub admin_key : String

-- services/oauth.ts: what travels in the `state` parameter, and what the providers answer.
pub record OAuthState : Type 0 where
  pub client_id : String
  pub redirect_uri : String
  pub provider : Option String
  pub nonce : ℕ
  pub code_challenge : Option String
  pub consumer_state : Option String
  pub iat : Option ℕ

pub record GoogleUserInfo : Type 0 where
  pub email : String
  pub id : String

pub record GithubUserInfo : Type 0 where
  pub login : String
  pub id : String

pub record GithubEmail : Type 0 where
  pub email : String
  pub primary : Bool
  pub verified : Bool

-- `fetch` and `res.json()`: the JSON, an answer that is not ok, or an exception of either call.
pub data ProviderAnswer (A : Type 0) : Type 0 where
  delivered : A → ProviderAnswer A
  not_ok : ProviderAnswer A
  no_answer : ProviderAnswer A

-- What express hands to a handler, beside the body.
pub record Request : Type 0 where
  pub ip : Option String
  pub user_agent : Option String
  pub authorization : Option String
  -- `req.headers["x-admin-key"]`
  pub admin_key : Option String

-- A status and a JSON body.
pub record Reply (A : Type 0) : Type 0 where
  pub status : ℕ
  pub body : A

-- What the program runs on and does not implement. A function of a step answers the call that is
-- made at that step.
pub record Host : Type 0 where
  -- `Date.now()` and the database's clock, in milliseconds.
  pub clock : ℕ → ℕ
  pub uuid : ℕ → ℕ
  -- The ids of the rows of one statement, from the first.
  pub row_uuid : ℕ → ℕ → ℕ
  -- `randomBytes(n)` as base64url.
  pub random : ℕ → String
  -- Whether the database, Redis and the mail server answer.
  pub answers : ℕ → Bool
  -- What other requests do to the store before this step.
  pub others : ℕ → Store → Store
  pub sha256 : String → ℕ
  -- A digest as base64url.
  pub base64url : ℕ → String
  pub argon2_hash : ℕ → String → String
  -- `none` is an exception.
  pub argon2_verify : String → String → Option Bool
  -- jose: `none` is an exception. The last number is the time.
  pub jwt_sign : SigningKey → JwtHeader → JwtPayload → ℕ → Option String
  pub jwt_alg : String → Option String
  pub jwt_verify : SigningKey → JwtOptions → String → ℕ → Option TokenClaims
  -- `encryptState` without and `decryptState` up to the timestamp: JSON under AES-256-GCM. `none` is
  -- an exception.
  pub seal : ℕ → OAuthState → String
  pub unseal : String → Option OAuthState
  -- The providers' endpoints.
  pub fetch_token : String → String → ProviderAnswer String
  pub fetch_google : String → ProviderAnswer GoogleUserInfo
  pub fetch_github : String → ProviderAnswer GithubUserInfo
  pub fetch_github_emails : String → ProviderAnswer (List GithubEmail)
  -- zod's formats.
  pub is_email : String → Bool
  pub is_url : String → Bool
  pub is_uuid : String → Bool

-- The same host with no other request, where every call is answered.
abbrev pub alone : Host → Host
alone h = record h { answers = λ _. true; others = λ _ st. st }

pub record State : Type 0 where
  pub store : Store
  pub step : ℕ

pub data Outcome (A : Type 0) : Type 0 where
  done : A → State → Outcome A
  fail : Failure → State → Outcome A

abbrev pub Exec : Type 0 → Type 0
Exec A = State → Outcome A

module _ {A : Type 0} where
  abbrev pub final : Outcome A → State
  final (done a s) = s
  final (fail e s) = s

  abbrev pub pure : A → Exec A
  pure a s = done a s

  abbrev pub throw : Failure → Exec A
  throw e s = fail e s

  -- `if (b) throw e`
  abbrev pub or_throw : Option A → Failure → Exec A
  or_throw none e s = fail e s
  or_throw (some a) e s = done a s

abbrev pub check : Bool → Failure → Exec (Unit {0})
check true e s = done tt s
check false e s = fail e s

module _ {A B : Type 0} where
  abbrev pub continue : Outcome A → (A → Exec B) → Outcome B
  continue (done a s) f = f a s
  continue (fail e s) f = fail e s

  infixl 5 ◌>>=◌
  abbrev pub ◌>>=◌ : Exec A → (A → Exec B) → Exec B
  ◌>>=◌ m f s = continue (m s) f

infixl 5 ◌>>◌
abbrev pub ◌>>◌ : {A B : Type 0} → Exec A → Exec B → Exec B
m >> n = m >>= λ _. n

abbrev pub recover : {A : Type 0} → Outcome A → (Failure → Exec A) → Outcome A
recover (done a s) f = done a s
recover (fail e s) f = f e s

-- `try { m } catch (e) { f(e) }`
abbrev pub catch : {A : Type 0} → Exec A → (Failure → Exec A) → Exec A
catch m f s = recover (m s) f

abbrev answer : {A : Type 0} → Option (A × Store) → Store → ℕ → Outcome A
answer none st k = fail unexpected (record { store = st; step = k })
answer (some (a, st)) _ k = done a (record { store = st; step = k })

-- The values of the columns that the database fills in.
pub record Defaults : Type 0 where
  pub id : ℕ
  pub time : ℕ

module _ (h : Host) where
  -- One atomic statement or transaction.
  unfoldable pub statement : {A : Type 0} → (Defaults → Store → Option (A × Store)) → Exec A
  statement q s =
      let st = h.others s.step s.store in
      if h.answers s.step
      then answer (q (record { id = h.uuid s.step; time = h.clock s.step }) st) st (s.step + 1)
      else fail unexpected (record { store = st; step = s.step + 1 })

  unfoldable pub read : {A : Type 0} → (Store → A) → Exec A
  unfolding statement
  read q = statement (λ _ st. some (q st, st))

  unfoldable pub write : (Store → Store) → Exec (Unit {0})
  unfolding statement
  write q = statement (λ _ st. some (tt, q st))

  -- An update that returns what it found.
  unfoldable pub write_returning : {A : Type 0} → (Store → A × Store) → Exec A
  unfolding statement
  write_returning q = statement (λ _ st. some (q st))

  unfoldable pub now : Exec ℕ
  now s = done (h.clock s.step) (record s { step = s.step + 1 })

  unfoldable pub random_uuid : Exec ℕ
  random_uuid s = done (h.uuid s.step) (record s { step = s.step + 1 })

  unfoldable pub random_bytes : Exec String
  random_bytes s = done (h.random s.step) (record s { step = s.step + 1 })

-- `schema.parse(body)` of a body whose members have the schema's types.
abbrev pub parse : Bool → Exec (Unit {0})
parse fits = check fits zod_error

-- ===== src/ApiKeys.antt =====
-- routes/apiKeys.ts and services/apiKey.ts (`generateApiKey`).
pub mod Created
use Prim.Native.String.{[] as empty, ◌∷◌ as cons}
use identity_platform.Prelude.{
  ℕ, ◌+◌, ◌-◌, ◌*◌, String, Bool, true, ◌&&◌, Option, none, some, List, [], ◌∷◌, map, select, find,
  update, append, get_or, leb, ◌==◌, if◌then◌else◌,
}
use identity_platform.Text.{utf16_length}
use identity_platform.Errors.{not_found, zod_error}
use identity_platform.Schema.{ApiKey, Store}
use identity_platform.Schema.KeyInserts.{NewApiKey, insert_api_key}
use identity_platform.Exec.{
  Host, Env, Request, Reply, Exec, pure, or_throw, statement, read, write_returning, now,
  random_bytes, parse, ◌>>=◌, ◌>>◌,
}
use identity_platform.Permission.{Principal}
use identity_platform.Session.{day_ms}
use identity_platform.Authenticate.{authenticated_client_id}
use identity_platform.Audit.{audit}
use identity_platform.Admin.{permitted, by_principal}

-- `text.slice(0, n)` and `text.slice(n)`.
abbrev pub slice_to : ℕ → String → String
slice_to n empty = empty
slice_to n (cons c s) = let rest = slice_to (n - 1) s in if n == 0 then empty else cons c rest

abbrev pub slice_from : ℕ → String → String
slice_from n empty = empty
slice_from n (cons c s) = let rest = slice_from (n - 1) s in if n == 0 then cons c s else rest

pub record GeneratedKey : Type 0 where
  pub key : String
  pub prefix : String
  pub hash : ℕ

-- `PREFIX_LENGTH` is 8.
abbrev pub key_prefix_of : String → String
key_prefix_of random = append "sk_" (slice_to 8 random)

abbrev pub key_of : String → String
key_of random = append (key_prefix_of random) (append "_" (slice_from 8 random))

pub record CreateKeyBody : Type 0 where
  pub name : String
  pub scopes : Option (List String)
  pub expires_in_days : Option ℕ

-- `z.number().int().min(1).max(365).optional()`
abbrev pub days_fit : Option ℕ → Bool
days_fit none = true
days_fit (some n) = leb 1 n && leb n 365

unfoldable pub create_key_schema : CreateKeyBody → Bool
create_key_schema b =
    leb 1 (utf16_length b.name) && (leb (utf16_length b.name) 255 && days_fit b.expires_in_days)

pub record KeyView : Type 0 where
  pub id : ℕ
  pub service_account_id : Option ℕ
  pub name : String
  pub key_prefix : String
  pub scopes : Option (List String)
  pub expires_at : Option ℕ
  pub created_at : ℕ

-- The only answer that shows the key.
pub record CreatedKey : Type 0 where
  pub view : KeyView
  pub key : String

pub record ListedKey : Type 0 where
  pub view : KeyView
  pub revoked : Bool
  pub last_used_at : Option ℕ

abbrev pub key_view : ApiKey → KeyView
key_view k = record {
  id = k.id;
  service_account_id = k.service_account_id;
  name = k.name;
  key_prefix = k.key_prefix;
  scopes = k.scopes;
  expires_at = k.expires_at;
  created_at = k.created_at;
}

abbrev pub listed_key : ApiKey → ListedKey
listed_key k = record { view = key_view k; revoked = k.revoked; last_used_at = k.last_used_at }

-- UPDATE api_keys SET revoked … RETURNING id.
unfoldable pub revoke_key_row : ℕ → ℕ → Store → Option ApiKey × Store
revoke_key_row id client_id st = (
  find (λ k. k.id == id && k.client_id == client_id) st.api_keys,
  record st {
    api_keys =
        update (λ k. k.id == id && k.client_id == client_id) (λ k. record k { revoked = true })
          st.api_keys;
  },
)

module _ (h : Host) where
  unfoldable pub generate_api_key : Exec GeneratedKey
  generate_api_key = do
    random ← random_bytes h
    pure (record {
      key = key_of random;
      prefix = key_prefix_of random;
      hash = h.sha256 (key_of random);
    })

  unfoldable pub expiry_of : Option ℕ → Exec (Option ℕ)
  expiry_of none = pure none
  expiry_of (some days) = now h >>= λ time. pure (some (time + days * day_ms))

module _ (h : Host) (req : Request) (principal : Principal) (client_id : ℕ) where
  unfoldable pub create_key_for : CreateKeyBody → Exec (Reply CreatedKey)
  create_key_for body = do
    generated ← generate_api_key h
    expires_at ← expiry_of h body.expires_in_days
    created ← statement h λ d.
        insert_api_key
          (record {
            client_id = client_id;
            service_account_id = none;
            key_prefix = generated.prefix;
            key_hash = generated.hash;
            name = body.name;
            scopes = get_or body.scopes [];
            expires_at = expires_at;
          })
          d.id d.time
    audit h req (by_principal principal client_id "apikey.created" created.id)
    pure (record { status = 201; body = record { view = key_view created; key = generated.key } })

  unfoldable pub revoke_key_for : ℕ → Exec (Reply ℕ)
  revoke_key_for key_id = do
    found ← write_returning h (revoke_key_row key_id client_id)
    revoked ← or_throw found (not_found "API key not found" none)
    audit h req (by_principal principal client_id "apikey.revoked" revoked.id)
    pure (record { status = 200; body = revoked.id })

module _ (env : Env) (h : Host) where
  unfoldable pub create_key : Request → CreateKeyBody → Exec (Reply CreatedKey)
  create_key req body = do
    principal ← permitted env h req "api-keys:write"
    parse (create_key_schema body)
    client_id ← authenticated_client_id principal
    create_key_for h req principal client_id body

  unfoldable pub list_keys : Request → Exec (Reply (List ListedKey))
  list_keys req = do
    principal ← permitted env h req "api-keys:read"
    client_id ← authenticated_client_id principal
    keys ← read h (λ st. select (λ k. k.client_id == client_id) st.api_keys)
    pure (record { status = 200; body = map listed_key keys })

  -- The path parameter is `none` where it is no UUID.
  unfoldable pub revoke_key : Request → Option ℕ → Exec (Reply ℕ)
  revoke_key req param = do
    principal ← permitted env h req "api-keys:write"
    client_id ← authenticated_client_id principal
    key_id ← or_throw param zod_error
    revoke_key_for h req principal client_id key_id

-- ===== src/Clients.antt =====
-- routes/clients.ts: the operator registers clients and sets up their tenants.
pub mod Bootstrap
use identity_platform.Prelude.{
  ℕ, String, Bool, true, false, ◌&&◌, ◌||◌, Option, none, some, List, [], ◌∷◌, map, find, update,
  append, get_or, is_some, leb, ◌==◌, if◌then◌else◌,
}
use identity_platform.Text.{utf16_length}
use identity_platform.Errors.{forbidden, not_found, bad_request, zod_error}
use identity_platform.Schema.{operator, Client, Store}
use identity_platform.Schema.KeyInserts.{insert_client}
use identity_platform.Exec.{
  Host, Env, Request, Reply, Exec, pure, or_throw, check, statement, read, write_returning, now,
  random_bytes, parse, ◌>>=◌, ◌>>◌,
}
use identity_platform.Audit.{AuditEvent, audit}

pub record CreateClientBody : Type 0 where
  pub name : String
  pub redirect_uris : Option (List String)
  pub is_public : Option Bool
  pub allow_user_registration : Option Bool
  pub password_reset_url : Option String
  pub email_verify_url : Option String

-- `none` is a member that is not sent, `some none` a URL that is sent as null.
pub record UpdateClientBody : Type 0 where
  pub name : Option String
  pub redirect_uris : Option (List String)
  pub is_active : Option Bool
  pub allow_user_registration : Option Bool
  pub password_reset_url : Option (Option String)
  pub email_verify_url : Option (Option String)

-- The columns that each answer shows.
pub record RegisteredClient : Type 0 where
  pub id : ℕ
  pub name : String
  pub client_id : String
  pub is_public : Bool
  pub allow_user_registration : Bool
  pub created_at : ℕ

abbrev pub registered : Client → RegisteredClient
registered c = record {
  id = c.id;
  name = c.name;
  client_id = c.client_id;
  is_public = c.is_public;
  allow_user_registration = c.allow_user_registration;
  created_at = c.created_at;
}

pub record ClientName : Type 0 where
  pub id : ℕ
  pub name : String
  pub client_id : String

abbrev pub client_name : Client → ClientName
client_name c = record { id = c.id; name = c.name; client_id = c.client_id }

pub record UpdatedClient : Type 0 where
  pub id : ℕ
  pub name : String
  pub client_id : String
  pub redirect_uris : Option (List String)
  pub is_active : Bool
  pub allow_user_registration : Bool
  pub password_reset_url : Option String
  pub email_verify_url : Option String

abbrev pub client_settings : Client → UpdatedClient
client_settings c = record {
  id = c.id;
  name = c.name;
  client_id = c.client_id;
  redirect_uris = c.redirect_uris;
  is_active = c.is_active;
  allow_user_registration = c.allow_user_registration;
  password_reset_url = c.password_reset_url;
  email_verify_url = c.email_verify_url;
}

pub record ListedClient : Type 0 where
  pub id : ℕ
  pub name : String
  pub client_id : String
  pub is_public : Bool
  pub is_active : Bool
  pub created_at : ℕ

abbrev pub listed_client : Client → ListedClient
listed_client c = record {
  id = c.id;
  name = c.name;
  client_id = c.client_id;
  is_public = c.is_public;
  is_active = c.is_active;
  created_at = c.created_at;
}

-- The secret is in no other answer.
pub record CreatedClient : Type 0 where
  pub client : RegisteredClient
  pub client_secret : Option String

pub record RotatedSecret : Type 0 where
  pub client : ClientName
  pub client_secret : Option String

abbrev pub all_urls : Host → List String → Bool
all_urls h [] = true
all_urls h (u ∷ us) = h.is_url u && all_urls h us

abbrev pub optional_url : Host → Option String → Bool
optional_url h none = true
optional_url h (some u) = h.is_url u

abbrev pub client_name_fits : Option String → Bool
client_name_fits none = true
client_name_fits (some n) = leb 1 (utf16_length n) && leb (utf16_length n) 255

unfoldable pub create_client_schema : Host → CreateClientBody → Bool
create_client_schema h b =
    client_name_fits (some b.name)
    && (all_urls h (get_or b.redirect_uris [])
        && (optional_url h b.password_reset_url && optional_url h b.email_verify_url))

unfoldable pub update_client_schema : Host → UpdateClientBody → Bool
update_client_schema h b =
    (client_name_fits b.name
      && (all_urls h (get_or b.redirect_uris [])
          && (optional_url h (get_or b.password_reset_url none)
              && optional_url h (get_or b.email_verify_url none))))
    && (is_some b.name
        || (is_some b.redirect_uris
            || (is_some b.is_active
                || (is_some b.allow_user_registration
                    || (is_some b.password_reset_url || is_some b.email_verify_url)))))

abbrev pub by_operator : ℕ → String → AuditEvent
by_operator client_id action = record {
  client_id = client_id;
  action = action;
  actor_type = operator;
  actor_id = none;
  target_id = some client_id;
}

abbrev pub registered_client : ℕ → Store → Option Client
registered_client id st = find (λ c. c.id == id) st.clients

-- UPDATE clients … RETURNING.
unfoldable pub update_client_row : ℕ → (Client → Client) → Store → Option Client × Store
update_client_row id f st =
    let clients = update (λ c. c.id == id) f st.clients in
    (find (λ c. c.id == id) clients, record st { clients = clients })

abbrev pub updated_client : UpdateClientBody → ℕ → Client → Client
updated_client b time c = record c {
  name = get_or b.name c.name;
  redirect_uris = elim b.redirect_uris [ none ↦ c.redirect_uris | some uris ↦ some uris ];
  is_active = get_or b.is_active c.is_active;
  allow_user_registration = get_or b.allow_user_registration c.allow_user_registration;
  password_reset_url = get_or b.password_reset_url c.password_reset_url;
  email_verify_url = get_or b.email_verify_url c.email_verify_url;
  updated_at = time;
}

module _ (h : Host) where
  -- `cs_` and 32 random bytes, for a confidential client.
  unfoldable pub new_secret : Bool → Exec (Option String)
  new_secret true = pure none
  new_secret false = random_bytes h >>= λ random. pure (some (append "cs_" random))

  abbrev pub secret_hash : Option String → Option ℕ
  secret_hash none = none
  secret_hash (some secret) = some (h.sha256 secret)

module _ (env : Env) (h : Host) where
  -- The digests of both keys are compared.
  unfoldable pub require_admin_key : Request → Exec (Unit {0})
  require_admin_key req =
      check (h.sha256 env.admin_key == h.sha256 (get_or req.admin_key ""))
        (forbidden "Invalid admin key" none)

  unfoldable pub create_client : Request → CreateClientBody → Exec (Reply CreatedClient)
  create_client req body = do
    require_admin_key req
    parse (create_client_schema h body)
    let is_public = get_or body.is_public false
    random ← random_bytes h
    secret ← new_secret h is_public
    client ← statement h λ d.
        insert_client
          (record {
            name = body.name;
            client_id = append "cl_" random;
            client_secret_hash = secret_hash h secret;
            is_public = is_public;
            allow_user_registration = get_or body.allow_user_registration true;
            redirect_uris = get_or body.redirect_uris [];
            password_reset_url = body.password_reset_url;
            email_verify_url = body.email_verify_url;
          })
          d.id d.time
    audit h req (by_operator client.id "client.created")
    pure (record {
      status = 201;
      body = record { client = registered client; client_secret = secret };
    })

  -- The path parameter is `none` where it is no UUID.
  unfoldable pub rotate_secret : Request → Option ℕ → Exec (Reply RotatedSecret)
  rotate_secret req param = do
    require_admin_key req
    id ← or_throw param zod_error
    found ← read h (registered_client id)
    existing ← or_throw found (not_found "Client not found" none)
    check (if existing.is_public then false else true)
        (bad_request "Public clients have no secret to rotate" none)
    secret ← new_secret h false
    time ← now h
    updated ← write_returning h (
        update_client_row id
          λ c. record c { client_secret_hash = secret_hash h secret; updated_at = time })
    client ← or_throw updated (not_found "Client not found" none)
    audit h req (by_operator client.id "client.secret_rotated")
    pure (record {
      status = 200;
      body = record { client = client_name client; client_secret = secret };
    })

  unfoldable pub update_client : Request → Option ℕ → UpdateClientBody → Exec (Reply UpdatedClient)
  update_client req param body = do
    require_admin_key req
    id ← or_throw param zod_error
    parse (update_client_schema h body)
    time ← now h
    updated ← write_returning h (update_client_row id (updated_client body time))
    client ← or_throw updated (not_found "Client not found" none)
    audit h req (by_operator client.id "client.updated")
    pure (record { status = 200; body = client_settings client })

  unfoldable pub list_clients : Request → Exec (Reply (List ListedClient))
  list_clients req = do
    require_admin_key req
    all ← read h (λ st. st.clients)
    pure (record { status = 200; body = map listed_client all })

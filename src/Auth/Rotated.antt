-- ===== src/Auth/Rotated.antt =====
-- routes/auth.ts: a live refresh token is rotated.
use identity_platform.Prelude.{
  zero, suc, ==_iff, ℕ, ◌+◌, ◌*◌, String, Bool, true, false, some, ◌≡◌, refl, ◌∙◌, List, [], ◌∷◌,
  ◌++◌, any, find, update, arith, ◌||◌, if◌then◌else◌, ◌==◌, ltb,
}
use identity_platform.Schema.{RefreshToken, Client, User, Store}
use identity_platform.Schema.Inserts.{NewRefreshToken, insert_refresh_token, refresh_token_row}
use identity_platform.Exec.{
  Host, alone, Env, TokenClaims, Request, Reply, State, done, read, now, statement, random_uuid,
  random_bytes, legacy_secret, private_key,
}
use identity_platform.Token.{
  TokenPair, has_asymmetric_jwt_keys, signing_header, jwt_payload, sign_access_token,
  create_token_pair, parse_expiry,
}
use identity_platform.Session.{prepare_session, user_permissions, day_ms}
use identity_platform.Session.Credentials.{accepted, verify_client_credentials_lem}
use identity_platform.Auth.Rotation.{rotate_token, is_consumable, rotate, set_tokens}
use identity_platform.Auth.Refresh.{
  RefreshBody, refresh_schema, by_hash, owner_in, present_live, present, refresh,
}

-- So many steps on.
abbrev pub on : ℕ → ℕ → ℕ
on zero k = k
on (suc n) k = on n (k + 1)

-- The state after so many steps of a request that has written nothing.
abbrev pub later : State → ℕ → State
later s n = record { store = s.store; step = on n s.step }

abbrev pub claims_of : User → Client → Store → TokenClaims
claims_of u client st = record {
  sub = u.id;
  cid = client.id;
  aud = client.client_id;
  email = u.email;
  permissions = user_permissions u.id client.id st;
}

-- The row of the new token, by the step at which the session is prepared.
abbrev pub new_row : Env → Host → Request → User → ℕ → NewRefreshToken
new_row env h req u k = record {
  id = h.uuid (on 3 k);
  user_id = u.id;
  token_hash = h.sha256 (h.random (on 2 k));
  ip_address = req.ip;
  user_agent = req.user_agent;
  expires_at = h.clock (on 4 k) + env.jwt_refresh_expiry_days * day_ms;
}

module _ {A : Type 0} where
  found-any :
      (p q : A → Bool) (xs : List A) (x : A) → find p xs ≡ some x → q x ≡ true → any q xs ≡ true
  found-any p q [] x e h = cc
  found-any p q (y ∷ ys) x e h = ground (arith, found-any p q ys x)

  pub any-update_same :
      (p q : A → Bool) (f : A → A) (xs : List A)
      → ((x : A) → q (f x) ≡ q x)
      → any q (update p f xs) ≡ any q xs
  any-update_same p q f [] same = refl
  any-update_same p q f (x ∷ xs) same = ground (arith, same x, any-update_same p q f xs same)

module _ (env : Env) (h : Host) (req : Request) (client : Client) (u : User) where
  pub prepare_runs :
      (s : State) (access : String)
      → h.jwt_sign
          (if has_asymmetric_jwt_keys env then private_key else legacy_secret)
          (signing_header env)
          (jwt_payload env (claims_of u client s.store))
          (h.clock (s.step + 1))
        ≡ some access
      → prepare_session env (alone h) u.id u.email client req s
        ≡ done
            (record {
              response = record {
                access_token = access;
                refresh_token = h.random (on 2 s.step);
                expires_in = parse_expiry env.jwt_access_expiry;
              };
              refresh_token_record = new_row env h req u s.step;
            })
            (later s 5)
  unfolding prepare_session create_token_pair sign_access_token read statement now random_uuid
      random_bytes
  prepare_runs s access signed = rw signed

-- The presented token is live, its owner active, jose signs, and the new row's keys are fresh.
pub record IsLive (env : Env) (h : Host) (body : RefreshBody) (s : State) (client : Client)
    (t : RefreshToken) (u : User) (access : String) : Type 0 where
  pub fits : refresh_schema h body ≡ true
  pub credentials : accepted h body.client_id body.client_secret s.store ≡ some client
  pub stored : by_hash (h.sha256 body.refresh_token) s.store ≡ some t
  pub owned : owner_in t.user_id client.id s.store ≡ some u
  pub active : u.is_active ≡ true
  pub live : t.revoked ≡ false
  pub unexpired : ltb t.expires_at (h.clock (on 3 s.step)) ≡ false
  pub still_unexpired : ltb (h.clock (on 9 s.step)) t.expires_at ≡ true
  pub signed :
      h.jwt_sign
        (if has_asymmetric_jwt_keys env then private_key else legacy_secret)
        (signing_header env)
        (jwt_payload env (claims_of u client s.store))
        (h.clock (on 5 s.step))
      ≡ some access
  pub fresh :
      any
        (λ r. r.id == h.uuid (on 7 s.step) || r.token_hash == h.sha256 (h.random (on 6 s.step)))
        s.store.refresh_tokens
      ≡ false

-- The refresh tokens after a rotation.
abbrev pub rotated_tokens :
    Env → Host → Request → RefreshBody → State → RefreshToken → User → List RefreshToken
rotated_tokens env h req body s t u =
    update (is_consumable t.id (h.clock (on 9 s.step)))
      (rotate (h.sha256 body.operation_id) (h.clock (on 9 s.step)) (h.uuid (on 7 s.step)))
      s.store.refresh_tokens
    ++ refresh_token_row (new_row env h req u (on 4 s.step)) (h.clock (on 10 s.step)) ∷ []

rotation_runs :
    (env : Env) (h : Host) (req : Request) (body : RefreshBody) (s : State) (client : Client)
    (t : RefreshToken) (u : User) (access : String)
    → IsLive env h body s client t u access
    → rotate_token t.id
        (h.sha256 body.operation_id)
        (h.clock (on 9 s.step))
        (new_row env h req u (on 4 s.step))
        (h.clock (on 10 s.step))
        s.store
      ≡ some (true, set_tokens (rotated_tokens env h req body s t u) s.store)
unfolding rotate_token insert_refresh_token
rotation_runs env h req body s client t u access w =
    let hit : any (is_consumable t.id (h.clock (on 9 s.step))) s.store.refresh_tokens ≡ true =
      found-any _ (is_consumable t.id (h.clock (on 9 s.step))) s.store.refresh_tokens t w.stored
        (ground (arith, w.live, w.still_unexpired, ==_iff t.id t.id)) in
    let unused =
      any-update_same (is_consumable t.id (h.clock (on 9 s.step)))
        (λ r. r.id == h.uuid (on 7 s.step) || r.token_hash == h.sha256 (h.random (on 6 s.step)))
        (rotate (h.sha256 body.operation_id) (h.clock (on 9 s.step)) (h.uuid (on 7 s.step)))
        s.store.refresh_tokens (λ r. refl)
      ∙ w.fresh in
    rw (hit, unused)

abbrev pub rotation_reply : Env → Host → State → String → Reply TokenPair
rotation_reply env h s access = record {
  status = 200;
  body = record {
    access_token = access;
    refresh_token = h.random (on 6 s.step);
    expires_in = parse_expiry env.jwt_access_expiry;
  };
}

present_live_runs :
    (env : Env) (h : Host) (req : Request) (body : RefreshBody) (s : State) (client : Client)
    (t : RefreshToken) (u : User) (access : String)
    → IsLive env h body s client t u access
    → present_live env (alone h) req client t u (h.sha256 body.operation_id) (later s 4)
      ≡ done (rotation_reply env h s access) (record {
        store = set_tokens (rotated_tokens env h req body s t u) s.store;
        step = on 11 s.step;
      })
unfolding present_live now statement
present_live_runs env h req body s client t u access w = rw (
  prepare_runs env h req client u (later s 4) access w.signed,
  rotation_runs env h req body s client t u access w,
)

present_runs :
    (env : Env) (h : Host) (req : Request) (client : Client) (t : RefreshToken) (u : User)
    (operation time : ℕ) (s : State)
    → u.is_active ≡ true
    → t.revoked ≡ false
    → ltb t.expires_at time ≡ false
    → present env (alone h) req client t (some u) operation time s
      ≡ present_live env (alone h) req client t u operation s
unfolding present
present_runs env h req client t u operation time s active live unexpired =
    ground (arith, active, live, unexpired)

-- `POST /auth/refresh` with a live token answers 200, where it runs alone: the access token is jose's
-- over the owner's current permissions, the refresh token is the fresh one, the presented row is
-- marked as rotated by this operation into the new row, and no other row changes. It takes that the
-- credentials, the token and its owner are good, that jose signs, and that the new row's id and
-- digest are not taken.
pub refresh-rotate :
    (env : Env) (h : Host) (req : Request) (body : RefreshBody) (s : State) (client : Client)
    (t : RefreshToken) (u : User) (access : String)
    → IsLive env h body s client t u access
    → refresh env (alone h) req body s
      ≡ done (rotation_reply env h s access) (record {
        store = set_tokens (rotated_tokens env h req body s t u) s.store;
        step = on 11 s.step;
      })
unfolding refresh read statement now refresh_schema
refresh-rotate env h req body s client t u access w =
    rw
      (
        w.fits,
        verify_client_credentials_lem (alone h) body.client_id body.client_secret s,
        w.credentials,
        w.stored,
        w.owned,
      )
      (present_runs env h req client t u (h.sha256 body.operation_id) (h.clock (on 3 s.step))
          (later s 4) w.active w.live w.unexpired
        ∙ present_live_runs env h req body s client t u access w)

-- ===== src/Session/Contents.antt =====
-- services/session.ts: what a session that `prepareSession` returned consists of.
use identity_platform.Prelude.{ℕ, String, some, ◌≡◌, refl, if◌then◌else◌}
use identity_platform.Errors.{unexpected}
use identity_platform.Schema.{Client, Store}
use identity_platform.Exec.{
  Host, Env, TokenClaims, Request, State, legacy_secret, private_key, read, now, random_uuid,
  random_bytes,
}
use identity_platform.Exec.Inversion.{From, then_lem, pure_from, read_done, or_throw_done}
use identity_platform.Token.{
  create_token_pair, sign_access_token, has_asymmetric_jwt_keys, signing_header, jwt_payload,
}
use identity_platform.Session.{Prepared, prepare_session, user_permissions}

-- The access token is jose's over the user's permissions in the tenant, and the row is the refresh
-- token's: only its digest is kept.
pub record IsSession (env : Env) (h : Host) (user_id : ℕ) (email : String) (client : Client)
    (st : Store) (p : Prepared) : Type 0 where
  pub signed_at : ℕ
  pub signed :
      h.jwt_sign
        (if has_asymmetric_jwt_keys env then private_key else legacy_secret)
        (signing_header env)
        (jwt_payload env (record {
          sub = user_id;
          cid = client.id;
          aud = client.client_id;
          email = email;
          permissions = user_permissions user_id client.id st;
        }))
        signed_at
      ≡ some p.response.access_token
  pub owner : p.refresh_token_record.user_id ≡ user_id
  pub hashed : p.refresh_token_record.token_hash ≡ h.sha256 p.response.refresh_token

module _ (env : Env) (h : Host) (claims : TokenClaims) where
  IsSigned : ℕ → String → Type 0
  IsSigned t access =
      h.jwt_sign (if has_asymmetric_jwt_keys env then private_key else legacy_secret)
        (signing_header env) (jwt_payload env claims) t
      ≡ some access

  sign_access_token_from :
      (s : State) → From s (sign_access_token env h claims) λ a _. (t : ℕ) × IsSigned t a
  unfolding sign_access_token IsSigned
  sign_access_token_from s =
      then_lem (now h) _
        λ t s1 _. record { at = λ a s' e. (t, (or_throw_done _ unexpected s1 a s' e).0) }

  create_token_pair_from :
      (s : State)
      → From s
          (create_token_pair env h claims)
          λ r _. ((t : ℕ) × IsSigned t r.0.access_token) × (r.1 ≡ h.sha256 r.0.refresh_token)
  unfolding create_token_pair
  create_token_pair_from s = then_lem (sign_access_token env h claims) _ λ access s1 e.
      then_lem (random_bytes h) _
        λ refresh s2 _. pure_from _ ((sign_access_token_from s).at access s1 e, refl)

pub prepare_session_from :
    (env : Env) (h : Host) (user_id : ℕ) (email : String) (client : Client) (req : Request)
    (s : State)
    → From s
        (prepare_session env h user_id email client req)
        λ p _. IsSession env h user_id email client (h.others s.step s.store) p
unfolding prepare_session IsSigned
prepare_session_from env h user_id email client req s =
    then_lem (read h (user_permissions user_id client.id)) _ λ perms s1 e.
      then_lem (create_token_pair env h _) _ λ pair s2 e2. then_lem (random_uuid h) _ λ id s3 _.
        then_lem (now h) _ λ t s4 _.
          let ((at, signed), hashed) = (create_token_pair_from env h _ s1).at pair s2 e2 in
          let (found, _, _) = read_done h (user_permissions user_id client.id) s perms s1 e in
          pure_from _
            (record { signed_at = at; signed = rw (← found) signed; owner = refl; hashed = hashed })

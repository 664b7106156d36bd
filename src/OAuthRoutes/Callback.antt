-- ===== src/OAuthRoutes/Callback.antt =====
-- routes/oauth.ts: what a started flow, and the provider's callback, entail.
use identity_platform.Prelude.{
  append, subst, sym, ◌∙◌, ℕ, ◌+◌, String, Bool, true, Option, none, some, ◌≡◌, refl, arith,
  is_truthy, str_eq,
}
use identity_platform.Errors.{Failure, bad_request, zod_error, unexpected}
use identity_platform.Schema.{Client}
use identity_platform.Exec.{
  check, ◌>>◌, pure, or_throw, ◌>>=◌, Host, Env, Request, OAuthState, State, read, now, random_uuid,
  random_bytes, done,
}
use identity_platform.Exec.Inversion.{
  From, then_lem, check_then_lem, or_throw_then_lem, statement_done, read_done, if_from,
  option_from, pure_from, throw_from, guarded_then_lem,
}
use identity_platform.Permission.{includes}
use identity_platform.Session.{find_active_client, truthy}
use identity_platform.Session.Credentials.{after}
use identity_platform.OAuth.{
  ProfileResult, enabled, ProviderConfig, get_provider_config, profile, refused, provider_profile,
  encrypt_state, decrypt_state, is_fresh, set_nonce, consume_state_nonce, store_auth_code,
}
use identity_platform.OAuthRoutes.{
  Resolution, respond, InitiateQuery, initiate_schema, allowed_uris, has_pkce_if_public,
  AuthorizeRedirect, initiate, same_text, RedirectBack, resolve_oauth_user, signed_in_as, rejected,
  finish_callback, process_callback, callback,
}

-- The flow was started for an active client, to one of its registered URIs, with a PKCE challenge
-- if the client is public; the sealed state says so, with a time stamp.
pub record IsStarted (h : Host) (provider : String) (query : InitiateQuery) (client : Client)
    (text : String) : Type 0 where
  pub registered : includes (allowed_uris client) query.redirect_uri ≡ true
  pub challenged : client.is_public ≡ true → is_truthy query.code_challenge ≡ true
  pub nonce : ℕ
  pub at : ℕ
  pub seed : ℕ
  pub sealed :
      text
      ≡ h.seal seed (record {
        client_id = query.client_id;
        redirect_uri = query.redirect_uri;
        provider = some provider;
        nonce = nonce;
        code_challenge = query.code_challenge;
        consumer_state = query.state;
        iat = some at;
      })

or_throw_stays :
    (o : Option String) (x : Failure) (f : String → ProviderConfig) (s : State)
    → From s (or_throw o x >>= λ a. pure (f a)) λ _ s'. s' ≡ s
or_throw_stays o x f s = or_throw_then_lem o x _ λ id _. pure_from (f id) refl

config_from :
    (env : Env) (provider : String) (s : State)
    → From s (get_provider_config env provider) λ _ s'. s' ≡ s
unfolding get_provider_config
config_from env provider s =
    if_from (str_eq provider "google")
      (λ _.
        or_throw_stays (enabled env.google_client_id env.google_client_secret)
          (bad_request "Google OAuth is not enabled" (some "PROVIDER_DISABLED")) _ s)
      (λ _.
        if_from (str_eq provider "github")
          (λ _.
            or_throw_stays (enabled env.github_client_id env.github_client_secret)
              (bad_request "GitHub OAuth is not enabled" (some "PROVIDER_DISABLED")) _ s)
          (λ _.
            throw_from (
              bad_request (append "Unsupported provider: " provider)
                (some "UNSUPPORTED_PROVIDER"))))

encrypt_from :
    (h : Host) (state : OAuthState) (s : State)
    → From s
        (encrypt_state h state)
        λ text _. (at : ℕ) × (seed : ℕ) × (text ≡ h.seal seed (record state { iat = some at }))
unfolding encrypt_state
encrypt_from h state s =
    then_lem (now h) _ λ at s1 _. record { at = λ text s' e. (at, s1.step, ground arith) }

challenge_needed :
    (c : Client) (challenge : Option String)
    → has_pkce_if_public c challenge ≡ true
    → c.is_public ≡ true
    → is_truthy challenge ≡ true
challenge_needed c challenge e open_to_all = ground arith

-- `GET /auth/oauth/:provider` redirects only for a client that is stored and active, back to a URI
-- registered for it, with a PKCE challenge where the client is public; and the state that goes along
-- seals exactly this request: provider, client, URI, challenge, the application's own state, and a
-- time stamp.
pub initiate_sound :
    (env : Env) (h : Host) (provider : String) (query : InitiateQuery) (s : State)
    (r : AuthorizeRedirect) (s' : State)
    → initiate env h provider query s ≡ done r s'
    → (client : Client) × (find_active_client query.client_id (after h s).store ≡ some client)
      × IsStarted h provider query client r.state
unfolding initiate
initiate_sound env h provider query s r s' e = facts.at r s' e
  where
    facts : From s (initiate env h provider query) λ r _.
        ((client : Client) × (find_active_client query.client_id (after h s).store ≡ some client)
          × IsStarted h provider query client r.state)
    facts = check_then_lem (initiate_schema h query) zod_error _ λ _.
        then_lem (get_provider_config env provider) _ λ config s1 e1.
          then_lem (read h (find_active_client query.client_id)) _ λ found s2 e2.
            or_throw_then_lem found (bad_request "Invalid client_id" none) _ λ client hit.
              check_then_lem (includes (allowed_uris client) query.redirect_uri)
                (bad_request "redirect_uri not registered for this client" none) _
                λ registered.
                  check_then_lem (has_pkce_if_public client query.code_challenge)
                    (bad_request "code_challenge is required for public clients"
                      (some "PKCE_REQUIRED"))
                    _
                    λ pkce. then_lem (random_uuid h) _ λ nonce s3 _.
                      then_lem (encrypt_state h _) _ λ text s4 e4.
                        let (at, seed, sealed) = (encrypt_from h _ s3).at text s4 e4 in
                        let (read_from, _, _) = read_done h _ s1 found s2 e2 in
                        pure_from _ (
                          client,
                          subst
                              (λ z.
                                find_active_client query.client_id (after h z).store ≡ some client)
                              ((config_from env provider s).at config s1 e1) (sym read_from ∙ hit),
                          record {
                            registered = registered;
                            challenged = challenge_needed client query.code_challenge pkce;
                            nonce = nonce;
                            at = at;
                            seed = seed;
                            sealed = sealed;
                          },
                        )

module _ (env : Env) (h : Host) (req : Request) where
  -- Where the answer goes.
  ReturnsTo : OAuthState → RedirectBack → State → Type 0
  ReturnsTo t r _ = r.redirect_uri ≡ t.redirect_uri

  respond_from :
      (client : Client) (t : OAuthState) (resolution : Resolution) (s : State)
      → From s (respond env h client t resolution) (ReturnsTo t)
  unfolding respond ReturnsTo
  respond_from client t (signed_in_as user) s =
      then_lem (random_bytes h) _
        λ code s1 _. then_lem (store_auth_code h code _) _ λ _ s2 _. pure_from _ refl
  respond_from client t (rejected error) s = pure_from _ refl

  finish_from :
      (client : Client) (provider : String) (t : OAuthState) (result : ProfileResult) (s : State)
      → From s (finish_callback env h req client provider t result) (ReturnsTo t)
  unfolding finish_callback ReturnsTo
  finish_from client provider t (profile info) s =
      then_lem (resolve_oauth_user env h req client provider info) _
        λ resolution s1 _. respond_from client t resolution s1
  finish_from client provider t (refused reason) s = pure_from _ refl

  process_from :
      (provider : String) (t : OAuthState) (code error : Option String) (s : State)
      → From s (process_callback env h req provider t code error) (ReturnsTo t)
  unfolding process_callback ReturnsTo
  process_from provider t code error s =
      option_from (truthy error)
        (λ _. or_throw_then_lem (truthy code) (bad_request "Missing code" none) _ λ given _.
          then_lem (read h (find_active_client t.client_id)) _ λ found s1 _.
            or_throw_then_lem found (bad_request "Invalid client" none) _ λ client _.
              then_lem (provider_profile h env provider given) _
                λ result s2 _. finish_from client provider t result s2)
        (λ e _. pure_from _ refl)

-- The state that came back is one that the platform sealed, for this provider, at most ten minutes
-- old and not presented before.
pub record IsReturned (h : Host) (provider : String) (sealed : Option String) (s : State)
    (r : RedirectBack) : Type 0 where
  pub text : String
  pub transaction : OAuthState
  pub sent : sealed ≡ some text
  pub opened : h.unseal text ≡ some transaction
  pub fresh : is_fresh transaction.iat (h.clock s.step) ≡ true
  pub same_provider : same_text transaction.provider provider ≡ true
  pub first :
      (set_nonce transaction.nonce (h.clock (s.step + 1)) (h.others (s.step + 1) s.store)).0 ≡ true
  pub returns : r.redirect_uri ≡ transaction.redirect_uri

decrypt_from :
    (h : Host) (text : String) (s : State)
    → From s (decrypt_state h text) λ t s'.
      (h.unseal text ≡ some t)
      × (is_fresh t.iat (h.clock s.step) ≡ true)
      × (s' ≡ record { store = s.store; step = s.step + 1 })
unfolding decrypt_state now
decrypt_from h text s =
    or_throw_then_lem (h.unseal text) unexpected
      (λ t. now h >>= λ time. check (is_fresh t.iat time) unexpected >> pure t)
      λ t opened.
        then_lem (now h) (λ time. check (is_fresh t.iat time) unexpected >> pure t)
          λ time s1 e1.
            check_then_lem (is_fresh t.iat time) unexpected (λ _. pure t)
              λ fresh. pure_from t (opened, ground arith, ground arith)

nonce_verdict :
    (h : Host) (nonce : ℕ) (s : State) (first : Bool) (s' : State)
    → consume_state_nonce h nonce s ≡ done first s'
    → (set_nonce nonce (h.clock s.step) (h.others s.step s.store)).0 ≡ first
unfolding consume_state_nonce
nonce_verdict h nonce s first s' e =
    let (taken, _) = statement_done h (λ d st. some (set_nonce nonce d.time st)) s first s' e in
    ground arith

truthy-some : (o : Option String) (text : String) → truthy o ≡ some text → o ≡ some text
truthy-some none text e = cc
truthy-some (some s) text e = ground arith

-- `GET /auth/oauth/:provider/callback` redirects only for a state that opens under the platform's
-- key, was issued for this provider at most ten minutes ago, and whose nonce no marker says was
-- accepted before; and it redirects to the URI in that state, with a code or with an error.
pub callback_sound :
    (env : Env) (h : Host) (req : Request) (provider : String) (code state error : Option String)
    (s : State) (r : RedirectBack) (s' : State)
    → callback env h req provider code state error s ≡ done r s'
    → IsReturned h provider state s r
unfolding callback ReturnsTo
callback_sound env h req provider code state error s r s' e = facts.at r s' e
  where
    facts :
        From s (callback env h req provider code state error) λ r _. IsReturned h provider state s r
    facts = or_throw_then_lem (truthy state) (bad_request "Missing state" none) _ λ text sent.
        guarded_then_lem (decrypt_state h text)
          (bad_request "Invalid or tampered state parameter" none) _
          λ t s1 e1.
            check_then_lem (same_text t.provider provider)
              (bad_request "State was issued for a different provider" (some "PROVIDER_MISMATCH")) _
              λ same. then_lem (consume_state_nonce h t.nonce) _ λ first s2 e2.
                check_then_lem first
                  (bad_request "State has already been used" (some "STATE_ALREADY_USED")) _
                  λ unused. record {
                    at = λ r s' e.
                        let (opened, fresh, next) = (decrypt_from h text s).at t s1 e1 in
                        record {
                          text = text;
                          transaction = t;
                          sent = truthy-some state text sent;
                          opened = opened;
                          fresh = fresh;
                          same_provider = same;
                          first =
                              subst
                                (λ z.
                                  (set_nonce t.nonce (h.clock z.step) (h.others z.step z.store)).0
                                  ≡ true)
                                next (nonce_verdict h t.nonce s1 first s2 e2 ∙ unused);
                          returns = (process_from env h req provider t code error s2).at r s' e;
                        };
                  }

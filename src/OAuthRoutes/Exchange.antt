-- ===== src/OAuthRoutes/Exchange.antt =====
-- routes/oauth.ts: `POST /auth/oauth/token`, from what an answer with tokens entails.
use identity_platform.Prelude.{
  subst, String, true, Option, none, some, ◌≡◌, arith, str_eq, ◌==◌, ==_iff, eq_iff,
}
use identity_platform.Errors.{zod_error, unauthorized}
use identity_platform.Schema.{AuthCodeData, Client}
use identity_platform.Exec.{Host, Env, Request, Reply, State, done}
use identity_platform.Exec.Inversion.{
  From, then_lem, check_then_lem, or_throw_then_lem, whatever, statement_done,
}
use identity_platform.Session.{verify_client_credentials, find_active_client}
use identity_platform.Session.Credentials.{after, IsPresented, credentials_sound}
use identity_platform.Auth.Password.{SignedIn}
use identity_platform.OAuth.{get_code, resolve_auth_code}
use identity_platform.OAuthRoutes.{
  ExchangeBody, token_exchange_schema, pkce_holds, invalid_code, client_mismatch, exchange,
}

-- The code was issued to the caller, for its redirect URI and its PKCE challenge.
pub record IsBound (h : Host) (body : ExchangeBody) (code : AuthCodeData) (client : Client)
    : Type 0 where
  pub same_app : code.app_client_id ≡ body.client_id
  pub named : client.client_id ≡ body.client_id
  pub active : client.is_active ≡ true
  pub presented : IsPresented h body.client_secret client
  pub same_client : code.client_id ≡ client.id
  pub same_uri : code.redirect_uri ≡ body.redirect_uri
  pub pkce : pkce_holds h code.code_challenge body.code_verifier ≡ true

-- A code that the store held when the request looked it up, bound to the client that the store held
-- when the request checked the credentials.
abbrev pub HoldsBound : Host → ExchangeBody → State → Type 0
HoldsBound h body s =
    (code : AuthCodeData) × (client : Client) × (get_code (h.sha256 body.code) (h.clock s.step)
        (h.others s.step s.store)
      ≡ some code)
    × (find_active_client body.client_id (after h (after h s)).store ≡ some client)
    × IsBound h body code client

resolve_auth_code_found :
    (h : Host) (text : String) (s : State) (resolved : Option AuthCodeData) (s' : State)
    (code : AuthCodeData)
    → resolve_auth_code h text s ≡ done resolved s'
    → resolved ≡ some code
    → (get_code (h.sha256 text) (h.clock s.step) (h.others s.step s.store) ≡ some code)
      × (s' ≡ after h s)
unfolding resolve_auth_code
resolve_auth_code_found h text s resolved s' code e found =
    let (held, next) =
      statement_done h (λ d st. some (get_code (h.sha256 text) d.time st, st)) s resolved s' e in
    (ground arith, ground arith)

-- The platform hands out tokens for a code only if the code was stored and had not expired when the
-- request looked it up, was issued to the client that the caller names and proves to be (an active
-- one), for the redirect URI that the caller repeats, and with the PKCE challenge, if it had one,
-- whose verifier the caller sends; whatever other requests do meanwhile.
pub exchange_sound :
    (env : Env) (h : Host) (req : Request) (body : ExchangeBody) (s : State)
    (reply : Reply SignedIn) (s' : State)
    → exchange env h req body s ≡ done reply s'
    → HoldsBound h body s
unfolding exchange
exchange_sound env h req body s reply s' e = facts.at reply s' e
  where
    bound :
        (code : AuthCodeData) (client : Client) (s1 s2 : State)
        → str_eq code.app_client_id body.client_id ≡ true
        → verify_client_credentials h body.client_id body.client_secret s1 ≡ done client s2
        → (code.client_id == client.id) ≡ true
        → str_eq code.redirect_uri body.redirect_uri ≡ true
        → pkce_holds h code.code_challenge body.code_verifier ≡ true
        → IsBound h body code client
    bound code client s1 s2 app credentials own uri pkce =
        let (_, (named, active, presented), _) =
          (credentials_sound h body.client_id body.client_secret s1).0 client s2 credentials in
        record {
          same_app = (eq_iff _ _).0 app;
          named = named;
          active = active;
          presented = presented;
          same_client = (==_iff _ _).0 own;
          same_uri = (eq_iff _ _).0 uri;
          pkce = pkce;
        }

    facts : From s (exchange env h req body) λ _ _. HoldsBound h body s
    facts = check_then_lem (token_exchange_schema h body) zod_error _ λ _.
        then_lem (resolve_auth_code h body.code) _ λ resolved s1 e_resolve.
          or_throw_then_lem resolved invalid_code _ λ code e_code.
            check_then_lem (str_eq code.app_client_id body.client_id) client_mismatch _ λ app.
              then_lem (verify_client_credentials h body.client_id body.client_secret) _
                λ client s2 e_client.
                  check_then_lem (code.client_id == client.id) client_mismatch _ λ own.
                    check_then_lem (str_eq code.redirect_uri body.redirect_uri)
                      (unauthorized "redirect_uri mismatch" none) _
                      λ uri.
                        check_then_lem (pkce_holds h code.code_challenge body.code_verifier)
                          (unauthorized "Invalid code verifier" (some "INVALID_VERIFIER")) _
                          λ pkce. whatever λ _ _.
                            let (held, next) =
                              resolve_auth_code_found h body.code s resolved s1 code e_resolve
                                e_code in
                            let (found, _, _) =
                              (credentials_sound h body.client_id body.client_secret s1).0 client s2
                                e_client in
                            (
                              code,
                              client,
                              held,
                              subst
                                  (λ z.
                                    find_active_client body.client_id (after h z).store
                                    ≡ some client)
                                  next found,
                              bound code client s1 s2 app e_client own uri pkce,
                            )

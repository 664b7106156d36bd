-- ===== src/Auth/Login.antt =====
-- routes/auth.ts: whom `POST /auth/login` lets in.
use identity_platform.Prelude.{
  String, true, Option, none, some, ◌≡◌, refl, sym, ap, subst, ◌∙◌, arith, Option-cases, inl, inr,
}
use identity_platform.Text.{to_lower}
use identity_platform.Errors.{zod_error}
use identity_platform.Schema.{Client, User}
use identity_platform.Exec.{Host, Env, Request, Reply, State, done, read}
use identity_platform.Exec.Inversion.{
  From, then_lem, check_then_lem, option_from, if_from, pure_from, throw_from, read_done,
}
use identity_platform.Session.{verify_client_credentials, find_active_client, issue_session}
use identity_platform.Session.Credentials.{IsPresented, after, credentials_sound}
use identity_platform.Audit.{audit, by_user, by_anonymous}
use identity_platform.Auth.Password.{
  CredentialsBody, SignedIn, login_schema, find_active_user, password_of, hash_password,
  verify_password, invalid_credentials, refuse_login, log_in, login,
}

-- An active user of the client whose stored hash accepts the password.
pub record IsSignedIn (h : Host) (body : CredentialsBody) (s : State) (reply : Reply SignedIn)
    : Type 0 where
  pub client : Client
  pub user : User
  pub hash : String
  pub named : find_active_client body.client_id (after h s).store ≡ some client
  pub presented : IsPresented h body.client_secret client
  pub stored :
      find_active_user client.id (to_lower body.email) (after h (after h s)).store ≡ some user
  pub hashed : user.password_hash ≡ some hash
  pub accepted : verify_password h hash body.password ≡ true
  pub answered : reply.body.id ≡ user.id

password_of_hash :
    (found : Option User) (u : User) (hash : String)
    → password_of found ≡ some (u, hash)
    → (found ≡ some u) × (u.password_hash ≡ some hash)
password_of_hash none u hash e = cc
password_of_hash (some v) u hash e = elim (Option-cases v.password_hash) [
  | inl missing ↦ absurd (cc (rw (missing, password_of) at e))
  | inr (d, held) ↦
      let same : v ≡ u = ground arith in
      (ap some same, ap (λ (z : User). z.password_hash) (sym same) ∙ held ∙ ground arith)
]

-- `POST /auth/login` answers with a session only for an active user of the authenticated client who
-- is stored under the lower-cased address and whose stored hash accepts the password; whatever other
-- requests do meanwhile.
pub login_sound :
    (env : Env) (h : Host) (req : Request) (body : CredentialsBody) (s : State)
    (reply : Reply SignedIn) (s' : State)
    → login env h req body s ≡ done reply s'
    → IsSignedIn h body s reply
unfolding login refuse_login log_in
login_sound env h req body s reply s' e = facts.at reply s' e
  where
    refused :
        {Q : Reply SignedIn → State → Type 0} (client : Client) (m : State)
        → From m (refuse_login env h req client) Q
    refused client m =
        then_lem (audit h req (by_anonymous client.id "user.login_failed")) _
          λ _ m1 _. throw_from invalid_credentials

    facts : From s (login env h req body) λ reply _. IsSignedIn h body s reply
    facts = check_then_lem (login_schema h body) zod_error _ λ _.
        then_lem (verify_client_credentials h body.client_id body.client_secret) _ λ client s1 e1.
          then_lem (read h (find_active_user client.id (to_lower body.email))) _ λ found s2 e2.
            option_from (password_of found)
              (λ _.
                then_lem (hash_password h "dummy-password-for-timing") _
                  λ _ s3 _. refused client s3)
              λ (user, hash) held.
                if_from (verify_password h hash body.password)
                  (λ ok.
                    then_lem (issue_session env h user.id user.email client req) _ λ session s3 _.
                      then_lem (audit h req (by_user client.id "user.login" user.id)) _ λ _ s4 _.
                        let (named, (_, _, presented), next) =
                          (credentials_sound h body.client_id body.client_secret s).0 client s1
                            e1 in
                        let (found_is, _, _) =
                          read_done h (find_active_user client.id (to_lower body.email)) s1 found s2
                            e2 in
                        let (is_found, hashed) = password_of_hash found user hash held in
                        pure_from _ (record {
                          client = client;
                          user = user;
                          hash = hash;
                          named = named;
                          presented = presented;
                          stored =
                              subst
                                (λ z.
                                  find_active_user client.id (to_lower body.email) (after h z).store
                                  ≡ some user)
                                next (sym found_is ∙ is_found);
                          hashed = hashed;
                          accepted = ok;
                          answered = refl;
                        }))
                  (λ _. refused client s2)

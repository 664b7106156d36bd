-- ===== src/Auth/Grants.antt =====
-- routes/auth.ts: what an answer of `POST /auth/refresh` with tokens entails.
use identity_platform.Prelude.{
  sym, ◌∙◌, ℕ, ◌+◌, true, Option, none, some, ◌≡◌, refl, arith, ltb, ◌||◌, subst, ap,
}
use identity_platform.Errors.{zod_error}
use identity_platform.Schema.{RefreshToken, Client, User, Store}
use identity_platform.Schema.Inserts.{NewRefreshToken}
use identity_platform.Exec.{
  ◌>>=◌, throw, Host, Env, Request, Reply, State, Exec, done, read, now, statement,
}
use identity_platform.Exec.Inversion.{
  From, then_lem, check_then_lem, statement_done, read_done, if_from, option_from, pure_from,
  throw_from,
}
use identity_platform.Token.{TokenPair}
use identity_platform.Session.{
  verify_client_credentials, find_active_client, Prepared, prepare_session,
}
use identity_platform.Session.Contents.{prepare_session_from}
use identity_platform.Session.Credentials.{after, IsPresented, credentials_sound}
use identity_platform.Auth.Rotation.{
  rotate_token, replace_successor, by_id, replaceable, replace, replace_unused_refresh_successor,
}
use identity_platform.Auth.Refresh.{
  RefreshBody, refresh_schema, by_hash, owner_in, invalid_refresh_token, is_replay, refuse_replay,
  present_dead, lost_rotation, present_live, present, refresh,
}

-- The last statement of the request: the transaction that put the new token in the place of the
-- presented one, or, within the grace period, of its unused successor.
pub data Commits (env : Env) (h : Host) (operation : ℕ) (t : RefreshToken) (u : User)
    (new : NewRefreshToken) (s' : State) : Type 0 where
  rotation :
      (m : State) (time : ℕ)
      → rotate_token t.id operation time new (h.clock m.step) (h.others m.step m.store)
        ≡ some (true, s'.store)
      → s'.step ≡ m.step + 1
      → Commits env h operation t u new s'
  retried :
      (m : State)
      → replace_successor env u.id t.id operation new (h.clock m.step) (h.others m.step m.store)
        ≡ some (true, s'.store)
      → s'.step ≡ m.step + 1
      → Commits env h operation t u new s'

-- The refresh token that was answered is the owner's new row, which was committed; the row keeps
-- the token's digest.
pub record IsRenewed (env : Env) (h : Host) (operation : ℕ) (t : RefreshToken) (u : User)
    (pair : TokenPair) (s' : State) : Type 0 where
  pub new : NewRefreshToken
  pub owner : new.user_id ≡ u.id
  pub hashed : new.token_hash ≡ h.sha256 pair.refresh_token
  pub commits : Commits env h operation t u new s'

module _ (env : Env) (h : Host) (req : Request) (client : Client) where
  renewed :
      (u : User) (t : RefreshToken) (operation : ℕ) (prepared : Prepared) (s s1 s' : State)
      → prepare_session env h u.id u.email client req s ≡ done prepared s1
      → Commits env h operation t u prepared.refresh_token_record s'
      → IsRenewed env h operation t u prepared.response s'
  renewed u t operation prepared s s1 s' e committed =
      let session = (prepare_session_from env h u.id u.email client req s).at prepared s1 e in
      record {
        new = prepared.refresh_token_record;
        owner = session.owner;
        hashed = session.hashed;
        commits = committed;
      }

  replaced_from :
      (u : User) (t : RefreshToken) (operation : ℕ) (s : State)
      → From s
          (replace_unused_refresh_successor env h req client u t.id operation)
          λ r s'. (pair : TokenPair) → r ≡ some pair → IsRenewed env h operation t u pair s'
  unfolding replace_unused_refresh_successor replace
  replaced_from u t operation s = then_lem (read h (by_id t.id)) _ λ candidate s1 _.
      then_lem (now h) _ λ time s2 _.
        option_from candidate (λ _. pure_from none λ pair e. absurd (cc))
          λ p _.
            option_from (replaceable env operation time p)
              (λ _. pure_from none λ pair e. absurd (cc))
              λ _ _. then_lem (prepare_session env h u.id u.email client req) _ λ prepared s3 e3.
                then_lem (statement h _) _ λ replaced s4 e4. pure_from _ λ pair e.
                  let (committed, next) = statement_done h _ s3 replaced s4 e4 in
                  let answered : prepared.response ≡ pair = ground arith in
                  subst (λ x. IsRenewed env h operation t u x s4) answered
                    (renewed u t operation prepared s2 s3 s4 e3 (retried s3 (ground arith) next))

  -- The answers with tokens.
  Answers : ℕ → RefreshToken → User → Reply TokenPair → State → Type 0
  Answers operation t u reply s' = IsRenewed env h operation t u reply.body s'

  no_answer :
      {A : Type 0} {s : State} {Q : A → State → Type 0} (t : RefreshToken)
      → (m : Exec (Unit {0})) → From s (m >>= λ _. throw invalid_refresh_token) Q
  no_answer t m = then_lem m _ λ _ _ _. throw_from invalid_refresh_token

  present_dead_from :
      (t : RefreshToken) (u : User) (operation : ℕ) (s : State)
      → From s
          (present_dead env h req client t (some u) operation)
          λ reply s'. (u.is_active ≡ true) × Answers operation t u reply s'
  unfolding present_dead refuse_replay Answers
  present_dead_from t u operation s =
      if_from (is_replay t)
        (λ _.
          if_from u.is_active
            (λ active.
              then_lem (replace_unused_refresh_successor env h req client u t.id operation) _
                λ replacement s1 e.
                  option_from replacement (λ _. no_answer t _)
                    λ pair found.
                      pure_from _
                        (active, (replaced_from u t operation s).at replacement s1 e pair found))
            (λ _. no_answer t _))
        (λ _. throw_from invalid_refresh_token)

  lost_rotation_from :
      (t : RefreshToken) (u : User) (operation : ℕ) (s : State)
      → From s (lost_rotation env h req client t u operation) (Answers operation t u)
  unfolding lost_rotation refuse_replay Answers
  lost_rotation_from t u operation s =
      then_lem (replace_unused_refresh_successor env h req client u t.id operation) _
        λ replacement s1 e.
          option_from replacement
            (λ _. then_lem (read h (by_id t.id)) _ λ latest s2 _.
              option_from latest (λ _. throw_from invalid_refresh_token)
                λ l _.
                  if_from (is_replay l) (λ _. no_answer t _)
                    (λ _. throw_from invalid_refresh_token))
            λ pair found.
              pure_from _ ((replaced_from u t operation s).at replacement s1 e pair found)

  present_live_from :
      (t : RefreshToken) (u : User) (operation : ℕ) (s : State)
      → From s (present_live env h req client t u operation) (Answers operation t u)
  unfolding present_live Answers
  present_live_from t u operation s =
      then_lem (prepare_session env h u.id u.email client req) _ λ prepared s1 e1.
        then_lem (now h) _ λ time s2 _. then_lem (statement h _) _ λ rotated s3 e3.
          if_from rotated
            (λ hit.
              let (committed, next) = statement_done h _ s2 rotated s3 e3 in
              pure_from _
                (renewed u t operation prepared s s1 s3 e1 (rotation s2 time (ground arith) next)))
            (λ _. lost_rotation_from t u operation s3)

  present_from :
      (t : RefreshToken) (owner : Option User) (operation time : ℕ) (s : State)
      → From s (present env h req client t owner operation time) λ reply s'.
        (u : User) × (owner ≡ some u) × (u.is_active ≡ true) × Answers operation t u reply s'
  unfolding present present_dead
  present_from t none operation time s =
      if_from (t.revoked || ltb t.expires_at time) (λ _. refused)
        (λ _. throw_from invalid_refresh_token)
    where
      refused :
          {Q : Reply TokenPair → State → Type 0}
          → From s (present_dead env h req client t none operation) Q
      refused = throw_from invalid_refresh_token
  present_from t (some u) operation time s =
      if_from (t.revoked || ltb t.expires_at time)
        (λ _. record {
          at = λ reply s' e.
              let (active, answers) = (present_dead_from t u operation s).at reply s' e in
              (u, refl, active, answers);
        })
        (λ _.
          if_from u.is_active
            (λ active. record {
              at = λ reply s' e.
                  (u, refl, active, (present_live_from t u operation s).at reply s' e);
            })
            (λ _. throw_from invalid_refresh_token))

-- Whose token was renewed, and for whom, as the store had it when the request read it.
pub record IsGranted (env : Env) (h : Host) (body : RefreshBody) (s : State)
    (reply : Reply TokenPair) (s' : State) : Type 0 where
  pub client : Client
  pub token : RefreshToken
  pub owner : User
  pub named : find_active_client body.client_id (after h s).store ≡ some client
  pub presented : IsPresented h body.client_secret client
  pub stored : by_hash (h.sha256 body.refresh_token) (after h (after h s)).store ≡ some token
  pub owned : owner_in token.user_id client.id (after h (after h (after h s))).store ≡ some owner
  pub active : owner.is_active ≡ true
  pub renewed : IsRenewed env h (h.sha256 body.operation_id) token owner reply.body s'

-- `POST /auth/refresh` answers with tokens only to an authenticated, active client, for a token that
-- is stored, whose owner is an active user of that client. Its last statement was then the
-- transaction that rotated that token, or that replaced the token's unused successor for the same
-- operation, and committed a row of the owner's with the digest of the answered token; whatever
-- other requests did meanwhile.
pub refresh_sound :
    (env : Env) (h : Host) (req : Request) (body : RefreshBody) (s : State)
    (reply : Reply TokenPair) (s' : State)
    → refresh env h req body s ≡ done reply s'
    → IsGranted env h body s reply s'
unfolding refresh Answers
refresh_sound env h req body s reply s' e = facts.at reply s' e
  where
    moved :
        {A : Type 0} (q : Store → A) (m : State) (a : A) (m' : State)
        → read h q m ≡ done a m'
        → m' ≡ after h m
    moved q m a m' e = let (_, st, next) = read_done h q m a m' e in ground arith

    facts : From s (refresh env h req body) (IsGranted env h body s)
    facts = check_then_lem (refresh_schema h body) zod_error _ λ _.
        then_lem (verify_client_credentials h body.client_id body.client_secret) _ λ client s1 e1.
          then_lem (read h (by_hash (h.sha256 body.refresh_token))) _ λ found s2 e2.
            option_from found (λ _. throw_from invalid_refresh_token)
              λ t hit. then_lem (read h (owner_in t.user_id client.id)) _ λ owner s3 e3.
                then_lem (now h) _ λ time s4 _. record {
                  at = λ reply s' e.
                      let (named, (_, _, presented), next) =
                        (credentials_sound h body.client_id body.client_secret s).0 client s1 e1 in
                      let next2 : s2 ≡ after h (after h s) =
                        moved _ s1 found s2 e2 ∙ ap (after h) next in
                      let (stored, _, _) = read_done h _ s1 found s2 e2 in
                      let (owned, _, _) = read_done h _ s2 owner s3 e3 in
                      let (u, is_u, active, renewed) =
                        (present_from env h req client t owner (h.sha256 body.operation_id) time
                            s4).at
                          reply s' e in
                      record {
                        client = client;
                        token = t;
                        owner = u;
                        named = named;
                        presented = presented;
                        stored =
                            subst
                              (λ z.
                                by_hash (h.sha256 body.refresh_token) (after h z).store ≡ some t)
                              next (sym stored ∙ hit);
                        owned =
                            subst (λ z. owner_in t.user_id client.id (after h z).store ≡ some u)
                              next2 (sym owned ∙ is_u);
                        active = active;
                        renewed = renewed;
                      };
                }

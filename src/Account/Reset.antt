-- ===== src/Account/Reset.antt =====
-- routes/account.ts: what `POST /auth/password/reset` has done when it answers.
use identity_platform.Prelude.{
  ℕ, ◌+◌, String, true, Option, some, List, [], ◌∷◌, ◌≡◌, refl, sym, ap, subst, ◌∙◌, arith, find,
  find_sound, and-eq-true, count, update, ◌==◌, ==_iff,
}
use identity_platform.Errors.{zod_error}
use identity_platform.Schema.{security, Purpose, password_reset, RefreshToken, Client, User, Store}
use identity_platform.Exec.{Host, alone, Request, Reply, State, done, read, write, now}
use identity_platform.Exec.Inversion.{
  From, then_lem, check_then_lem, or_throw_then_lem, pure_from, read_done, now_done, write_done,
  write_returning_done,
}
use identity_platform.Session.{verify_client_credentials, find_active_client}
use identity_platform.Session.Credentials.{IsPresented, after, credentials_sound}
use identity_platform.Audit.{AuditEvent, audit, by_user}
use identity_platform.Audit.Alone.{audit_from}
use identity_platform.Auth.Rotation.{is_live_of, revoke}
use identity_platform.Auth.Replay.{live_tokens_of}
use identity_platform.Auth.Password.{hash_password}
use identity_platform.AccountTokens.{
  find_usable, consume_account_token, resolve_account_token, use_token,
}
use identity_platform.AccountTokens.SingleUse.{IsSpent, use_token-IsSpent}
use identity_platform.Account.{
  ResetBody, reset_schema, active_user_of, update_user, revoke_every, invalid_token,
  consume_for_client, revoke_all_refresh_tokens, password_reset_completed,
}

-- The accounts that one request can see, with what consuming a token leaves.
pub record IsConsumed (h : Host) (token : String) (purpose : Purpose) (client_id : ℕ) (s : State)
    (user : User) (s' : State) : Type 0 where
  pub usable : find_usable (h.sha256 token) purpose (h.clock s.step) s.store ≡ some user.id
  pub owner : active_user_of user.id client_id s.store ≡ some user
  pub spent : IsSpent (h.sha256 token) purpose (h.clock (s.step + 1 + 1 + 1)) s'.store
  pub same_users : s'.store.users ≡ s.store.users
  pub same_tokens : s'.store.refresh_tokens ≡ s.store.refresh_tokens

module _ (h : Host) (token : String) (purpose : Purpose) where
  resolve_from :
      (s : State)
      → From s (resolve_account_token (alone h) token purpose) λ r s'.
        (r ≡ find_usable (h.sha256 token) purpose (h.clock s.step) s.store)
        × (s'.store ≡ s.store)
        × (s'.step ≡ s.step + 1 + 1)
  unfolding resolve_account_token
  resolve_from s = then_lem (now (alone h)) _ λ time s1 e1. record {
    at = λ r s' e.
        let (is_time, next) = now_done (alone h) s time s1 e1 in
        let (found, same, last) =
          read_done (alone h) (find_usable (h.sha256 token) purpose time) s1 r s' e in
        (
          found
              ∙ ap (λ z. find_usable (h.sha256 token) purpose z s1.store) is_time
              ∙ ap (λ (z : State). find_usable (h.sha256 token) purpose (h.clock s.step) z.store)
                  next,
          same ∙ ap (λ (z : State). z.store) next,
          last ∙ ap (λ (z : State). z.step + 1) next,
        );
  }

  consume_from :
      (s : State)
      → From s (consume_account_token (alone h) token purpose) λ r s'.
        (IsSpent (h.sha256 token) purpose (h.clock s.step) s'.store)
        × (s'.store.users ≡ s.store.users)
        × (s'.store.refresh_tokens ≡ s.store.refresh_tokens)
  unfolding consume_account_token now use_token
  consume_from s = record {
    at = λ r s' e.
        let t : State = record s { step = s.step + 1 } in
        let (used, _) =
          write_returning_done (alone h) (use_token (h.sha256 token) purpose (h.clock s.step)) t r
            s' e in
        (
          subst (IsSpent (h.sha256 token) purpose (h.clock s.step))
              (ap (λ (p : Option ℕ × Store). p.1) used)
              (use_token-IsSpent (h.sha256 token) purpose (h.clock s.step) s.store),
          ground arith,
          ground arith,
        );
  }

  consume_for_client_from :
      (client_id : ℕ) (error_code : String) (s : State)
      → From s
          (consume_for_client (alone h) token purpose client_id error_code)
          (IsConsumed h token purpose client_id s)
  unfolding consume_for_client
  consume_for_client_from client_id error_code s =
      then_lem (resolve_account_token (alone h) token purpose) _ λ resolved s1 e1.
        or_throw_then_lem resolved (invalid_token error_code) _ λ user_id is_id.
          then_lem (read (alone h) (active_user_of user_id client_id)) _ λ found s2 e2.
            or_throw_then_lem found (invalid_token error_code) _ λ user is_user.
              then_lem (consume_account_token (alone h) token purpose) _ λ consumed s3 e3.
                or_throw_then_lem consumed (invalid_token error_code) _ λ _ _.
                  let (id_found, same1, step1) = (resolve_from s).at resolved s1 e1 in
                  let (user_found, same2, step2) = read_done (alone h) _ s1 found s2 e2 in
                  let (spent, users, tokens) = (consume_from s2).at consumed s3 e3 in
                  let here : s2.store ≡ s.store = same2 ∙ same1 in
                  let owner : active_user_of user_id client_id s.store ≡ some user =
                    subst (λ z. active_user_of user_id client_id z ≡ some user) same1
                      (sym user_found ∙ is_user) in
                  let id : user.id ≡ user_id =
                    (==_iff _ _).0 (and-eq-true _ _ (find_sound _ s.store.users user owner)).0 in
                  pure_from user (record {
                    usable = sym id_found ∙ is_id ∙ ap some (sym id);
                    owner =
                        subst (λ z. active_user_of z client_id s.store ≡ some user) (sym id) owner;
                    spent =
                        subst (λ z. IsSpent (h.sha256 token) purpose (h.clock z) s3.store)
                          (step2 ∙ ap (λ z. z + 1) step1) spent;
                    same_users = users ∙ ap (λ (z : Store). z.users) here;
                    same_tokens = tokens ∙ ap (λ (z : Store). z.refresh_tokens) here;
                  })

pub revoke_every_none :
    (user_id : ℕ) (st : Store) → live_tokens_of user_id (revoke_every user_id st) ≡ 0
revoke_every_none user_id st = go st.refresh_tokens
  where
    go :
        (ts : List RefreshToken)
        → count (is_live_of user_id) (update (λ t. t.user_id == user_id) (revoke security) ts) ≡ 0
    go [] = refl
    go (t ∷ ts) = ground (arith, go ts)

-- What the answer stands for: the token was usable for a user of the client, and is so no more; the
-- user has the new password and no live session.
pub record IsReset (h : Host) (body : ResetBody) (s s' : State) : Type 0 where
  pub client : Client
  pub user : User
  pub named : find_active_client body.client_id s.store ≡ some client
  pub presented : IsPresented h body.client_secret client
  pub usable :
      find_usable (h.sha256 body.token) password_reset (h.clock (s.step + 1)) s.store ≡ some user.id
  pub owner : active_user_of user.id client.id s.store ≡ some user
  pub spent :
      IsSpent (h.sha256 body.token) password_reset (h.clock (s.step + 1 + 1 + 1 + 1)) s'.store
  pub ended : live_tokens_of user.id s'.store ≡ 0
  pub seed : ℕ
  pub changed :
      (found : User)
      → find (λ u. u.id == user.id) s'.store.users ≡ some found
      → found.password_hash ≡ some (h.argon2_hash seed body.new_password)

changed_password :
    (id time : ℕ) (hash : String) (us : List User) (found : User)
    → find
        (λ u. u.id == id)
        (update
          (λ u. u.id == id)
          (λ u. record u { password_hash = some hash; email_verified = true; updated_at = time })
          us)
      ≡ some found
    → found.password_hash ≡ some hash
changed_password id time hash [] found e = cc
changed_password id time hash (u ∷ us) found e =
    ground (arith, changed_password id time hash us found)

-- The new password is set, every session ended, and no account token touched.
record IsFinished (h : Host) (password : String) (user_id : ℕ) (s s' : State) : Type 0 where
  same : s'.store.account_tokens ≡ s.store.account_tokens
  ended : live_tokens_of user_id s'.store ≡ 0
  seed : ℕ
  changed :
      (found : User)
      → find (λ u. u.id == user_id) s'.store.users ≡ some found
      → found.password_hash ≡ some (h.argon2_hash seed password)

abbrev set_password : ℕ → String → ℕ → Store → Store
set_password id hash time st =
    update_user id
      (λ u. record u { password_hash = some hash; email_verified = true; updated_at = time }) st

finish_reset :
    (h : Host) (req : Request) (event : AuditEvent) (user_id : ℕ) (password hash : String)
    (time : ℕ) (s s4 s5 s6 s7 : State) (u5 u6 u7 : Unit {0})
    → (seed : ℕ) × (hash ≡ h.argon2_hash seed password)
    → s4.store ≡ s.store
    → write (alone h) (set_password user_id hash time) s4 ≡ done u5 s5
    → write (alone h) (revoke_every user_id) s5 ≡ done u6 s6
    → audit (alone h) req event s6 ≡ done u7 s7
    → IsFinished h password user_id s s7
finish_reset h req event user_id password hash time s s4 s5 s6 s7 u5 u6 u7 (seed, hashed) same4 e5
      e6 e7 =
    let at5 = write_done (alone h) (set_password user_id hash time) s4 u5 s5 e5 in
    let at6 = write_done (alone h) (revoke_every user_id) s5 u6 s6 e6 in
    let kept = (audit_from h req event s6).at u7 s7 e7 in
    let users : s7.store.users ≡ (set_password user_id hash time s4.store).users =
      kept.users ∙ ap (λ (z : Store). z.users) at6 ∙ ap (λ (z : Store). z.users) at5 in
    record {
      same =
          kept.account_tokens
          ∙ ap (λ (z : Store). z.account_tokens) at6
          ∙ ap (λ (z : Store). z.account_tokens) at5
          ∙ ap (λ (z : Store). z.account_tokens) same4;
      ended =
          ap (count (is_live_of user_id))
            (kept.refresh_tokens ∙ ap (λ (z : Store). z.refresh_tokens) at6)
          ∙ revoke_every_none user_id s5.store;
      seed = seed;
      changed = λ found e.
          changed_password user_id time hash s4.store.users found
            (sym (ap (find (λ u. u.id == user_id)) users) ∙ e)
          ∙ ap some hashed;
    }

hash_done :
    (h : Host) (password : String) (s : State) (hash : String) (s' : State)
    → hash_password (alone h) password s ≡ done hash s'
    → ((seed : ℕ) × (hash ≡ h.argon2_hash seed password)) × (s'.store ≡ s.store)
unfolding hash_password
hash_done h password s hash s' e = ((s.step, ground arith), ground arith)

-- `POST /auth/password/reset`, where it runs alone, answers only for a token that was usable, for
-- the purpose, of an active user of the authenticated client. It has then spent the token, set the
-- password that was sent, and ended every session of the user.
pub password_reset_completed_lem :
    (h : Host) (req : Request) (body : ResetBody) (s : State) (reply : Reply String) (s' : State)
    → password_reset_completed (alone h) req body s ≡ done reply s'
    → IsReset h body s s'
unfolding password_reset_completed revoke_all_refresh_tokens
password_reset_completed_lem h req body s reply s' e = facts.at reply s' e
  where
    completed : Client → User → AuditEvent
    completed client user = by_user client.id "password.reset_completed" user.id

    answered :
        (client : Client) (s1 : State)
        → verify_client_credentials (alone h) body.client_id body.client_secret s ≡ done client s1
        → (user : User) (s2 : State)
        → consume_for_client (alone h) body.token password_reset client.id "INVALID_RESET_TOKEN" s1
          ≡ done user s2
        → (s7 : State) → IsFinished h body.new_password user.id s2 s7
        → IsReset h body s s7
    answered client s1 e1 user s2 e2 s7 rest =
        let (named, (_, _, presented), next1) =
          (credentials_sound (alone h) body.client_id body.client_secret s).0 client s1 e1 in
        let consumed =
          (consume_for_client_from h body.token password_reset client.id "INVALID_RESET_TOKEN"
              s1).at
            user s2 e2 in
        let from1 : IsConsumed h body.token password_reset client.id (after (alone h) s) user s2 =
          subst (λ z. IsConsumed h body.token password_reset client.id z user s2) next1 consumed in
        record {
          client = client;
          user = user;
          named = named;
          presented = presented;
          usable = from1.usable;
          owner = from1.owner;
          spent = λ later below. rw rest.same (from1.spent later below);
          ended = rest.ended;
          seed = rest.seed;
          changed = rest.changed;
        }

    facts : From s (password_reset_completed (alone h) req body) λ _ s'. IsReset h body s s'
    facts = check_then_lem (reset_schema body) zod_error _ λ _.
        then_lem (verify_client_credentials (alone h) body.client_id body.client_secret) _
          λ client s1 e1.
            then_lem
              (consume_for_client (alone h) body.token password_reset client.id
                "INVALID_RESET_TOKEN")
              _
              λ user s2 e2. then_lem (hash_password (alone h) body.new_password) _ λ hash s3 e3.
                then_lem (now (alone h)) _ λ time s4 e4.
                  then_lem (write (alone h) (set_password user.id hash time)) _ λ u5 s5 e5.
                    then_lem (revoke_all_refresh_tokens (alone h) user.id) _ λ u6 s6 e6.
                      then_lem (audit (alone h) req (completed client user)) _ λ u7 s7 e7.
                        let (hashed, same3) = hash_done h body.new_password s2 hash s3 e3 in
                        let (_, next4) = now_done (alone h) s3 time s4 e4 in
                        let rest =
                          finish_reset h req (completed client user) user.id body.new_password hash
                            time s2 s4 s5 s6 s7 u5 u6 u7 hashed
                            (ap (λ (z : State). z.store) next4 ∙ same3) e5 e6 e7 in
                        pure_from _ (answered client s1 e1 user s2 e2 s7 rest)

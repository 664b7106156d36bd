-- ===== src/Verify/Authorized.antt =====
-- routes/verify.ts: what `POST /auth/verify` vouches for.
use identity_platform.Prelude.{
  arith, Bool-cases, inl, inr, subst, sym, ◌∙◌, ℕ, String, true, Option, none, some, ◌≡◌, refl,
  if◌then◌else◌, get_or, append, List, [], ◌⊎◌, ap, ◌+◌, false,
}
use identity_platform.Schema.{ApiKey, ServiceAccount, Store}
use identity_platform.Exec.{
  Host, Env, TokenClaims, State, Exec, done, pure, read, write, now, catch,
}
use identity_platform.Exec.Inversion.{
  From, then_lem, if_from, option_from, pure_from, catch_from, read_done,
}
use identity_platform.Session.{truthy}
use identity_platform.Permission.{has_scope, has_permission}
use identity_platform.Token.{verify_access_token}
use identity_platform.Token.Algorithms.{IsPinned, verify_access_token_sound}
use identity_platform.Authenticate.{
  has_expired, touch_key, find_active_account, service_account_permissions,
}
use identity_platform.Verify.{
  VerifyBody, Verdict, refused, unauthorized, user, api_key, permits, invalid_key, find_key_for,
  verify_token, account_of, grant_key, verify_key, verify,
}

-- What a key carries: its own scopes, or those of its active service account, which are read by two
-- statements from this step on.
abbrev pub HoldsGrants : Host → ApiKey → List String × Option (ℕ × String) → ℕ → Store → Type 0
HoldsGrants h k grants step st =
    ((k.service_account_id ≡ none) × (grants ≡ (get_or k.scopes [], none)))
    ⊎ ((id : ℕ) × (a : ServiceAccount) × (k.service_account_id ≡ some id)
        × (find_active_account id k.client_id (h.others step st) ≡ some a)
        × (grants ≡ (
          service_account_permissions a.id k.client_id (h.others (step + 1) (h.others step st)),
          some (a.id, a.name),
        )))

-- What an answer that authorizes stands for: the token that was sent, verified for the audience; or
-- the key that was sent, stored for the active audience, unexpired and with what it carries; and the
-- required permission.
abbrev pub IsAuthorized :
    Env → Host → String → Option String → Option String → Option String → State → Verdict → Type 0
IsAuthorized env h audience token sent required s (user c) =
    (text : String) × (token ≡ some text)
    × IsPinned env h text (some audience) (h.clock s.step) c
    × (permits required (has_permission c.permissions) ≡ true)
IsAuthorized env h audience token sent required s (api_key g) =
    (token ≡ none)
    × ((text : String) × (k : ApiKey) × (sent ≡ some text)
        × (find_key_for (h.sha256 text) audience (h.others s.step s.store) ≡ some k)
        × (has_expired k.expires_at (h.clock (s.step + 1)) ≡ false)
        × (g.client_id ≡ k.client_id)
        × HoldsGrants h k (g.scopes, g.service_account) (s.step + 1 + 1) (h.others s.step s.store)
        × (permits required (has_scope g.scopes) ≡ true))
IsAuthorized env h audience token sent required s _ = Unit {0}

now_done :
    (h : Host) (s : State) (time : ℕ) (s' : State)
    → now h s ≡ done time s'
    → (time ≡ h.clock s.step) × (s'.store ≡ s.store) × (s'.step ≡ s.step + 1)
unfolding now
now_done h s time s' e = (ground arith, ground arith, ground arith)

account_of_from :
    (env : Env) (h : Host) (k : ApiKey) (m : State)
    → From m (account_of env h k) λ grants _.
      (g : List String × Option (ℕ × String)) → grants ≡ some g → HoldsGrants h k g m.step m.store
unfolding account_of
account_of_from env h k m =
    option_from k.service_account_id (λ plain. pure_from _ λ g e. inl (plain, sym (cc e)))
      λ id owned. then_lem (read h (find_active_account id k.client_id)) _ λ account m1 e1.
        let (is_read, store1, step1) =
          read_done h (find_active_account id k.client_id) m account m1 e1 in
        option_from account (λ _. pure_from _ λ g e. absurd (cc))
          λ a is_a.
            then_lem (read h (service_account_permissions a.id k.client_id)) _ λ scopes m2 e2.
              let (scopes_read, _, _) =
                read_done h (service_account_permissions a.id k.client_id) m1 scopes m2 e2 in
              let held : scopes
                  ≡ service_account_permissions a.id k.client_id
                      (h.others (m.step + 1) (h.others m.step m.store)) =
                rw (store1, step1) at scopes_read in
              pure_from _ λ g e. inr (
                id,
                a,
                owned,
                sym is_read ∙ is_a,
                sym (cc e) ∙ ap (λ l. (l, some (a.id, a.name))) held,
              )

module _ (env : Env) (h : Host) (audience : String) (sent required : Option String) where
  verify_token_from :
      (text : String) (s : State)
      → From s
          (verify_token env h text audience required)
          λ v _. IsAuthorized env h audience (some text) sent required s v
  unfolding verify_token
  verify_token_from text s =
      catch_from _ _
        (then_lem (verify_access_token env h text (some audience)) _
          λ c s1 e1. judged c (verify_access_token_sound env h text (some audience) s c s1 e1))
        λ x t. pure_from _ tt
    where
      judged :
          (c : TokenClaims) {m : State}
          → IsPinned env h text (some audience) (h.clock s.step) c
          → From m
              (pure (
                if permits required (has_permission c.permissions)
                then user c
                else unauthorized (append "Missing permission: " (get_or required ""))))
              λ v _. IsAuthorized env h audience (some text) sent required s v
      judged c pinned = elim (Bool-cases (permits required (has_permission c.permissions))) [
        | inl ok ↦ pure_from _ (
            subst
              (λ b. IsAuthorized env h audience (some text) sent required s (
                if b
                then user c
                else unauthorized (append "Missing permission: " (get_or required ""))))
              (sym ok) (text, refl, pinned, ok))
        | inr missing ↦ pure_from _ (
            subst
              (λ b. IsAuthorized env h audience (some text) sent required s (
                if b
                then user c
                else unauthorized (append "Missing permission: " (get_or required ""))))
              (sym missing) tt)
      ]

  grant_key_from :
      (text : String) (k : ApiKey) (grants : List String × Option (ℕ × String)) (s m : State)
      → sent ≡ some text
      → find_key_for (h.sha256 text) audience (h.others s.step s.store) ≡ some k
      → has_expired k.expires_at (h.clock (s.step + 1)) ≡ false
      → HoldsGrants h k grants (s.step + 1 + 1) (h.others s.step s.store)
      → From m
          (grant_key env h k required grants)
          λ v _. IsAuthorized env h audience none sent required s v
  unfolding grant_key
  grant_key_from text k grants s m is_sent found live held =
      if_from (permits required (has_scope grants.0))
        (λ ok. then_lem (now h) _ λ time m1 _.
          then_lem (catch (write h (touch_key k.id time)) (λ _. pure tt)) _
            λ _ m2 _. pure_from _ (refl, (text, k, is_sent, found, live, refl, held, ok)))
        (λ _. pure_from _ tt)

  verify_key_from :
      (text : String) (s : State)
      → sent ≡ some text
      → From s
          (verify_key env h text audience required)
          λ v _. IsAuthorized env h audience none sent required s v
  unfolding verify_key
  verify_key_from text s is_sent =
      then_lem (read h (find_key_for (h.sha256 text) audience)) _ λ found s1 e1.
        then_lem (now h) _ λ time s2 e2.
          let (found_is, store1, step1) =
            read_done h (find_key_for (h.sha256 text) audience) s found s1 e1 in
          let (time_is, store2, step2) = now_done h s1 time s2 e2 in
          option_from found (λ _. pure_from invalid_key tt)
            λ k is_k.
              if_from (has_expired k.expires_at time) (λ _. pure_from invalid_key tt)
                λ live. then_lem (account_of env h k) _ λ grants s3 e3.
                  option_from grants (λ _. pure_from invalid_key tt)
                    λ g is_g.
                      let held = (account_of_from env h k s2).at grants s3 e3 g is_g in
                      grant_key_from text k g s s3 is_sent (sym found_is ∙ is_k)
                        (rw (time_is, step1) at live)
                        (subst (λ st. HoldsGrants h k g (s.step + 1 + 1) st) (store2 ∙ store1)
                          (subst (λ n. HoldsGrants h k g n s2.store) (step2 ∙ ap (λ n. n + 1) step1)
                            held))

-- `POST /auth/verify` calls a token authorized only if it verifies for the audience that was sent
-- and its permissions meet the required one; and it calls an API key authorized only if no token was
-- sent and the key that was sent is stored, unrevoked and unexpired, for the active client that is the
-- audience, and the scopes that are answered are the key's own or its active service account's and
-- meet the required one; whatever other requests do meanwhile.
pub verify_lem :
    (env : Env) (h : Host) (body : VerifyBody) (audience : String) (s : State) (v : Verdict)
    (s' : State)
    → truthy body.audience ≡ some audience
    → verify env h body s ≡ done v s'
    → IsAuthorized env h audience
        (truthy body.token)
        (truthy body.api_key)
        (truthy body.required_permission)
        s
        v
unfolding verify
verify_lem env h body audience s v s' sent e = facts.at v s' e audience sent
  where
    required : Option String
    required = truthy body.required_permission

    Vouches : Verdict → State → Type 0
    Vouches v _ =
        (a : String)
        → truthy body.audience ≡ some a
        → IsAuthorized env h a (truthy body.token) (truthy body.api_key) required s v

    for_audience :
        (a : String) (token : Option String) {m : Exec Verdict}
        → truthy body.audience ≡ some a
        → truthy body.token ≡ token
        → From s m (λ v _. IsAuthorized env h a token (truthy body.api_key) required s v)
        → From s m Vouches
    for_audience a token is_a is_token k = record {
      at = λ v s' e b is_b.
          subst (λ o. IsAuthorized env h b o (truthy body.api_key) required s v) (sym is_token)
            (subst (λ c. IsAuthorized env h c token (truthy body.api_key) required s v)
              (ground arith) (k.at v s' e));
    }

    facts : From s (verify env h body) Vouches
    facts =
        option_from (truthy body.audience)
          (λ _. pure_from (refused 400 "Provide the expected application audience") λ a is_a. tt)
          λ a is_a.
            option_from (truthy body.token)
              (λ no_token.
                option_from (truthy body.api_key)
                  (λ _.
                    pure_from (refused 400 "Provide either 'token' or 'apiKey' in request body")
                      λ b is_b. tt)
                  λ text is_text.
                    for_audience a none is_a no_token
                      (verify_key_from env h a (truthy body.api_key) required text s is_text))
              λ text is_text.
                for_audience a (some text) is_a is_text
                  (verify_token_from env h a (truthy body.api_key) required text s)

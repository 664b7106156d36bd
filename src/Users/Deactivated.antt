-- ===== src/Users/Deactivated.antt =====
-- routes/users.ts: what `PATCH /users/:id` does to a user and to the sessions.
use identity_platform.Prelude.{
  ℕ, ◌+◌, Bool, true, false, ◌&&◌, none, some, List, [], ◌∷◌, select, find, update, ◌==◌, ==_iff,
  ◌≡◌, ◌≢◌, refl, ap, ◌∙◌, arith, count, if◌then◌else◌, update-none, find-update,
}
use identity_platform.Errors.{not_found}
use identity_platform.Schema.{security, RefreshToken, User, Store}
use identity_platform.Exec.{
  Host, alone, Request, State, done, fail, statement, write, write_returning, now,
}
use identity_platform.Permission.{Principal}
use identity_platform.Audit.Alone.{SameAccounts, audit_runs}
use identity_platform.Auth.Rotation.{is_live_of, revoke}
use identity_platform.Auth.Replay.{live_tokens_of}
use identity_platform.Account.{revoke_every, revoke_all_refresh_tokens}
use identity_platform.Account.Reset.{revoke_every_none}
use identity_platform.Admin.{by_principal}
use identity_platform.Roles.{user_of_client}
use identity_platform.Users.{set_active, updated_user, update_user_for}

abbrev pub tokens_of : ℕ → Store → List RefreshToken
tokens_of user_id st = select (λ t. t.user_id == user_id) st.refresh_tokens

tokens_of-revoke_every :
    (user_id other : ℕ) (ts : List RefreshToken)
    → other ≢ user_id
    → select (λ t. t.user_id == other) (update (λ t. t.user_id == user_id) (revoke security) ts)
      ≡ select (λ t. t.user_id == other) ts
tokens_of-revoke_every user_id other [] ne = refl
tokens_of-revoke_every user_id other (t ∷ ts) ne = ground (
  arith,
  ==_iff t.user_id other,
  ==_iff t.user_id user_id,
  tokens_of-revoke_every user_id other ts ne,
)

module _ (h : Host) (req : Request) (principal : Principal) (c user_id : ℕ) where
  abbrev pub with_status : Bool → ℕ → User → User
  with_status active time u = record u { is_active = active; updated_at = time }

  missing_user :
      (active : Bool) (time : ℕ) (st : Store)
      → user_of_client user_id c st ≡ none
      → set_active user_id c active time st ≡ (none, st)
  unfolding set_active
  missing_user active time st missing =
      rw
        (
          update-none (λ (u : User). u.id == user_id && u.client_id == c) (with_status active time)
              st.users missing,
          missing,
        )
        refl

  found_user :
      (active : Bool) (time : ℕ) (st : Store) (u : User)
      → user_of_client user_id c st ≡ some u
      → (set_active user_id c active time st).0 ≡ some (with_status active time u)
  unfolding set_active
  found_user active time st u found =
      find-update (λ (u : User). u.id == user_id && u.client_id == c) (with_status active time)
        st.users u (λ v h. h) found

  -- The store when the user is updated, and the sessions with it.
  abbrev settled : Bool → ℕ → Store → Store
  settled active time st =
      if active
      then (set_active user_id c active time st).1
      else revoke_every user_id (set_active user_id c active time st).1

  update_runs :
      (active : Bool) (s : State) (u : User)
      → user_of_client user_id c s.store ≡ some u
      → (t : State) × (t.store ≡ settled active (h.clock s.step) s.store)
        × (s' : State) × (update_user_for (alone h) req principal c user_id active s
            ≡ done
                (record {
                  status = 200;
                  body = updated_user (with_status active (h.clock s.step) u);
                })
                s')
        × SameAccounts t.store s'.store
  unfolding update_user_for revoke_all_refresh_tokens now statement write write_returning
  update_runs true s u found =
      let t : State = record {
        store = settled true (h.clock s.step) s.store;
        step = s.step + 1 + 1;
      } in
      let (s', logged, same) =
        audit_runs h req (by_principal principal c "user.reactivated" user_id) t in
      (t, refl, s', rw (found_user true (h.clock s.step) s.store u found, logged) refl, same)
  update_runs false s u found =
      let t : State = record {
        store = settled false (h.clock s.step) s.store;
        step = s.step + 1 + 1 + 1;
      } in
      let (s', logged, same) =
        audit_runs h req (by_principal principal c "user.deactivated" user_id) t in
      (t, refl, s', rw (found_user false (h.clock s.step) s.store u found, logged) refl, same)

  settled_user :
      (active : Bool) (time : ℕ) (st : Store) (u : User)
      → user_of_client user_id c st ≡ some u
      → user_of_client user_id c (settled active time st) ≡ some (with_status active time u)
  unfolding set_active
  settled_user true time st u found = found_user true time st u found
  settled_user false time st u found = found_user false time st u found

  settled_tokens :
      (active : Bool) (time : ℕ) (st : Store)
      → (active ≡ true → (settled active time st).refresh_tokens ≡ st.refresh_tokens)
        × (active ≡ false → live_tokens_of user_id (settled active time st) ≡ 0)
        × ((other : ℕ)
            → other ≢ user_id
            → tokens_of other (settled active time st) ≡ tokens_of other st)
  unfolding set_active
  settled_tokens true time st = (λ e. refl, λ e. absurd (cc), λ other ne. refl)
  settled_tokens false time st = (
    λ e. absurd (cc),
    λ e. revoke_every_none user_id (set_active user_id c false time st).1,
    λ other ne. tokens_of-revoke_every user_id other st.refresh_tokens ne,
  )

  -- Alone, `PATCH /users/:id` of an id that is no user of the client is a 404 and changes nothing. For
  -- a user of the client it answers with the new status, which is then stored; a deactivated user has
  -- no live refresh token left, a reactivation changes no token, and the tokens of other users stay
  -- as they were.
  pub update_user_for_lem :
      (active : Bool) (s : State)
      → (user_of_client user_id c s.store ≡ none
          → (s' : State) × (update_user_for (alone h) req principal c user_id active s
              ≡ fail (not_found "User not found" none) s')
            × (s'.store ≡ s.store))
        × ((u : User)
            → user_of_client user_id c s.store ≡ some u
            → (s' : State) × (update_user_for (alone h) req principal c user_id active s
                ≡ done
                    (record {
                      status = 200;
                      body = updated_user (with_status active (h.clock s.step) u);
                    })
                    s')
              × (user_of_client user_id c s'.store ≡ some (with_status active (h.clock s.step) u))
              × (active ≡ true → s'.store.refresh_tokens ≡ s.store.refresh_tokens)
              × (active ≡ false → live_tokens_of user_id s'.store ≡ 0)
              × ((other : ℕ)
                  → other ≢ user_id
                  → tokens_of other s'.store ≡ tokens_of other s.store))
  unfolding update_user_for now statement write_returning
  update_user_for_lem active s = (
    λ missing. (
      record { store = s.store; step = s.step + 1 + 1 },
      rw (missing_user active (h.clock s.step) s.store missing) refl,
      refl,
    ),
    λ u found.
        let (t, is_settled, s', runs, same) = update_runs active s u found in
        let (kept, ended, others) = settled_tokens active (h.clock s.step) s.store in
        let tokens : s'.store.refresh_tokens
            ≡ (settled active (h.clock s.step) s.store).refresh_tokens =
          same.refresh_tokens ∙ ap (λ (z : Store). z.refresh_tokens) is_settled in
        (
          s',
          runs,
          ap (λ us. find (λ (u : User). u.id == user_id && u.client_id == c) us)
                (same.users ∙ ap (λ (z : Store). z.users) is_settled)
              ∙ settled_user active (h.clock s.step) s.store u found,
          λ e. tokens ∙ kept e,
          λ e. ap (count (is_live_of user_id)) tokens ∙ ended e,
          λ other ne. ap (select (λ t. t.user_id == other)) tokens ∙ others other ne,
        ),
  )

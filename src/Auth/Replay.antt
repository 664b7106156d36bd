-- ===== src/Auth/Replay.antt =====
-- routes/auth.ts: a rotated refresh token that comes back ends every session of its user.
use identity_platform.Prelude.{
  ◌∙◌, ℕ, ◌+◌, true, false, some, ◌≡◌, refl, List, [], ◌∷◌, count, update, arith, Bool-cases,
  is_some, Option-cases, inl, inr,
}
use identity_platform.Schema.{Reason, security, RefreshToken, Client, User, Store}
use identity_platform.Exec.{Host, alone, Env, Request, State, fail, read, now, write, statement}
use identity_platform.Audit.{by_user}
use identity_platform.Audit.Alone.{audit_runs}
use identity_platform.Session.Credentials.{accepted, verify_client_credentials_lem}
use identity_platform.Auth.Rotation.{
  is_live_of, revoke, revoke_live, by_id, same_operation, counts_as_rotated,
  replace_unused_refresh_successor, revoke_sessions_for_replay,
}
use identity_platform.Auth.Refresh.{
  RefreshBody, refresh_schema, by_hash, owner_in, invalid_refresh_token, refuse_replay,
  present_dead, present, refresh,
}

-- The live refresh tokens of a user.
abbrev pub live_tokens_of : ℕ → Store → ℕ
live_tokens_of user_id st = count (is_live_of user_id) st.refresh_tokens

pub revoke_all :
    (user_id : ℕ) (reason : Reason) (ts : List RefreshToken)
    → count (is_live_of user_id) (update (is_live_of user_id) (revoke reason) ts) ≡ 0
revoke_all user_id reason [] = refl
revoke_all user_id reason (t ∷ ts) = ground (arith, revoke_all user_id reason ts)

module _ (env : Env) (h : Host) (req : Request) (client : Client) where
  refuse_replay_runs :
      (t : RefreshToken) (s : State)
      → (s' : State) × (refuse_replay env (alone h) req client t s ≡ fail invalid_refresh_token s')
        × (live_tokens_of t.user_id s'.store ≡ 0)
  unfolding refuse_replay revoke_sessions_for_replay write
  refuse_replay_runs t s =
      let m : State = record {
        store = revoke_live t.user_id security s.store;
        step = s.step + 1;
      } in
      let (s', ran, same) =
        audit_runs h req (by_user client.id "session.replay_detected" t.user_id) m in
      (s', rw ran, rw same.refresh_tokens (revoke_all t.user_id security s.store.refresh_tokens))

-- The request presents a rotated token of a user of the authenticated client, by an operation other
-- than the one that rotated it.
pub record IsReplay (h : Host) (body : RefreshBody) (st : Store) (client : Client)
    (t : RefreshToken) : Type 0 where
  pub fits : refresh_schema h body ≡ true
  pub credentials : accepted h body.client_id body.client_secret st ≡ some client
  pub stored : by_hash (h.sha256 body.refresh_token) st ≡ some t
  pub same_row : by_id t.id st ≡ some t
  pub owned : is_some (owner_in t.user_id client.id st) ≡ true
  pub spent : t.revoked ≡ true
  pub rotated_away : counts_as_rotated t.revoked_reason ≡ true
  pub other_operation :
      same_operation t.rotation_operation_hash (h.sha256 body.operation_id) ≡ false

module _ (env : Env) (h : Host) (req : Request) (client : Client) (t : RefreshToken) where
  present_replayed :
      (u : User) (operation time : ℕ) (s : State)
      → by_id t.id s.store ≡ some t
      → t.revoked ≡ true
      → counts_as_rotated t.revoked_reason ≡ true
      → same_operation t.rotation_operation_hash operation ≡ false
      → (m : State) × (m.store ≡ s.store)
        × (present env (alone h) req client t (some u) operation time s
            ≡ refuse_replay env (alone h) req client t m)
  unfolding present present_dead replace_unused_refresh_successor read statement now
  present_replayed u operation time s row spent rotated_away other = elim (Bool-cases u.is_active) [
    | inl active ↦ (record { store = s.store; step = s.step + 1 + 1 }, refl, ground (arith, active))
    | inr inactive ↦ (s, refl, ground (arith, inactive))
  ]

-- A rotated refresh token that comes back by another operation is refused with the same 401 as an
-- unknown one, and ends every session of its user: no refresh token of theirs is live after it. The
-- request runs alone, and the database answers.
pub refresh-replay :
    (env : Env) (h : Host) (req : Request) (body : RefreshBody) (s : State) (client : Client)
    (t : RefreshToken)
    → IsReplay h body s.store client t
    → (s' : State) × (refresh env (alone h) req body s ≡ fail invalid_refresh_token s')
      × (live_tokens_of t.user_id s'.store ≡ 0)
unfolding refresh read statement now refresh_schema refuse_replay_runs
refresh-replay env h req body s client t w =
    let s1 : State = record { store = s.store; step = s.step + 1 } in
    let s3 : State = record { store = s.store; step = s.step + 1 + 1 + 1 + 1 } in
    elim (Option-cases (owner_in t.user_id client.id s.store)) [
      | inl missing ↦ absurd (cc (rw missing at w.owned))
      | inr (u, owned) ↦
          let (m, same, to_refusal) =
            present_replayed env h req client t u (h.sha256 body.operation_id)
              (h.clock (s.step + 1 + 1 + 1)) s3 w.same_row w.spent w.rotated_away
              w.other_operation in
          let (s', ran, none_live) = refuse_replay_runs env h req client t m in
          (
            s',
            rw
                (
                  w.fits,
                  verify_client_credentials_lem (alone h) body.client_id body.client_secret s,
                  w.credentials,
                  w.stored,
                  owned,
                )
                (to_refusal ∙ ran),
            none_live,
          )
    ]

-- ===== src/Auth/Guarantee.antt =====
-- routes/auth.ts: what `POST /auth/refresh` guarantees of the store, whatever becomes of it and
-- whatever other requests do meanwhile, follows from what its statements do.
use identity_platform.Prelude.{ℕ, Bool, ◌||◌, Option, none, some, ◌≡◌, ltb}
use identity_platform.Schema.{Reason, RefreshToken, Client, User, Store}
use identity_platform.Schema.Inserts.{NewRefreshToken, NewAuditLog, insert_audit_log}
use identity_platform.Exec.{Host, Env, Request}
use identity_platform.Exec.Guarantee.{
  Rely, Guarantees, pure_lem, throw_lem, check_lem, if_lem, option_lem, bind_lem, statement_lem,
  read_lem, write_lem, now_lem,
}
use identity_platform.Session.Guarantee.{credentials_lem, prepare_session_lem, audit_lem}
use identity_platform.Auth.Rotation.{
  replace_successor, rotate_token, revoke_live, replaceable, revoke_sessions_for_replay,
  replace_unused_refresh_successor,
}
use identity_platform.Auth.Refresh.{
  RefreshBody, is_replay, refuse_replay, present_dead, lost_rotation, present_live, present,
  refresh,
}

-- The statements that write, within the relation.
pub record Admits (R : Store → Store → Type 0) : Type 0 where
  pub audits :
      (a : NewAuditLog) (id time : ℕ) (st : Store) (x : Unit {0}) (st' : Store)
      → insert_audit_log a id time st ≡ some (x, st')
      → R st st'
  pub rotates :
      (id operation_hash time : ℕ) (new : NewRefreshToken) (insert_time : ℕ) (st : Store) (b : Bool)
      (st' : Store)
      → rotate_token id operation_hash time new insert_time st ≡ some (b, st')
      → R st st'
  pub replaces :
      (env : Env) (user_id id operation_hash : ℕ) (new : NewRefreshToken) (time : ℕ) (st : Store)
      (b : Bool) (st' : Store)
      → replace_successor env user_id id operation_hash new time st ≡ some (b, st')
      → R st st'
  pub revokes : (user_id : ℕ) (reason : Reason) (st : Store) → R st (revoke_live user_id reason st)

module _ {R : Store → Store → Type 0} {h : Host} (o : Rely R h) (w : Admits R) (env : Env)
    (req : Request) (client : Client) where
  revoke_sessions_for_replay_lem :
      (user_id : ℕ) → Guarantees R (revoke_sessions_for_replay env h req client.id user_id)
  unfolding revoke_sessions_for_replay
  revoke_sessions_for_replay_lem user_id =
      bind_lem o (write_lem o _ (w.revokes user_id _)) λ _. audit_lem o req _ w.audits

  replace_lem :
      (owner : User) (id operation_hash : ℕ)
      → Guarantees R (replace_unused_refresh_successor env h req client owner id operation_hash)
  unfolding replace_unused_refresh_successor
  replace_lem owner id operation_hash = bind_lem o (read_lem o _) λ candidate.
      bind_lem o (now_lem o) λ time. option_lem o candidate (pure_lem o none) λ t.
        option_lem o (replaceable env operation_hash time t) (pure_lem o none) λ _.
          bind_lem o (prepare_session_lem o env _ _ _ _) λ prepared.
            bind_lem o (statement_lem o _ λ d. w.replaces env owner.id id operation_hash _ d.time)
              λ _. pure_lem o _

  refuse_replay_lem : (stored : RefreshToken) → Guarantees R (refuse_replay env h req client stored)
  unfolding refuse_replay
  refuse_replay_lem stored =
      bind_lem o (revoke_sessions_for_replay_lem stored.user_id) λ _. throw_lem o _

  present_dead_lem :
      (stored : RefreshToken) (owner : Option User) (operation_hash : ℕ)
      → Guarantees R (present_dead env h req client stored owner operation_hash)
  unfolding present_dead
  present_dead_lem stored none operation_hash = throw_lem o _
  present_dead_lem stored (some owner) operation_hash =
      if_lem o (is_replay stored)
        (if_lem o owner.is_active
          (bind_lem o (replace_lem owner stored.id operation_hash)
            λ replacement. option_lem o replacement (refuse_replay_lem stored) λ pair. pure_lem o _)
          (refuse_replay_lem stored))
        (throw_lem o _)

  lost_rotation_lem :
      (stored : RefreshToken) (owner : User) (operation_hash : ℕ)
      → Guarantees R (lost_rotation env h req client stored owner operation_hash)
  unfolding lost_rotation
  lost_rotation_lem stored owner operation_hash =
      bind_lem o (replace_lem owner stored.id operation_hash) λ replacement.
        option_lem o replacement
          (bind_lem o (read_lem o _) λ latest.
            option_lem o latest (throw_lem o _)
              λ t. if_lem o (is_replay t) (refuse_replay_lem stored) (throw_lem o _))
          λ pair. pure_lem o _

  present_live_lem :
      (stored : RefreshToken) (owner : User) (operation_hash : ℕ)
      → Guarantees R (present_live env h req client stored owner operation_hash)
  unfolding present_live
  present_live_lem stored owner operation_hash =
      bind_lem o (prepare_session_lem o env _ _ _ _) λ prepared. bind_lem o (now_lem o) λ time.
        bind_lem o (statement_lem o _ λ d. w.rotates stored.id operation_hash time _ d.time)
          λ rotated. if_lem o rotated (pure_lem o _) (lost_rotation_lem stored owner operation_hash)

  present_lem :
      (stored : RefreshToken) (owner : Option User) (operation_hash time : ℕ)
      → Guarantees R (present env h req client stored owner operation_hash time)
  unfolding present
  present_lem stored owner operation_hash time =
      if_lem o (stored.revoked || ltb stored.expires_at time)
        (present_dead_lem stored owner operation_hash)
        (option_lem o owner (throw_lem o _)
          λ u. if_lem o u.is_active (present_live_lem stored u operation_hash) (throw_lem o _))

module _ {R : Store → Store → Type 0} {h : Host} (o : Rely R h) (w : Admits R) where
  pub refresh-Guarantees :
      (env : Env) (req : Request) (body : RefreshBody) → Guarantees R (refresh env h req body)
  unfolding refresh
  refresh-Guarantees env req body = bind_lem o (check_lem o _ _) λ _.
      bind_lem o (credentials_lem o _ _) λ client. bind_lem o (read_lem o _) λ found.
        option_lem o found (throw_lem o _) λ stored.
          bind_lem o (read_lem o _) λ owner.
            bind_lem o (now_lem o) λ time. present_lem o w env req client stored owner _ time

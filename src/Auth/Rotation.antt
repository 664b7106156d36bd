-- ===== src/Auth/Rotation.antt =====
-- routes/auth.ts: the statements on refresh tokens behind `POST /auth/refresh`: consuming a token,
-- replacing the unused successor of a rotated one, and revoking a family.
use identity_platform.Prelude.{
  ℕ, ◌+◌, ◌*◌, Bool, true, false, ◌&&◌, Option, none, some, List, find, update, any, ltb, leb, ◌==◌,
  if◌then◌else◌,
}
use identity_platform.Schema.{Reason, rotated, retry, security, RefreshToken, Client, User, Store}
use identity_platform.Schema.Inserts.{NewRefreshToken, insert_refresh_token}
use identity_platform.Exec.{
  Host, Env, Request, Exec, pure, statement, read, write, now, ◌>>=◌, ◌>>◌,
}
use identity_platform.Token.{TokenPair}
use identity_platform.Session.{prepare_session}
use identity_platform.Audit.{audit, by_user}

-- `(revokedReason ?? "rotated") === "rotated"`
abbrev pub counts_as_rotated : Option Reason → Bool
counts_as_rotated none = true
counts_as_rotated (some rotated) = true
counts_as_rotated (some _) = false

-- `!candidate.rotationOperationHash || !operationHashesMatch(…)`, negated.
abbrev pub same_operation : Option ℕ → ℕ → Bool
same_operation none operation_hash = false
same_operation (some hash) operation_hash = hash == operation_hash

-- `!rotatedAt || rotatedAt < now - grace`, negated. The sum stands for the source's difference,
-- which may be negative.
abbrev pub within_grace : Env → Option ℕ → ℕ → Bool
within_grace env none time = false
within_grace env (some at) time = leb time (at + env.refresh_retry_grace_seconds * 1000)

-- The condition of both checks of `replaceUnusedRefreshSuccessor`: the successor to replace.
abbrev pub replaceable : Env → ℕ → ℕ → RefreshToken → Option ℕ
replaceable env operation_hash time t =
    if t.revoked
      && (counts_as_rotated t.revoked_reason
          && (same_operation t.rotation_operation_hash operation_hash
              && within_grace env t.rotated_at time))
    then t.replaced_by_token_id
    else none

abbrev pub by_id : ℕ → Store → Option RefreshToken
by_id id st = find (λ t. t.id == id) st.refresh_tokens

abbrev pub set_tokens : List RefreshToken → Store → Store
set_tokens ts st = record st { refresh_tokens = ts }

-- UPDATE … SET revoked WHERE id, user and still live.
abbrev pub is_unused_successor : ℕ → ℕ → ℕ → RefreshToken → Bool
is_unused_successor id user_id time t =
    t.id == id
    && (t.user_id == user_id && ((if t.revoked then false else true) && ltb time t.expires_at))

abbrev pub revoke : Reason → RefreshToken → RefreshToken
revoke reason t = record t { revoked = true; revoked_reason = some reason }

abbrev pub option_map {ℓ κ} : {A : Type ℓ} {B : Type κ} → (A → B) → Option A → Option B
option_map f none = none
option_map f (some a) = some (f a)

-- The transaction from the locked predecessor on; `false` where it found nothing to replace.
unfoldable pub replace_successor :
    Env → ℕ → ℕ → ℕ → NewRefreshToken → ℕ → Store → Option (Bool × Store)
replace_successor env user_id predecessor_id operation_hash new time st =
    elim (by_id predecessor_id st) [
      | none ↦ some (false, st)
      | some predecessor ↦ elim (replaceable env operation_hash time predecessor) [
        | none ↦ some (false, st)
        | some successor_id ↦
            if any (is_unused_successor successor_id user_id time) st.refresh_tokens
            then elim (insert_refresh_token new time (
                set_tokens
                  (update (is_unused_successor successor_id user_id time) (revoke retry)
                    st.refresh_tokens)
                  st)) [
                    | none ↦ none
                    | some (_, st') ↦ some (
                      true,
                      set_tokens
                          (update (λ t. t.id == predecessor_id)
                            (λ t. record t { replaced_by_token_id = some new.id })
                            st'.refresh_tokens)
                          st',
                    )
                  ]
            else some (false, st)
      ]
    ]

-- UPDATE … SET revoked, the operation and the successor WHERE id, still live.
abbrev pub is_consumable : ℕ → ℕ → RefreshToken → Bool
is_consumable id time t =
    t.id == id && ((if t.revoked then false else true) && ltb time t.expires_at)

abbrev pub rotate : ℕ → ℕ → ℕ → RefreshToken → RefreshToken
rotate operation_hash time successor_id t = record t {
  revoked = true;
  revoked_reason = some rotated;
  rotation_operation_hash = some operation_hash;
  rotated_at = some time;
  replaced_by_token_id = some successor_id;
}

-- The transaction of a rotation: `time` is the `now` that the handler read before it.
unfoldable pub rotate_token : ℕ → ℕ → ℕ → NewRefreshToken → ℕ → Store → Option (Bool × Store)
rotate_token id operation_hash time new insert_time st =
    if any (is_consumable id time) st.refresh_tokens
    then elim (insert_refresh_token new insert_time (
        set_tokens
          (update (is_consumable id time) (rotate operation_hash time new.id) st.refresh_tokens)
          st)) [ none ↦ none | some (_, st') ↦ some (true, st') ]
    else some (false, st)

-- Every live token of the user is revoked.
abbrev pub is_live_of : ℕ → RefreshToken → Bool
is_live_of user_id t = t.user_id == user_id && (if t.revoked then false else true)

abbrev pub revoke_live : ℕ → Reason → Store → Store
revoke_live user_id reason st =
    set_tokens (update (is_live_of user_id) (revoke reason) st.refresh_tokens) st

module _ (env : Env) (h : Host) where
  unfoldable pub revoke_sessions_for_replay : Request → ℕ → ℕ → Exec (Unit {0})
  revoke_sessions_for_replay req client_id user_id = do
    write h (revoke_live user_id security)
    audit h req (by_user client_id "session.replay_detected" user_id)

  -- The rest, once the first look has found a token to replace.
  unfoldable pub replace : Request → Client → User → ℕ → ℕ → Exec (Option TokenPair)
  replace req client owner predecessor_id operation_hash = do
    prepared ← prepare_session env h owner.id owner.email client req
    replaced ← statement h (λ d.
        replace_successor env owner.id predecessor_id operation_hash prepared.refresh_token_record
          d.time)
    pure (if replaced then some prepared.response else none)

  unfoldable pub replace_unused_refresh_successor :
      Request → Client → User → ℕ → ℕ → Exec (Option TokenPair)
  unfolding replace
  replace_unused_refresh_successor req client owner predecessor_id operation_hash = do
    candidate ← read h (by_id predecessor_id)
    time ← now h
    elim candidate [
      | none ↦ pure none
      | some t ↦ elim (replaceable env operation_hash time t) [
        | none ↦ pure none
        | some _ ↦ replace req client owner predecessor_id operation_hash
      ]
    ]

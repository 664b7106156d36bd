-- ===== src/Auth/LiveTokens.antt =====
-- routes/auth.ts: how many refresh tokens are live, and that a refresh never makes more of them.
use identity_platform.Prelude.{
  ℕ, ◌≤◌, Bool, true, false, some, ◌≡◌, refl, List, [], ◌∷◌, ◌++◌, count, count-append,
  count-update-le, count-update-lt, update, any, ◌==◌, arith, if◌then◌else◌, inl, inr,
}
use identity_platform.Schema.{Reason, retry, RefreshToken, Store}
use identity_platform.Schema.Inserts.{
  NewRefreshToken, NewAuditLog, insert_audit_log, refresh_token_row,
}
use identity_platform.Exec.{Host, Env, Request, State, final}
use identity_platform.Exec.Guarantee.{Rely}
use identity_platform.Auth.Inversion.{rotate_token_cases, replace_successor_cases}
use native.Mathlib.Nat.{le_trans}
use identity_platform.Auth.Guarantee.{Admits, refresh-Guarantees}
use identity_platform.Auth.Rotation.{
  replace_successor, rotate_token, revoke_live, is_unused_successor, is_consumable, rotate, revoke,
  is_live_of,
}
use identity_platform.Auth.Refresh.{RefreshBody, refresh}

abbrev pub is_live : RefreshToken → Bool
is_live t = if t.revoked then false else true

-- The live refresh tokens of all users.
abbrev pub live_tokens : Store → ℕ
live_tokens st = count is_live st.refresh_tokens

abbrev pub NoMoreLive : Store → Store → Type 0
NoMoreLive a b = live_tokens b ≤ live_tokens a

audit-NoMoreLive :
    (a : NewAuditLog) (id time : ℕ) (st : Store) (x : Unit {0}) (st' : Store)
    → insert_audit_log a id time st ≡ some (x, st')
    → NoMoreLive st st'
unfolding insert_audit_log
audit-NoMoreLive a id time st x st' e =
    let tokens : st'.refresh_tokens ≡ st.refresh_tokens = ground arith in rw tokens (omega arith)

-- One live row after an update that took at least one away.
grown :
    (p : RefreshToken → Bool) (f : RefreshToken → RefreshToken) (new : NewRefreshToken) (time : ℕ)
    (ts : List RefreshToken)
    → ((t : RefreshToken) → p t ≡ true → (is_live t ≡ true) × (is_live (f t) ≡ false))
    → any p ts ≡ true
    → count is_live (update p f ts ++ refresh_token_row new time ∷ []) ≤ count is_live ts
grown p f new time ts takes hit = omega (
  arith,
  count-append is_live (update p f ts) (refresh_token_row new time ∷ []),
  count-update-lt is_live p f ts takes hit,
)

rotate-NoMoreLive :
    (id operation_hash time : ℕ) (new : NewRefreshToken) (insert_time : ℕ) (st : Store) (b : Bool)
    (st' : Store)
    → rotate_token id operation_hash time new insert_time st ≡ some (b, st')
    → NoMoreLive st st'
rotate-NoMoreLive id operation_hash time new insert_time st b st' e =
    elim (rotate_token_cases id operation_hash time new insert_time st b st' e) [
      | inl (_, same, _) ↦ rw same (omega arith)
      | inr (_, hit, _, after) ↦ rw after (
          grown (is_consumable id time) (rotate operation_hash time new.id) new insert_time
            st.refresh_tokens (λ t h. (ground arith, refl)) hit)
    ]

replace-NoMoreLive :
    (env : Env) (user_id id operation_hash : ℕ) (new : NewRefreshToken) (time : ℕ) (st : Store)
    (b : Bool) (st' : Store)
    → replace_successor env user_id id operation_hash new time st ≡ some (b, st')
    → NoMoreLive st st'
replace-NoMoreLive env user_id id operation_hash new time st b st' e =
    elim (replace_successor_cases env user_id id operation_hash new time st b st' e) [
      | inl (_, same) ↦ rw same (omega arith)
      | inr (_, (_, s, _, _, hit, _, after)) ↦
          let unused = is_unused_successor s user_id time in
          rw after (
            le_trans
              (count-update-le is_live (λ t. t.id == id)
                (λ t. record t { replaced_by_token_id = some new.id }) _ (λ t _ live. live))
              (grown unused (revoke retry) new time st.refresh_tokens (λ t h. (ground arith, refl))
                hit))
    ]

revoke-NoMoreLive :
    (user_id : ℕ) (reason : Reason) (st : Store) → NoMoreLive st (revoke_live user_id reason st)
revoke-NoMoreLive user_id reason st =
    count-update-le is_live (is_live_of user_id) (revoke reason) st.refresh_tokens λ t h dead. (cc)

Admits-NoMoreLive : Admits NoMoreLive
Admits-NoMoreLive = record {
  audits = audit-NoMoreLive;
  rotates = rotate-NoMoreLive;
  replaces = replace-NoMoreLive;
  revokes = revoke-NoMoreLive;
}

-- However `POST /auth/refresh` ends, with an answer, an error, or a lost database connection
-- between any two of its statements, and whatever other requests do in between as long as they
-- create no live refresh token themselves: the platform has no more live refresh tokens after it
-- than before.
pub refresh-live_tokens :
    (env : Env) (h : Host) (req : Request) (body : RefreshBody) (s : State)
    → ((k : ℕ) (st : Store) → live_tokens (h.others k st) ≤ live_tokens st)
    → live_tokens (final (refresh env h req body s)).store ≤ live_tokens s.store
refresh-live_tokens env h req body s others =
    (refresh-Guarantees rely Admits-NoMoreLive env req body).at s
  where
    rely : Rely NoMoreLive h
    rely = record { same = λ st. omega arith; trans = λ a b c x y. le_trans y x; others = others }

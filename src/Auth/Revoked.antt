-- ===== src/Auth/Revoked.antt =====
-- routes/auth.ts: a refresh token that is revoked never comes back to life.
use identity_platform.Prelude.{
  ℕ, Bool, true, false, ◌&&◌, ◌||◌, some, ◌≡◌, refl, sym, subst, ◌∙◌, arith, List, [], ◌∷◌, ◌++◌,
  any, count, update, count-append, count-update-le, ◌==◌, ==_iff, if◌then◌else◌, inl, inr,
}
use identity_platform.Schema.{Reason, retry, RefreshToken, Store}
use identity_platform.Schema.Inserts.{
  NewRefreshToken, NewAuditLog, insert_audit_log, refresh_token_row,
}
use identity_platform.Exec.{Host, Env, Request, State, final}
use identity_platform.Exec.Guarantee.{Rely}
use identity_platform.Auth.Inversion.{rotate_token_cases, replace_successor_cases}
use identity_platform.Auth.Guarantee.{Admits, refresh-Guarantees}
use identity_platform.Auth.Rotation.{
  replace_successor, rotate_token, revoke_live, is_unused_successor, is_consumable, rotate, revoke,
  is_live_of,
}
use identity_platform.Auth.Refresh.{RefreshBody, refresh}

abbrev pub is_live_with : ℕ → RefreshToken → Bool
is_live_with hash t = t.token_hash == hash && (if t.revoked then false else true)

-- A token with the digest is among the rows, and each that is has been revoked.
abbrev pub AllRevoked : ℕ → List RefreshToken → Type 0
AllRevoked hash ts =
    (any (λ t. t.token_hash == hash) ts ≡ true) × (count (is_live_with hash) ts ≡ 0)

abbrev pub IsRevoked : ℕ → Store → Type 0
IsRevoked hash st = AllRevoked hash st.refresh_tokens

abbrev pub KeepsRevoked : Store → Store → Type 0
KeepsRevoked a b = (hash : ℕ) → IsRevoked hash a → IsRevoked hash b

module _ (hash : ℕ) where
  any-update :
      (p : RefreshToken → Bool) (f : RefreshToken → RefreshToken) (ts : List RefreshToken)
      → ((t : RefreshToken) → (f t).token_hash ≡ t.token_hash)
      → any (λ t. t.token_hash == hash) (update p f ts) ≡ any (λ t. t.token_hash == hash) ts
  any-update p f [] same = refl
  any-update p f (t ∷ ts) same = ground (arith, same t, any-update p f ts same)

  updated :
      (p : RefreshToken → Bool) (f : RefreshToken → RefreshToken) (ts : List RefreshToken)
      → ((t : RefreshToken) → (f t).token_hash ≡ t.token_hash)
      → ((t : RefreshToken)
          → p t ≡ true
          → is_live_with hash (f t) ≡ true
          → is_live_with hash t ≡ true)
      → AllRevoked hash ts
      → AllRevoked hash (update p f ts)
  updated p f ts same keeps (there, none_live) = (
    any-update p f ts same ∙ there,
    omega (arith, none_live, count-update-le (is_live_with hash) p f ts keeps),
  )

  any-append :
      (ts us : List RefreshToken)
      → any (λ t. t.token_hash == hash) ts ≡ true
      → any (λ t. t.token_hash == hash) (ts ++ us) ≡ true
  any-append [] us h = cc
  any-append (t ∷ ts) us h = ground (arith, any-append ts us)

  other_hash :
      (id new : ℕ) (ts : List RefreshToken)
      → any (λ r. r.id == id || r.token_hash == new) ts ≡ false
      → any (λ t. t.token_hash == hash) ts ≡ true
      → (new == hash) ≡ false
  other_hash id new [] unused there = cc
  other_hash id new (t ∷ ts) unused there =
      ground (arith, ==_iff t.token_hash hash, ==_iff new hash, other_hash id new ts)

  appended :
      (new : NewRefreshToken) (time : ℕ) (ts : List RefreshToken)
      → any (λ r. r.id == new.id || r.token_hash == new.token_hash) ts ≡ false
      → AllRevoked hash ts
      → AllRevoked hash (ts ++ refresh_token_row new time ∷ [])
  appended new time ts unused (there, none_live) =
      let other = other_hash new.id new.token_hash ts unused there in
      (
        any-append ts _ there,
        ground (
          arith,
          other,
          none_live,
          count-append (is_live_with hash) ts (refresh_token_row new time ∷ []),
        ),
      )

audit-KeepsRevoked :
    (a : NewAuditLog) (id time : ℕ) (st : Store) (x : Unit {0}) (st' : Store)
    → insert_audit_log a id time st ≡ some (x, st')
    → KeepsRevoked st st'
unfolding insert_audit_log
audit-KeepsRevoked a id time st x st' e hash dead =
    let tokens : st'.refresh_tokens ≡ st.refresh_tokens = ground arith in
    subst (AllRevoked hash) (sym tokens) dead

rotate-KeepsRevoked :
    (id operation_hash time : ℕ) (new : NewRefreshToken) (insert_time : ℕ) (st : Store) (b : Bool)
    (st' : Store)
    → rotate_token id operation_hash time new insert_time st ≡ some (b, st')
    → KeepsRevoked st st'
rotate-KeepsRevoked id operation_hash time new insert_time st b st' e hash dead =
    elim (rotate_token_cases id operation_hash time new insert_time st b st' e) [
      | inl (_, same, _) ↦ subst (IsRevoked hash) (sym same) dead
      | inr (_, _, unused, after) ↦ subst (IsRevoked hash) (sym after) (
          appended hash new insert_time _ unused (
            updated hash (is_consumable id time) (rotate operation_hash time new.id)
              st.refresh_tokens (λ t. refl) (λ t h live. absurd (ground arith)) dead))
    ]

replace-KeepsRevoked :
    (env : Env) (user_id id operation_hash : ℕ) (new : NewRefreshToken) (time : ℕ) (st : Store)
    (b : Bool) (st' : Store)
    → replace_successor env user_id id operation_hash new time st ≡ some (b, st')
    → KeepsRevoked st st'
replace-KeepsRevoked env user_id id operation_hash new time st b st' e hash dead =
    elim (replace_successor_cases env user_id id operation_hash new time st b st' e) [
      | inl (_, same) ↦ subst (IsRevoked hash) (sym same) dead
      | inr (_, (_, s, _, _, _, unused, after)) ↦ subst (IsRevoked hash) (sym after) (
          updated hash (λ t. t.id == id) (λ t. record t { replaced_by_token_id = some new.id }) _
            (λ t. refl) (λ t h live. live)
            (appended hash new time _ unused (
              updated hash (is_unused_successor s user_id time) (revoke retry) st.refresh_tokens
                (λ t. refl) (λ t h live. absurd (ground arith)) dead)))
    ]

revoke-KeepsRevoked :
    (user_id : ℕ) (reason : Reason) (st : Store) → KeepsRevoked st (revoke_live user_id reason st)
revoke-KeepsRevoked user_id reason st hash =
    updated hash (is_live_of user_id) (revoke reason) st.refresh_tokens (λ t. refl)
      λ t h live. absurd (ground arith)

-- A revoked refresh token stays revoked through every `POST /auth/refresh`, however the request ends
-- and whatever other requests do in between, as long as they neither revive nor delete one themselves:
-- no new session gets the digest of an old one, and no row is made live again.
pub refresh-IsRevoked :
    (env : Env) (h : Host) (req : Request) (body : RefreshBody) (s : State)
    → ((k : ℕ) (st : Store) → KeepsRevoked st (h.others k st))
    → (hash : ℕ) → IsRevoked hash s.store
    → IsRevoked hash (final (refresh env h req body s)).store
refresh-IsRevoked env h req body s others = (refresh-Guarantees rely admits env req body).at s
  where
    rely : Rely KeepsRevoked h
    rely = record {
      same = λ st hash dead. dead;
      trans = λ a b c x y hash dead. y hash (x hash dead);
      others = others;
    }

    admits : Admits KeepsRevoked
    admits = record {
      audits = audit-KeepsRevoked;
      rotates = rotate-KeepsRevoked;
      replaces = replace-KeepsRevoked;
      revokes = revoke-KeepsRevoked;
    }

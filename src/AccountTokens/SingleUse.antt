-- ===== src/AccountTokens/SingleUse.antt =====
-- services/accountToken.ts: a token works once, for its own purpose, and only until it expires.
use identity_platform.Prelude.{
  ℕ, ◌≤◌, Bool, true, false, Option, none, some, ◌≡◌, refl, ◌≢◌, ◌⊎◌, inl, inr, List, [], ◌∷◌, find,
  and-eq-true, ◌==◌, ==_iff, update, arith, String, subst, ap, ◌+◌,
}
use identity_platform.Schema.{Purpose, password_reset, email_verify, AccountToken, Store}
use identity_platform.Exec.{Host, State, done}
use identity_platform.Exec.{now}
use identity_platform.Exec.Inversion.{write_returning_done}
use identity_platform.AccountTokens.{
  is_usable, same_purpose, find_usable, use_token, consume_account_token,
}

find_used :
    (hash : ℕ) (purpose : Purpose) (time later : ℕ) (ts : List AccountToken)
    → time ≤ later
    → find
        (is_usable hash purpose later)
        (update (is_usable hash purpose time) (λ t. record t { used_at = some time }) ts)
      ≡ none
find_used hash purpose time later [] h = refl
find_used hash purpose time later (t ∷ ts) h =
    ground (arith, find_used hash purpose time later ts h)

abbrev owner_of : Option AccountToken → Option ℕ
owner_of none = none
owner_of (some t) = some t.user_id

-- No later query finds the token usable for the purpose.
abbrev pub IsSpent : ℕ → Purpose → ℕ → Store → Type 0
IsSpent hash purpose time st = (later : ℕ) → time ≤ later → find_usable hash purpose later st ≡ none

pub use_token-IsSpent :
    (hash : ℕ) (purpose : Purpose) (time : ℕ) (st : Store)
    → IsSpent hash purpose time (use_token hash purpose time st).1
unfolding use_token
use_token-IsSpent hash purpose time st later h =
    rw (find_used hash purpose time later st.account_tokens h, find_usable)

-- Once `consumeAccountToken` has been answered, whether it found the token or not, no later call
-- of `consumeAccountToken` or `resolveAccountToken` with the token and the purpose finds it, on any
-- store whose account tokens are those that the call left.
pub consume_account_token_once :
    (h : Host) (token : String) (purpose : Purpose) (s : State) (r : Option ℕ) (s' : State)
    → consume_account_token h token purpose s ≡ done r s'
    → IsSpent (h.sha256 token) purpose (h.clock s.step) s'.store
unfolding consume_account_token now
consume_account_token_once h token purpose s r s' e =
    let t : State = record s { step = s.step + 1 } in
    let (used, _) =
      write_returning_done h (use_token (h.sha256 token) purpose (h.clock s.step)) t r s' e in
    subst (IsSpent (h.sha256 token) purpose (h.clock s.step))
      (ap (λ (p : Option ℕ × Store). p.1) used)
      (use_token-IsSpent (h.sha256 token) purpose (h.clock s.step) (h.others t.step t.store))

same_purpose_disjoint :
    (a b c : Purpose)
    → same_purpose b c ≡ false
    → same_purpose a b ≡ true
    → same_purpose a c ≡ false
same_purpose_disjoint password_reset password_reset password_reset e h = cc
same_purpose_disjoint password_reset password_reset email_verify e h = refl
same_purpose_disjoint email_verify email_verify email_verify e h = cc
same_purpose_disjoint email_verify email_verify password_reset e h = refl
same_purpose_disjoint email_verify password_reset c e h = cc
same_purpose_disjoint password_reset email_verify c e h = cc

usable_disjoint :
    (hash hash' : ℕ) (purpose purpose' : Purpose) (time later : ℕ) (t : AccountToken)
    → (hash' ≢ hash) ⊎ (same_purpose purpose purpose' ≡ false)
    → is_usable hash purpose time t ≡ true
    → (is_usable hash' purpose' later t ≡ false)
      × (is_usable hash' purpose' later (record t { used_at = some time }) ≡ false)
usable_disjoint hash hash' purpose purpose' time later t other h =
    let (e, rest) = and-eq-true (t.token_hash == hash) _ h in
    let (p, _) = and-eq-true (same_purpose t.purpose purpose) _ rest in
    elim other [
      | inl ne ↦
          let miss : (t.token_hash == hash') ≡ false = ground (arith, (==_iff _ _).0 e) in
          (rw miss, rw miss)
      | inr ne ↦
          let miss = same_purpose_disjoint t.purpose purpose purpose' ne p in
          (ground (arith, miss), ground (arith, miss))
    ]

module _ (p q : AccountToken → Bool) (f : AccountToken → AccountToken)
    (apart : (t : AccountToken) → p t ≡ true → (q t ≡ false) × (q (f t) ≡ false)) where
  find-update_apart : (ts : List AccountToken) → find q (update p f ts) ≡ find q ts
  find-update_apart [] = refl
  find-update_apart (t ∷ ts) = ground (arith, apart t, find-update_apart ts)

-- Consuming a token for a purpose leaves every other token usable as before, and the same text for
-- the other purpose too: a token that was mailed to verify an address resets no password.
use_token-other :
    (hash hash' : ℕ) (purpose purpose' : Purpose) (time later : ℕ) (st : Store)
    → (hash' ≢ hash) ⊎ (same_purpose purpose purpose' ≡ false)
    → find_usable hash' purpose' later (use_token hash purpose time st).1
      ≡ find_usable hash' purpose' later st
unfolding use_token
use_token-other hash hash' purpose purpose' time later st other = ap owner_of (
    find-update_apart (is_usable hash purpose time) (is_usable hash' purpose' later)
      (λ t. record t { used_at = some time })
      (λ t. usable_disjoint hash hash' purpose purpose' time later t other) st.account_tokens)

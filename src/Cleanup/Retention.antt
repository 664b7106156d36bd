-- ===== src/Cleanup/Retention.antt =====
-- jobs/cleanup.ts: what the daily run removes.
use identity_platform.Prelude.{
  ℕ, ◌+◌, ◌*◌, Bool, true, false, ◌≡◌, refl, List, [], ◌∷◌, count, length, select, arith, find,
  if◌then◌else◌, ap, sym, ltb,
}
use identity_platform.Schema.{RefreshToken, Store}
use identity_platform.Exec.{Host, Env, State, done, now}
use identity_platform.Exec.Inversion.{write_returning_done}
use identity_platform.Cleanup.{delete_where, delete_refresh_tokens, cleanup_expired_refresh_tokens}

module _ {ℓ} {A : Type ℓ} (p : A → Bool) where
  count-select_not :
      (xs : List A) → count p xs + length (select (λ r. if p r then false else true) xs) ≡ length xs
  count-select_not [] = omega arith
  count-select_not (x ∷ xs) = ground (arith, count-select_not xs)

  find-select_not :
      (q : A → Bool) (xs : List A)
      → ((x : A) → q x ≡ true → p x ≡ false)
      → find q (select (λ r. if p r then false else true) xs) ≡ find q xs
  find-select_not q [] apart = refl
  find-select_not q (x ∷ xs) apart = ground (arith, apart x, find-select_not q xs apart)

-- The days after which the source promises the removal.
abbrev pub thirty_days_ago : ℕ → RefreshToken → Bool
thirty_days_ago time t = ltb (t.expires_at + 30 * 24 * 60 * 60 * 1000) time

count-select_not_self :
    {A : Type 0} (p : A → Bool) (xs : List A)
    → count p (select (λ r. if p r then false else true) xs) ≡ 0
count-select_not_self p [] = refl
count-select_not_self p (x ∷ xs) = ground (arith, count-select_not_self p xs)

-- The daily run removes the refresh tokens that expired more than thirty days ago, all of them, and
-- reports how many; it removes no other: whatever a search for a row that expired no longer ago than
-- that found before (replay detection searches for revoked rows), it finds after.
pub cleanup-keeps :
    (env : Env) (h : Host) (s : State) (n : ℕ) (s' : State)
    → cleanup_expired_refresh_tokens env h s ≡ done n s'
    → let before = (h.others (s.step + 1) s.store).refresh_tokens in
      let after = s'.store.refresh_tokens in
      (n ≡ count (thirty_days_ago (h.clock s.step)) before)
      × (count (thirty_days_ago (h.clock s.step)) after ≡ 0)
      × (n + length after ≡ length before)
      × ((q : RefreshToken → Bool)
          → ((t : RefreshToken) → q t ≡ true → thirty_days_ago (h.clock s.step) t ≡ false)
          → find q after ≡ find q before)
unfolding cleanup_expired_refresh_tokens now delete_where
cleanup-keeps env h s n s' e =
    let time = h.clock s.step in
    let before = (h.others (s.step + 1) s.store).refresh_tokens in
    let (deleted, _) =
      write_returning_done h (delete_refresh_tokens time) (record s { step = s.step + 1 }) n s' e in
    let p : RefreshToken → Bool = thirty_days_ago time in
    let removed : n ≡ count p before = ap (λ (r : ℕ × Store). r.0) (sym deleted) in
    let rest : s'.store.refresh_tokens ≡ select (λ t. if p t then false else true) before =
      ap (λ (r : ℕ × Store). r.1.refresh_tokens) (sym deleted) in
    (
      removed,
      rw rest (count-select_not_self p before),
      rw (removed, rest) (count-select_not p before),
      λ q recent. rw rest (find-select_not p q before recent),
    )

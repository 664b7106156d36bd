-- ===== src/RateLimit/Window.antt =====
-- middleware/rateLimit.ts: how many requests pass in a window, and what happens without Redis.
use identity_platform.Prelude.{
  ℕ, suc, ◌+◌, ◌-◌, ◌*◌, ◌<◌, Bool, true, false, none, some, ◌≡◌, refl, sym, List, [], ◌∷◌, length,
  count, leb, eq_refl, arith, String, ap, All, lt→ltb, append, Option, if◌then◌else◌, Bool-cases,
  Option-cases, inl, inr, ◌↔◌, ◌∙◌, ◌≤◌,
}
use Prim.Native.Nat.{min}
use identity_platform.Errors.{Failure, error_handler}
use identity_platform.Schema.{Counter, Store}
use identity_platform.Exec.{Host, alone, State, Outcome, final, done, fail, statement}
use identity_platform.RateLimit.{
  RateLimitConfig, live_counter, next_counter, hit_counter, rate_limit, rate_limit_exceeded,
  ceil_seconds,
}

-- The host of a request that comes alone at a time.
abbrev pub at_time : Host → ℕ → Host
at_time h time = record (alone h) { clock = λ _. time }

abbrev refusal : Outcome (Unit {0}) → Option Failure
refusal (done u s) = none
refusal (fail e s) = some e

-- What `rateLimit` does to requests of one key at the given times, one after the other.
abbrev pub verdicts : Host → RateLimitConfig → String → List ℕ → State → List (Option Failure)
verdicts h config key [] s = []
verdicts h config key (time ∷ times) s =
    refusal (rate_limit (at_time h time) config key s)
    ∷ verdicts h config key times (final (rate_limit (at_time h time) config key s))

-- The n-th request of a window passes if n is at most the limit, and meets the 429 otherwise.
abbrev pub numbered : ℕ → ℕ → List ℕ → List (Option Failure)
numbered most already [] = []
numbered most already (time ∷ times) =
    (if leb (already + 1) most then none else some rate_limit_exceeded)
    ∷ numbered most (already + 1) times

abbrev pub passes : Option Failure → Bool
passes none = true
passes (some e) = false

-- The key in Redis.
abbrev pub full_key : RateLimitConfig → String → String
full_key config key = append config.key_prefix (append ":" key)

-- The counter of the window until it expires.
abbrev InWindow : String → ℕ → ℕ → Store → Type 0
InWindow key n e st =
    (t : ℕ) → t < e → live_counter key t st ≡ some (record { key = key; count = n; expires_at = e })

hit-InWindow :
    (key : String) (window_sec time n e : ℕ) (st : Store)
    → time < e
    → InWindow key n e st
    → ((hit_counter key window_sec time st).0.0 ≡ n + 1)
      × InWindow key (n + 1) e (hit_counter key window_sec time st).1
unfolding hit_counter
hit-InWindow key window_sec time n e st h w = (
  rw (w time h, next_counter),
  λ t below. rw (w time h, next_counter, live_counter, eq_refl key, lt→ltb t e below),
)

open_window :
    (key : String) (window_sec time : ℕ) (st : Store)
    → live_counter key time st ≡ none
    → ((hit_counter key window_sec time st).0.0 ≡ 1)
      × InWindow key 1 (time + window_sec * 1000) (hit_counter key window_sec time st).1
unfolding hit_counter
open_window key window_sec time st e = (
  rw (e, next_counter),
  λ t below.
      rw (e, next_counter, live_counter, eq_refl key, lt→ltb t (time + window_sec * 1000) below),
)

-- One request that Redis answers.
module _ (h : Host) (config : RateLimitConfig) (key : String) (s : State) where
  abbrev hit : (ℕ × ℕ) × Store
  hit =
      hit_counter (full_key config key) (ceil_seconds config.window_ms) (h.clock s.step)
        (h.others s.step s.store)

  abbrev counted_state : State
  counted_state = record { store = hit.1; step = s.step + 1 }

  rate_limit_answered :
      h.answers s.step ≡ true
      → rate_limit h config key s ≡ (
          if leb hit.0.0 config.max
          then done tt counted_state
          else fail rate_limit_exceeded counted_state)
  unfolding rate_limit statement
  rate_limit_answered up = elim (Bool-cases (leb hit.0.0 config.max)) [
    | inl within ↦ rw (up, within) refl
    | inr beyond ↦ rw (up, beyond) refl
  ]

module _ (h : Host) (config : RateLimitConfig) (key : String) where
  abbrev hit_at : ℕ → State → (ℕ × ℕ) × Store
  hit_at time s = hit (at_time h time) config key s

  abbrev after_hit : ℕ → State → State
  after_hit time s = counted_state (at_time h time) config key s

  verdicts-cons :
      (time : ℕ) (times : List ℕ) (s : State)
      → verdicts h config key (time ∷ times) s
        ≡ (if leb (hit_at time s).0.0 config.max then none else some rate_limit_exceeded)
          ∷ verdicts h config key times (after_hit time s)
  verdicts-cons time times s = elim (Bool-cases (leb (hit_at time s).0.0 config.max)) [
    | inl within ↦ rw (rate_limit_answered (at_time h time) config key s refl, within) refl
    | inr beyond ↦ rw (rate_limit_answered (at_time h time) config key s refl, beyond) refl
  ]

  verdicts-numbered :
      (n e : ℕ) (times : List ℕ) (s : State)
      → InWindow (full_key config key) n e s.store
      → All (λ t. t < e) times
      → verdicts h config key times s ≡ numbered config.max n times
  verdicts-numbered n e [] s w below = refl
  verdicts-numbered n e (time ∷ times) s w (early, below) =
      let (counted, after) =
        hit-InWindow (full_key config key) (ceil_seconds config.window_ms) time n e s.store early
          w in
      let later = verdicts-numbered (n + 1) e times (after_hit time s) after below in
      verdicts-cons time times s
      ∙ rw counted (
          ap (λ vs. (if leb (n + 1) config.max then none else some rate_limit_exceeded) ∷ vs) later)

count-numbered :
    (most already : ℕ) (times : List ℕ)
    → count passes (numbered most already times) ≡ min (most - already) (length times)
count-numbered most already [] = omega arith
count-numbered most already (time ∷ times) = ground (arith, count-numbered most (already + 1) times)

-- A window opens with the first request of a key that has no live counter. Of the requests that come
-- until it expires, one after the other, `rateLimit` lets the first `max` pass, in order, and answers
-- each later one with the 429, whatever their times: refused requests do not prolong it.
pub window_verdicts :
    (h : Host) (config : RateLimitConfig) (key : String) (time : ℕ) (times : List ℕ) (s : State)
    → live_counter (full_key config key) time s.store ≡ none
    → All (λ t. t < time + ceil_seconds config.window_ms * 1000) times
    → (verdicts h config key (time ∷ times) s ≡ numbered config.max 0 (time ∷ times))
      × (count passes (verdicts h config key (time ∷ times) s)
          ≡ min config.max (suc (length times)))
window_verdicts h config key time times s fresh below =
    let (one, after) =
      open_window (full_key config key) (ceil_seconds config.window_ms) time s.store fresh in
    let later =
      verdicts-numbered h config key 1 (time + ceil_seconds config.window_ms * 1000) times
        (after_hit h config key time s) after below in
    let e : verdicts h config key (time ∷ times) s ≡ numbered config.max 0 (time ∷ times) =
      verdicts-cons h config key time times s
      ∙ rw one
          (ap (λ vs. (if leb 1 config.max then none else some rate_limit_exceeded) ∷ vs) later) in
    (e, omega (arith, ap (count passes) e, count-numbered config.max 0 (time ∷ times)))

-- The requests of the window so far.
abbrev pub hits : Option Counter → ℕ
hits none = 0
hits (some c) = c.count

hit_counter-hits :
    (key : String) (window_sec time : ℕ) (st : Store)
    → (hit_counter key window_sec time st).0.0 ≡ hits (live_counter key time st) + 1
unfolding hit_counter
hit_counter-hits key window_sec time st = elim (Option-cases (live_counter key time st)) [
  | inl fresh ↦ rw fresh refl
  | inr (c, live) ↦ rw live refl
]

-- `rateLimit` refuses a request exactly where Redis answers and the window of the key has had its
-- `max` requests; a refusal is a 429, there is no other failure, and where Redis does not answer the
-- store is left as other requests made it.
pub rate_limit_iff :
    (h : Host) (config : RateLimitConfig) (key : String) (s : State)
    → (((s' : State) × (rate_limit h config key s ≡ fail rate_limit_exceeded s')) ↔ (
        (h.answers s.step ≡ true)
        × (config.max
            ≤ hits
                (live_counter (full_key config key) (h.clock s.step) (h.others s.step s.store)))))
      × ((e : Failure) (s' : State)
          → rate_limit h config key s ≡ fail e s'
          → (e ≡ rate_limit_exceeded) × ((error_handler e).status ≡ 429))
      × (h.answers s.step ≡ false
          → (final (rate_limit h config key s)).store ≡ h.others s.step s.store)
unfolding rate_limit statement error_handler
rate_limit_iff h config key s = elim (Bool-cases (h.answers s.step)) [
  | inr down ↦
      rw down ((λ (s', e). absurd (cc), λ (up, _). absurd (cc)), λ e s' is. absurd (cc), λ _. refl)
  | inl up ↦
      let counted =
        hit_counter-hits (full_key config key) (ceil_seconds config.window_ms) (h.clock s.step)
          (h.others s.step s.store) in
      elim (Bool-cases (leb (hit h config key s).0.0 config.max)) [
        | inl within ↦
            let answered = rate_limit_answered h config key s up in
            let runs = rw within at answered in
            (
              (
                λ (s', e). absurd (cc (sym runs ∙ e)),
                λ (_, most). absurd (ground (arith, counted, most, within)),
              ),
              λ e s' is. absurd (cc (sym runs ∙ is)),
              λ down. absurd (cc (sym up ∙ down)),
            )
        | inr beyond ↦
            let answered = rate_limit_answered h config key s up in
            let runs = rw beyond at answered in
            (
              (
                λ _. (up, ground (arith, counted, beyond)),
                λ _. (counted_state h config key s, runs),
              ),
              λ e s' is.
                  let same : e ≡ rate_limit_exceeded = cc (sym runs ∙ is) in (same, rw same refl),
              λ down. absurd (cc (sym up ∙ down)),
            )
      ]
]

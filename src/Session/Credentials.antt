-- ===== src/Session/Credentials.antt =====
-- services/session.ts: who passes as a client.
use identity_platform.Prelude.{
  ℕ, ◌+◌, String, true, false, Option, none, some, ◌≡◌, refl, ◌⊎◌, inl, inr, arith, eq_iff,
  if◌then◌else◌, Bool-cases, Option-cases, find_sound, and-eq-true,
}
use identity_platform.Errors.{Failure, unexpected}
use identity_platform.Schema.{Client, Store}
use identity_platform.Exec.{Host, State, done, fail, or_throw, read}
use identity_platform.Session.{
  invalid_client, find_active_client, truthy, secret_matches, verify_client_credentials,
}

-- The client that the credentials stand for.
abbrev pub accepted : Host → String → Option String → Store → Option Client
accepted h client_id secret st = elim (find_active_client client_id st) [
  | none ↦ none
  | some c ↦
      if c.is_public
      then some c
      else if secret_matches h (truthy secret) c.client_secret_hash
      then some c
      else none
]

-- The state after one statement, which other requests' changes precede.
abbrev pub after : Host → State → State
after h s = record { store = h.others s.step s.store; step = s.step + 1 }

-- The check is one read.
pub verify_client_credentials_lem :
    (h : Host) (client_id : String) (secret : Option String) (s : State)
    → verify_client_credentials h client_id secret s ≡ (
        if h.answers s.step
        then or_throw
            (accepted h client_id secret (h.others s.step s.store))
            invalid_client
            (after h s)
        else fail unexpected (after h s))
unfolding verify_client_credentials read
verify_client_credentials_lem h client_id secret s = ground arith

secret_matches_sound :
    (h : Host) (secret : Option String) (hash : Option ℕ)
    → secret_matches h (truthy secret) hash ≡ true
    → (text : String) × (secret ≡ some text) × (hash ≡ some (h.sha256 text))
secret_matches_sound h none hash e = cc
secret_matches_sound h (some text) none e = absurd (ground arith)
secret_matches_sound h (some text) (some d) e = (text, refl, ground arith)

-- The client is public, or the digest of the secret that was sent is the stored one.
abbrev pub IsPresented : Host → Option String → Client → Type 0
IsPresented h secret c =
    (c.is_public ≡ true)
    ⊎ ((text : String) × (secret ≡ some text) × (c.client_secret_hash ≡ some (h.sha256 text)))

pub accepted_sound :
    (h : Host) (client_id : String) (secret : Option String) (st : Store) (c : Client)
    → accepted h client_id secret st ≡ some c
    → (find_active_client client_id st ≡ some c)
      × ((c.client_id ≡ client_id) × (c.is_active ≡ true) × IsPresented h secret c)
accepted_sound h client_id secret st c e = elim (Option-cases (find_active_client client_id st)) [
  | inl missing ↦ absurd (cc (rw (missing, accepted) at e))
  | inr (d, hit) ↦
      let same : d ≡ c = ground arith in
      let hit' : find_active_client client_id st ≡ some c = rw (← same) hit in
      let named = and-eq-true _ _ (find_sound _ st.clients c hit') in
      (
        hit',
        (
          (eq_iff _ _).0 named.0,
          named.1,
          elim (Bool-cases c.is_public) [
            | inl open_to_all ↦ inl open_to_all
            | inr held ↦ inr (secret_matches_sound h secret c.client_secret_hash (ground arith))
          ],
        ),
      )
]

-- Whoever passes names an active client of the store, and is that client's: it is public, or the
-- digest of the secret that was sent is the stored one. Every refusal is the same 401
-- INVALID_CLIENT, whatever its reason, unless the database did not answer.
pub credentials_sound :
    (h : Host) (client_id : String) (secret : Option String) (s : State)
    → ((c : Client) (s' : State)
        → verify_client_credentials h client_id secret s ≡ done c s'
        → (find_active_client client_id (h.others s.step s.store) ≡ some c)
          × ((c.client_id ≡ client_id) × (c.is_active ≡ true) × IsPresented h secret c)
          × (s' ≡ after h s))
      × ((x : Failure) (s' : State)
          → verify_client_credentials h client_id secret s ≡ fail x s'
          → (x ≡ invalid_client) ⊎ (h.answers s.step ≡ false))
credentials_sound h client_id secret s = (
  λ c s' e.
      let found : accepted h client_id secret (h.others s.step s.store) ≡ some c =
        ground (arith, verify_client_credentials_lem h client_id secret s) in
      let (hit, rest) = accepted_sound h client_id secret (h.others s.step s.store) c found in
      (hit, rest, ground (arith, verify_client_credentials_lem h client_id secret s)),
  λ x s' e. ground (arith, verify_client_credentials_lem h client_id secret s),
)

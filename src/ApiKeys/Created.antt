-- ===== src/ApiKeys/Created.antt =====
-- routes/apiKeys.ts and middleware/authenticate.ts: a key that was handed out is accepted.
use identity_platform.Prelude.{
  ℕ, ◌+◌, ◌-◌, ◌*◌, String, Bool, true, false, ◌&&◌, ◌||◌, Option, none, some, List, [], ◌∷◌, ◌++◌,
  any, find, get_or, ◌==◌, ==_refl, ◌≡◌, refl, sym, ap, ◌∙◌, arith, if◌then◌else◌, Bool-cases, inl,
  inr, str_eq, eq_iff, append,
}
use Prim.Native.String.{count as text_length, [] as empty, ◌∷◌ as cons}
use text.Mathlib.TextLemmas.{length-append}
use identity_platform.Errors.{unexpected}
use identity_platform.Schema.{ApiKey}
use identity_platform.Schema.KeyInserts.{NewApiKey, api_key_row, insert_api_key}
use identity_platform.Exec.{
  Env, Host, alone, Request, Reply, State, done, fail, statement, read, write, now, random_bytes,
}
use identity_platform.Exec.Inversion.{pure_from}
use identity_platform.Permission.{Principal, key}
use identity_platform.Session.{day_ms}
use identity_platform.Audit.{audit}
use identity_platform.Audit.Alone.{audit_runs}
use identity_platform.Authenticate.{
  find_key, client_is_active, has_expired, touch_key, key_grants, authenticate_key,
  authenticate_with, authenticate,
}
use identity_platform.Authenticate.Header.{authenticate-authenticate_with}
use identity_platform.Text.Words.{NoSpace, NoSpace-append, has_no_space-NoSpace}
use identity_platform.Admin.{by_principal}
use identity_platform.ApiKeys.{
  CreateKeyBody, CreatedKey, key_of, key_prefix_of, slice_to, slice_from, key_view,
  generate_api_key, expiry_of, create_key_for,
}

module _ (h : Host) (c : ℕ) (name : String) (scopes : Option (List String)) (s : State) where
  -- The expiry, and the state before the insert.
  abbrev expiry : Option ℕ → Option ℕ
  expiry none = none
  expiry (some days) = some (h.clock (s.step + 1) + days * day_ms)

  abbrev before : Option ℕ → State
  before none = record { store = s.store; step = s.step + 1 }
  before (some days) = record { store = s.store; step = s.step + 1 + 1 }

  abbrev fresh_key : String
  fresh_key = key_of (h.random s.step)

  abbrev new_key : Option ℕ → NewApiKey
  new_key days = record {
    client_id = c;
    service_account_id = none;
    key_prefix = key_prefix_of (h.random s.step);
    key_hash = h.sha256 fresh_key;
    name = name;
    scopes = get_or scopes [];
    expires_at = expiry days;
  }

  abbrev row : Option ℕ → ApiKey
  row days = api_key_row (new_key days) (h.uuid (before days).step) (h.clock (before days).step)

  abbrev clashes : Option ℕ → Bool
  clashes days =
      any (λ r. r.id == h.uuid (before days).step || r.key_hash == h.sha256 fresh_key)
        s.store.api_keys

  abbrev key_body : Option ℕ → CreateKeyBody
  key_body days = record { name = name; scopes = scopes; expires_in_days = days }

  abbrev stored : Option ℕ → State
  stored days = record {
    store = record s.store { api_keys = s.store.api_keys ++ row days ∷ [] };
    step = (before days).step + 1;
  }

  abbrev answer_of : Option ℕ → Reply CreatedKey
  answer_of days = record {
    status = 201;
    body = record { view = key_view (row days); key = fresh_key };
  }

  create_runs :
      (req : Request) (principal : Principal) (days : Option ℕ) (t : State)
      → clashes days ≡ false
      → audit (alone h) req (by_principal principal c "apikey.created" (row days).id) (stored days)
        ≡ done tt t
      → create_key_for (alone h) req principal c (key_body days) s ≡ done (answer_of days) t
  unfolding create_key_for generate_api_key expiry_of insert_api_key statement now random_bytes
  create_runs req principal none t free logged = rw (free, logged) refl
  create_runs req principal (some days) t free logged = rw (free, logged) refl

  create_fails :
      (req : Request) (principal : Principal) (days : Option ℕ)
      → clashes days ≡ true
      → (t : State) × (create_key_for (alone h) req principal c (key_body days) s
          ≡ fail unexpected t)
  unfolding create_key_for generate_api_key expiry_of insert_api_key statement now random_bytes
  create_fails req principal none taken =
      (record { store = s.store; step = s.step + 1 + 1 }, rw taken refl)
  create_fails req principal (some days) taken =
      (record { store = s.store; step = s.step + 1 + 1 + 1 }, rw taken refl)

-- No key is an empty text.
key_of_nonempty : (random : String) → str_eq (key_of random) "" ≡ false
key_of_nonempty random = elim (Bool-cases (str_eq (key_of random) "")) [
  | inl blank ↦
      let tail = append "_" (slice_from 8 random) in
      absurd (
        omega (
          arith,
          ap text_length ((eq_iff (key_of random) "").0 blank),
          length-append (key_prefix_of random) tail,
          length-append "sk_" (slice_to 8 random),
        ))
  | inr other ↦ other
]

find_key-append :
    (hash id : ℕ) (keys : List ApiKey) (k : ApiKey)
    → any (λ r. r.id == id || r.key_hash == hash) keys ≡ false
    → k.key_hash ≡ hash
    → k.revoked ≡ false
    → find (λ r. r.key_hash == hash && (if r.revoked then false else true)) (keys ++ k ∷ [])
      ≡ some k
find_key-append hash id [] k free same live = ground (arith, ==_refl hash)
find_key-append hash id (r ∷ keys) k free same live = ground (arith, find_key-append hash id keys k)

module _ (env : Env) (h : Host) where
  -- A key without a service account, in a state where it is found, not expired and of an active client.
  key_accepted :
      (token : String) (k : ApiKey) (s : State)
      → str_eq token "" ≡ false
      → find_key (h.sha256 token) s.store ≡ some k
      → has_expired k.expires_at (h.clock s.step) ≡ false
      → client_is_active k.client_id s.store ≡ true
      → k.service_account_id ≡ none
      → (s' : State) × (authenticate_with env (alone h) "ApiKey" token s
          ≡ done
              (key (record {
                id = k.id;
                client_id = k.client_id;
                scopes = get_or k.scopes [];
                service_account_id = none;
                service_account_name = none;
              }))
              s')
  unfolding authenticate_with authenticate_key key_grants statement read write now
  key_accepted token k s there found live active plain = (
    record { store = touch_key k.id (h.clock s.step) s.store; step = s.step + 1 + 1 + 1 + 1 },
    rw (there, found, live, active, plain) refl,
  )

slice_to-NoSpace : (n : ℕ) (s : String) → NoSpace s → NoSpace (slice_to n s)
slice_to-NoSpace n empty plain = tt
slice_to-NoSpace n (cons c s) (ne, plain) = elim (Bool-cases (n == 0)) [
  | inl whole ↦ rw whole tt
  | inr more ↦ rw more (ne, slice_to-NoSpace (n - 1) s plain)
]

slice_from-NoSpace : (n : ℕ) (s : String) → NoSpace s → NoSpace (slice_from n s)
slice_from-NoSpace n empty plain = tt
slice_from-NoSpace n (cons c s) (ne, plain) = elim (Bool-cases (n == 0)) [
  | inl whole ↦ rw whole (ne, plain)
  | inr more ↦ rw more (slice_from-NoSpace (n - 1) s plain)
]

key_of-NoSpace : (random : String) → NoSpace random → NoSpace (key_of random)
key_of-NoSpace random plain =
    NoSpace-append (key_prefix_of random) (append "_" (slice_from 8 random))
      (NoSpace-append "sk_" (slice_to 8 random) (has_no_space-NoSpace "sk_" refl)
        (slice_to-NoSpace 8 random plain))
      (NoSpace-append "_" (slice_from 8 random) (has_no_space-NoSpace "_" refl)
        (slice_from-NoSpace 8 random plain))

-- What the new key is good for: any later request with the header `ApiKey <key>`.
abbrev pub Works : Env → Host → ℕ → Option (List String) → Reply CreatedKey → State → Type 0
Works env h c scopes reply s' =
    (later : Request)
    → has_expired reply.body.view.expires_at (h.clock s'.step) ≡ false
    → (s'' : State) × (authenticate env (alone h)
          (record later { authorization = some (append "ApiKey " reply.body.key) }) s'
        ≡ done
            (key (record {
              id = reply.body.view.id;
              client_id = c;
              scopes = get_or scopes [];
              service_account_id = none;
              service_account_name = none;
            }))
            s'')

create_key_for-Works :
    (env : Env) (h : Host) (req : Request) (principal : Principal) (c : ℕ) (name : String)
    (scopes : Option (List String)) (s : State) (days : Option ℕ)
    → NoSpace (h.random s.step)
    → clashes h c name scopes s days ≡ false
    → client_is_active c s.store ≡ true
    → (t : State) × (create_key_for (alone h) req principal c (key_body h c name scopes s days) s
        ≡ done (answer_of h c name scopes s days) t)
      × Works env h c scopes (answer_of h c name scopes s days) t
create_key_for-Works env h req principal c name scopes s days plain free active =
    let new = row h c name scopes s days in
    let (t, logged, same) =
      audit_runs h req (by_principal principal c "apikey.created" new.id)
        (stored h c name scopes s days) in
    (
      t,
      create_runs h c name scopes s req principal days t free logged,
      λ later live.
          let (s'', passes) =
            key_accepted env h (fresh_key h c name scopes s) new t
              (key_of_nonempty (h.random s.step))
              (ap
                  (λ keys.
                    find
                      (λ r.
                        r.key_hash == h.sha256 (fresh_key h c name scopes s)
                        && (if r.revoked then false else true))
                      keys)
                  same.api_keys
                ∙ find_key-append (h.sha256 (fresh_key h c name scopes s))
                    (h.uuid (before h c name scopes s days).step) s.store.api_keys new free refl
                    refl)
              live
              (ap
                  (λ cs. elim (find (λ c'. c'.id == c) cs) [
                    | none ↦ false
                    | some c' ↦ c'.is_active
                  ])
                  same.clients
                ∙ active)
              refl in
          (
            s'',
            authenticate-authenticate_with env (alone h) later (fresh_key h c name scopes s) t
                  (key_of-NoSpace (h.random s.step) plain)
                ∙ passes,
          ),
    )

-- Alone, `POST /api-keys` of an active client hands out a key with the requested scopes only, and
-- until it expires `authenticate` takes the header `ApiKey <key>` of any request for a principal of
-- this client with just these scopes and the id that the answer shows, where the random text that the
-- key is made from has no space (it is hexadecimal).
pub create_key_for-authenticate :
    (env : Env) (h : Host) (req : Request) (principal : Principal) (c : ℕ) (body : CreateKeyBody)
    (s : State) (reply : Reply CreatedKey) (s' : State)
    → NoSpace (h.random s.step)
    → client_is_active c s.store ≡ true
    → create_key_for (alone h) req principal c body s ≡ done reply s'
    → (reply.body.view.scopes ≡ some (get_or body.scopes [])) × Works env h c body.scopes reply s'
create_key_for-authenticate env h req principal c body s reply s' plain active e =
    elim (Bool-cases (clashes h c body.name body.scopes s body.expires_in_days)) [
      | inl taken ↦
          let (t, failed) =
            create_fails h c body.name body.scopes s req principal body.expires_in_days taken in
          absurd (cc (sym failed ∙ e))
      | inr free ↦
          let (t, runs, works) =
            create_key_for-Works env h req principal c body.name body.scopes s body.expires_in_days
              plain free active in
          (pure_from {s = t}
              {Q = λ r z.
                (r.body.view.scopes ≡ some (get_or body.scopes [])) × Works env h c body.scopes r z}
              (answer_of h c body.name body.scopes s body.expires_in_days) (refl, works)).at
            reply s' (sym runs ∙ e)
    ]

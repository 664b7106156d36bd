-- ===== src/OAuth/Codes.antt =====
-- services/oauth.ts: an authorization code is found until it is taken or expires, and is taken once;
-- a state nonce is accepted once.
use identity_platform.Prelude.{
  ℕ, ◌+◌, ◌<◌, true, false, ◌&&◌, none, some, ◌≡◌, refl, List, [], ◌∷◌, find, select, ltb, ◌==◌,
  ==_refl, ap, ◌∙◌, arith, String, if◌then◌else◌,
}
use identity_platform.Schema.{AuthCodeData, CodeEntry, Store}
use identity_platform.Exec.{Host, alone, State, done, statement}
use identity_platform.Exec.Inversion.{statement_done}
use identity_platform.OAuth.{
  get_code, delete_code, set_code, take_code, set_nonce, is_fresh, consume_auth_code,
  store_auth_code, resolve_auth_code,
}

find-delete :
    (key time : ℕ) (es : List CodeEntry)
    → find
        (λ e. e.key == key && ltb time e.expires_at)
        (select (λ e. if e.key == key then false else true) es)
      ≡ none
find-delete key time [] = refl
find-delete key time (e ∷ es) = ground (arith, find-delete key time es)

find-delete_other :
    (key other time : ℕ) (es : List CodeEntry)
    → (key == other) ≡ false
    → find
        (λ e. e.key == other && ltb time e.expires_at)
        (select (λ e. if e.key == key then false else true) es)
      ≡ find (λ e. e.key == other && ltb time e.expires_at) es
find-delete_other key other time [] ne = refl
find-delete_other key other time (e ∷ es) ne =
    ground (arith, find-delete_other key other time es ne)

get-delete_code : (key time : ℕ) (st : Store) → get_code key time (delete_code key st) ≡ none
get-delete_code key time st = rw (find-delete key time st.codes, get_code)

get-delete_code_other :
    (key other time : ℕ) (st : Store)
    → (key == other) ≡ false
    → get_code other time (delete_code key st) ≡ get_code other time st
get-delete_code_other key other time st ne =
    rw (find-delete_other key other time st.codes ne, get_code)

get-set_code :
    (key other : ℕ) (value : AuthCodeData) (time later : ℕ) (st : Store)
    → get_code other later (set_code key value time st) ≡ (
        if key == other
        then (if ltb later (time + 60000) then some value else none)
        else get_code other later st)
unfolding set_code
get-set_code key other value time later st =
    ground (arith, find-delete key later st.codes, find-delete_other key other later st.codes)

-- `storeAuthCode`, where the request runs alone, stores the data so that `resolveAuthCode` with the
-- same code answers them for exactly sixty seconds, however many statements later it comes; what it
-- answers for a code of another digest is as before, and it changes nothing itself.
pub resolve_auth_code-store_auth_code :
    (h : Host) (code other : String) (value : AuthCodeData) (s : State) (later : ℕ)
    → (s' : State) × (store_auth_code (alone h) code value s ≡ done tt s')
      × (resolve_auth_code (alone h) code (record s' { step = later })
          ≡ done
              (if ltb (h.clock later) (h.clock s.step + 60000) then some value else none)
              (record s' { step = later + 1 }))
      × ((h.sha256 code == h.sha256 other) ≡ false
          → resolve_auth_code (alone h) other (record s' { step = later })
            ≡ done
                (get_code (h.sha256 other) (h.clock later) s.store)
                (record s' { step = later + 1 }))
unfolding store_auth_code resolve_auth_code statement
resolve_auth_code-store_auth_code h code other value s later =
    let key = h.sha256 code in
    let stored = set_code key value (h.clock s.step) s.store in
    (
      record { store = stored; step = s.step + 1 },
      refl,
      ap (λ o. done o (record { store = stored; step = later + 1 }))
          (get-set_code key key value (h.clock s.step) (h.clock later) s.store
            ∙ ap
                (λ b.
                  if b
                  then (if ltb (h.clock later) (h.clock s.step + 60000) then some value else none)
                  else get_code key (h.clock later) s.store)
                (==_refl key)),
      λ apart.
          ap (λ o. done o (record { store = stored; step = later + 1 }))
            (get-set_code key (h.sha256 other) value (h.clock s.step) (h.clock later) s.store
              ∙ ap
                  (λ b.
                    if b
                    then (if ltb (h.clock later) (h.clock s.step + 60000) then some value else none)
                    else get_code (h.sha256 other) (h.clock later) s.store)
                  apart),
    )

take_code_cases :
    (key time : ℕ) (st : Store) (value : AuthCodeData) (st' : Store)
    → take_code key time st ≡ (some value, st')
    → (get_code key time st ≡ some value) × (st' ≡ delete_code key st)
unfolding take_code
take_code_cases key time st value st' e = ground arith

-- A code that `consumeAuthCode` returned was stored, and is gone: no later call of
-- `consumeAuthCode` or `resolveAuthCode` finds it. Other codes stay.
pub consume_auth_code_once :
    (h : Host) (code : String) (s : State) (value : AuthCodeData) (s' : State)
    → consume_auth_code h code s ≡ done (some value) s'
    → (get_code (h.sha256 code) (h.clock s.step) (h.others s.step s.store) ≡ some value)
      × ((later : ℕ) → get_code (h.sha256 code) later s'.store ≡ none)
      × ((other later : ℕ)
          → (h.sha256 code == other) ≡ false
          → get_code other later s'.store ≡ get_code other later (h.others s.step s.store))
unfolding consume_auth_code
consume_auth_code_once h code s value s' e =
    let key = h.sha256 code in
    let st = h.others s.step s.store in
    let (taken, _) =
      statement_done h (λ d st. some (take_code key d.time st)) s (some value) s' e in
    let (held, rest) = take_code_cases key (h.clock s.step) st value s'.store (ground arith) in
    (
      held,
      λ later. rw rest (get-delete_code key later st),
      λ other later ne. rw rest (get-delete_code_other key other later st ne),
    )

-- The time at which a state was issued, and the nonce's marker: while the state is still fresh, a
-- nonce that has been consumed is not accepted again, provided the first callback came at least a
-- millisecond after the state was issued.
pub set_nonce_once :
    (nonce issued time later : ℕ) (st st' : Store)
    → set_nonce nonce time st ≡ (true, st')
    → issued < time
    → is_fresh (some issued) later ≡ true
    → set_nonce nonce later st' ≡ (false, st')
unfolding set_nonce
set_nonce_once nonce issued time later st st' e before fresh = ground arith

-- ===== src/Authenticate/Keys.antt =====
-- middleware/authenticate.ts: whose API keys pass, and with which scopes.
use identity_platform.Prelude.{
  ℕ, String, true, false, Option, none, some, List, [], ◌≡◌, refl, sym, ap, subst, ◌∙◌, arith,
  get_or, if◌then◌else◌,
}
use identity_platform.Errors.{unauthorized}
use identity_platform.Schema.{ApiKey, ServiceAccount, Store}
use identity_platform.Exec.{Host, alone, Env, State, done, now, read, write, catch, pure}
use identity_platform.Exec.Inversion.{
  From, then_lem, check_then_lem, or_throw_then_lem, option_from, pure_from, read_done, now_done,
}
use identity_platform.Permission.{Principal, KeyClaims, key}
use identity_platform.Authenticate.{
  find_key, client_is_active, find_active_account, service_account_permissions, has_expired,
  touch_key, invalid_api_key, key_grants, authenticate_key,
}

-- What a key grants: its own scopes, or the permissions of its service account; nothing where that
-- is gone or inactive.
abbrev pub grants_of : ApiKey → Store → Option (List String × Option String)
grants_of k st = elim k.service_account_id [
  | none ↦ some (get_or k.scopes [], none)
  | some account_id ↦ elim (find_active_account account_id k.client_id st) [
    | none ↦ none
    | some a ↦ some (service_account_permissions a.id k.client_id st, some a.name)
  ]
]

-- The key that the store holds for the text, with what it grants.
pub record IsKey (hash time : ℕ) (st : Store) (p : Principal) : Type 0 where
  pub row : ApiKey
  pub claims : KeyClaims
  pub is_key : p ≡ key claims
  pub stored : find_key hash st ≡ some row
  pub unexpired : has_expired row.expires_at time ≡ false
  pub active : client_is_active row.client_id st ≡ true
  pub same_client : claims.client_id ≡ row.client_id
  pub granted : grants_of row st ≡ some (claims.scopes, claims.service_account_name)

grants_of_account :
    (k : ApiKey) (id : ℕ) (a : ServiceAccount) (st : Store)
    → k.service_account_id ≡ some id
    → find_active_account id k.client_id st ≡ some a
    → grants_of k st ≡ some (service_account_permissions a.id k.client_id st, some a.name)
grants_of_account k id a st owned account = ground (arith)

key_grants_from :
    (env : Env) (h : Host) (k : ApiKey) (s : State)
    → From s (key_grants env (alone h) k) λ g s'. grants_of k s.store ≡ some g
unfolding key_grants
key_grants_from env h k s =
    option_from k.service_account_id (λ plain. pure_from _ (rw plain))
      λ account_id owned.
        then_lem (read (alone h) (find_active_account account_id k.client_id)) _ λ found s1 e1.
          or_throw_then_lem found invalid_api_key _ λ a hit.
            then_lem (read (alone h) (service_account_permissions a.id k.client_id)) _
              λ scopes s2 e2.
                let (found_is, same1, _) =
                  read_done (alone h) (find_active_account account_id k.client_id) s found s1 e1 in
                let (scopes_is, _, _) =
                  read_done (alone h) (service_account_permissions a.id k.client_id) s1 scopes s2
                    e2 in
                let account : find_active_account account_id k.client_id s.store ≡ some a =
                  sym found_is ∙ hit in
                let listed : scopes ≡ service_account_permissions a.id k.client_id s.store =
                  scopes_is ∙ ap (service_account_permissions a.id k.client_id) same1 in
                pure_from _ (
                  grants_of_account k account_id a s.store owned account
                  ∙ ap (λ z. some (z, some a.name)) (sym listed))

-- `authenticate`, where it runs alone, lets a key pass only if the store holds it unrevoked and
-- unexpired, for an active client; the principal then has exactly the key's own scopes, or, for a
-- key of a service account, that active account's permissions in the client.
pub authenticate_key_sound :
    (env : Env) (h : Host) (text : String) (s : State) (p : Principal) (s' : State)
    → authenticate_key env (alone h) text s ≡ done p s'
    → IsKey (h.sha256 text) (h.clock s.step) s.store p
unfolding authenticate_key
authenticate_key_sound env h text s p s' e = facts.at p s' e
  where
    facts :
        From s
          (authenticate_key env (alone h) text)
          λ p _. IsKey (h.sha256 text) (h.clock s.step) s.store p
    facts = then_lem (now (alone h)) _ λ time s1 e1.
        then_lem (read (alone h) (find_key (h.sha256 text))) _ λ found s2 e2.
          or_throw_then_lem found invalid_api_key _ λ k hit.
            check_then_lem (if has_expired k.expires_at time then false else true)
              (unauthorized "API key expired" none) _
              λ young. then_lem (read (alone h) (client_is_active k.client_id)) _ λ active s3 e3.
                check_then_lem active invalid_api_key _ λ is_active.
                  then_lem (key_grants env (alone h) k) _ λ grants s4 e4.
                    then_lem (catch (write (alone h) (touch_key k.id time)) (λ _. pure tt)) _
                      λ _ s5 _.
                        let (is_time, next1) = now_done (alone h) s time s1 e1 in
                        let (found_is, same2, _) =
                          read_done (alone h) (find_key (h.sha256 text)) s1 found s2 e2 in
                        let (active_is, same3, _) =
                          read_done (alone h) (client_is_active k.client_id) s2 active s3 e3 in
                        let at1 : s1.store ≡ s.store = ap (λ (z : State). z.store) next1 in
                        let at2 : s2.store ≡ s.store = same2 ∙ at1 in
                        let at3 : s3.store ≡ s.store = same3 ∙ at2 in
                        pure_from _ (record {
                          row = k;
                          claims = _;
                          is_key = refl;
                          stored = ap (find_key (h.sha256 text)) (sym at1) ∙ sym found_is ∙ hit;
                          unexpired =
                              subst (λ z. has_expired k.expires_at z ≡ false) is_time
                                (ground arith);
                          active =
                              ap (client_is_active k.client_id) (sym at2)
                              ∙ sym active_is
                              ∙ is_active;
                          same_client = refl;
                          granted =
                              ap (grants_of k) (sym at3)
                              ∙ (key_grants_from env h k s3).at grants s4 e4;
                        })

-- ===== src/Sdk/Agreement.antt =====
-- sdk/auth-client.ts with routes/verify.ts: the client's check of a permission stands for the
-- platform's.
use text.Mathlib.Text.{starts_with}
use identity_platform.Prelude.{
  ℕ, String, true, false, ◌&&◌, Option, none, some, List, [], ◌∷◌, ◌≡◌, ◌↔◌, inl, inr, refl, sym,
  ap, subst, ◌∙◌, arith, Bool-cases, All, str_eq, leb, append,
}
use identity_platform.Errors.{error_handler}
use identity_platform.Schema.{ApiKey}
use identity_platform.Exec.{
  Env, Host, State, Outcome, done, fail, read, now, pure, catch, write, ◌>>=◌, ◌>>◌,
}
use identity_platform.Exec.Inversion.{From, then_lem, if_from, option_from, pure_from}
use identity_platform.Permission.{has_scope, has_permission}
use identity_platform.Permission.Checks.{IsPair, has_permission-has_scope}
use identity_platform.Session.{truthy}
use identity_platform.Authenticate.{has_expired, touch_key}
use identity_platform.Sdk.{
  Json, RateHeaders, FetchResponse, SdkHost, SdkRequest, AuthClient, FetchResult, answered, Result,
  ok, machine_principal,
}
use identity_platform.Sdk.Network.{
  return, ◌>>=◌ as ◌>>>=◌, follow, accept, as_verification, settle_fetch, verify_api_key,
  verify_remote, platform_fetch, parse_json, to_api_error,
}
use identity_platform.Sdk.Middleware.{
  Passed, Handled, next, credential, machine_of, judged, judge_key, require_api_key,
  sdk_require_permission,
}
use identity_platform.Sdk.Availability.{question, unavailable}
use identity_platform.Sdk.Wire.{no_headers, sent_key, verdict_json, respond_with, platform}
use identity_platform.Verify.{
  refused, invalid, user, VerifyBody, KeyGrant, Verdict, api_key, unauthorized, find_key_for,
  account_of, grant_key, verify_key, verify,
}

abbrev grant_of : ApiKey → List String × Option (ℕ × String) → KeyGrant
grant_of k held = record {
  client_id = k.client_id;
  name = k.name;
  scopes = held.0;
  service_account = held.1;
}

-- What a key is granted with.
granted_from :
    (h : Host) (k : ApiKey) (held : List String × Option (ℕ × String)) (s : State)
    → From s
        (now h >>= λ time.
          catch (write h (touch_key k.id time)) (λ _. pure tt) >> pure (api_key (grant_of k held)))
        λ v _. v ≡ api_key (grant_of k held)
granted_from h k held s = then_lem (now h) _ λ time s1 e1.
    then_lem (catch (write h (touch_key k.id time)) (λ _. pure tt)) _ λ u s2 e2. pure_from _ refl

scopes_of :
    (g g' : KeyGrant) (p : String)
    → api_key g' ≡ api_key g
    → has_scope g'.scopes p ≡ true
    → has_scope g.scopes p ≡ true
scopes_of g g' p e has =
    let same : g' ≡ g = ground arith in
    subst (λ (x : KeyGrant). has_scope x.scopes p ≡ true) same has

module _ (env : Env) (h : Host) (text audience permission : String) (s : State) where
  -- A key is granted with a required permission only where it is granted without, and has the scope.
  abbrev Granted : Verdict → State → Type 0
  Granted v s' =
      (g : KeyGrant)
      → v ≡ api_key g
      → (verify_key env h text audience none s ≡ done v s') × (has_scope g.scopes permission ≡ true)

  required-Granted : From s (verify_key env h text audience (some permission)) Granted
  unfolding verify_key grant_key
  required-Granted = then_lem (read h (find_key_for (h.sha256 text) audience)) _ λ found s1 e1.
      then_lem (now h) _ λ time s2 e2.
        option_from found (λ gone. pure_from _ λ g e. absurd (cc))
          λ k is_found.
            if_from (has_expired k.expires_at time) (λ old. pure_from _ λ g e. absurd (cc))
              λ live. then_lem (account_of env h k) _ λ grants s3 e3.
                option_from grants (λ gone. pure_from _ λ g e. absurd (cc))
                  λ held is_held.
                    if_from (has_scope held.0 permission)
                      (λ has. record {
                        at = λ v s' e g is. (
                          rw (verify_key, e1, e2, is_found, live, e3, is_held) e,
                          scopes_of g (grant_of k held) permission
                              (sym ((granted_from h k held s3).at v s' e) ∙ is) has,
                        );
                      })
                      λ lacks. pure_from _ λ g e. absurd (cc)

  abbrev Required : Verdict → State → Type 0
  Required v s' =
      (g : KeyGrant)
      → v ≡ api_key g
      → has_scope g.scopes permission ≡ true
      → verify_key env h text audience (some permission) s ≡ done v s'

  granted-Required : From s (verify_key env h text audience none) Required
  unfolding verify_key grant_key
  granted-Required = then_lem (read h (find_key_for (h.sha256 text) audience)) _ λ found s1 e1.
      then_lem (now h) _ λ time s2 e2.
        option_from found (λ gone. pure_from _ λ g e. absurd (cc))
          λ k is_found.
            if_from (has_expired k.expires_at time) (λ old. pure_from _ λ g e. absurd (cc))
              λ live. then_lem (account_of env h k) _ λ grants s3 e3.
                option_from grants (λ gone. pure_from _ λ g e. absurd (cc))
                  λ held is_held. record {
                    at = λ v s' e g is has.
                        let has_it =
                          scopes_of (grant_of k held) g permission
                            (sym is ∙ (granted_from h k held s3).at v s' e) has in
                        rw (verify_key, e1, e2, is_found, live, e3, is_held, has_it) e;
                  }

-- What `requireApiKey` leaves on a request of a key with these grants.
abbrev pub passed_key : KeyGrant → Passed
passed_key g = record {
  user = none;
  principal = some (machine_principal (machine_of (sent_key g)));
}

module _ (h : SdkHost) (client : AuthClient) (header : String) where
  abbrev asked_key : SdkRequest
  asked_key = question h client "apiKey" (credential header)

  abbrev answer_to : Result Handled
  answer_to =
      (judged (verify_api_key h client (credential header) none false)
        (λ v. judge_key v v.api_key)).result

  -- The same, from what `fetch` gives.
  abbrev read_answer : FetchResult → Result Handled
  read_answer r =
      (judged
        (follow (settle_fetch false r) (asked_key ∷ []) (λ res.
          accept h client res "Verification failed" >>>= λ json.
          return (as_verification h client json)))
        (λ v. judge_key v v.api_key)).result

  same_answer : answer_to ≡ read_answer (h.fetch asked_key)
  unfolding verify_remote platform_fetch
  same_answer = refl

  passes :
      (g : KeyGrant) (s' : State)
      → h.fetch asked_key ≡ answered (respond_with (done (api_key g) s'))
      → answer_to ≡ ok (next (passed_key g))
  unfolding settle_fetch parse_json respond_with verdict_json
  passes g s' e = same_answer ∙ ap read_answer e

  -- An answer that names no key lets nobody through.
  unnamed :
      (status : ℕ) (json : Json) (headers : RateHeaders) (p : Passed)
      → (as_verification h client json).api_key ≡ none
      → read_answer (answered (record { status = status; body = some json; headers = headers }))
        ≡ ok (next p)
      → ⊥
  unfolding settle_fetch parse_json
  unnamed status json headers p nobody is = elim (Bool-cases (leb 200 status && leb status 299)) [
    | inl accepted ↦ cc (rw (accepted, read_answer, nobody) at is)
    | inr refusal ↦
        let response : FetchResponse = record {
          status = status;
          body = some json;
          headers = headers;
        } in
        let (reason, given, is_given, _) =
          unavailable (to_api_error response "Verification failed") in
        cc (rw (refusal, read_answer, is_given) at is)
  ]

  stops :
      (r : Outcome Verdict) (p : Passed)
      → read_answer (answered (respond_with r)) ≡ ok (next p)
      → (g : KeyGrant) × (s' : State) × (r ≡ done (api_key g) s') × (p ≡ passed_key g)
  unfolding settle_fetch parse_json respond_with verdict_json
  stops (done (api_key g) s') p is = (g, s', refl, ground (arith, is))
  stops (done (invalid t) s') p is = absurd (cc is)
  stops (done (unauthorized t) s') p is = absurd (cc is)
  stops (done (user c) s') p is = absurd (cc is)
  stops (done (refused n t) s') p is = absurd (unnamed n _ no_headers p refl is)
  stops (fail x s') p is = absurd (unnamed (error_handler x).status _ no_headers p refl is)

is_truthy-some : (text : String) → str_eq text "" ≡ false → truthy (some text) ≡ some text
is_truthy-some text e = rw e refl

abbrev asked_of : String → String → VerifyBody
asked_of text audience = record {
  token = none;
  api_key = some text;
  audience = some audience;
  required_permission = none;
}

-- The same with a required permission.
abbrev pub asked_for : String → String → String → VerifyBody
asked_for text audience permission = record {
  token = none;
  api_key = some text;
  audience = some audience;
  required_permission = some permission;
}

module _ (env : Env) (platform_host : Host) (s : State) (text audience permission : String) where
  verify-none :
      str_eq text "" ≡ false
      → str_eq audience "" ≡ false
      → verify env platform_host (asked_of text audience) s
        ≡ verify_key env platform_host text audience none s
  unfolding verify
  verify-none t a = rw (verify, is_truthy-some audience a, is_truthy-some text t) refl

  verify-some :
      str_eq text "" ≡ false
      → str_eq audience "" ≡ false
      → str_eq permission "" ≡ false
      → verify env platform_host (asked_for text audience permission) s
        ≡ verify_key env platform_host text audience (some permission) s
  unfolding verify
  verify-some t a p =
      rw (verify, is_truthy-some audience a, is_truthy-some text t, is_truthy-some permission p)
        refl

permission_passes :
    (g : KeyGrant) (permission : String)
    → (sdk_require_permission permission (passed_key g) ≡ next (passed_key g))
      ↔ (has_permission g.scopes permission ≡ true)
unfolding sdk_require_permission has_permission
permission_passes g permission = elim (Bool-cases (has_permission g.scopes permission)) [
  | inl has ↦ (λ e. has, λ e. rw (sdk_require_permission, has) refl)
  | inr lacks ↦ (λ e. absurd (cc (rw (sdk_require_permission, lacks) at e)), λ e. absurd (cc))
]

module _ (env : Env) (platform_host : Host) (s : State) (h : SdkHost) (client : AuthClient)
    (header : String)
    (net : (r : SdkRequest)
      → r.url ≡ append client.service_url "/auth/verify"
      → h.fetch r ≡ platform env platform_host s r) where
  abbrev answer_without : Outcome Verdict
  answer_without = verify env platform_host (asked_of (credential header) client.config.client_id) s

  delivered : h.fetch (asked_key h client header) ≡ answered (respond_with answer_without)
  unfolding platform
  delivered = net (asked_key h client header) refl

  unwrapped :
      starts_with header "ApiKey " ≡ true
      → (require_api_key h client (some header)).result ≡ answer_to h client header
  unfolding require_api_key
  unwrapped scheme = rw scheme refl

-- Where `POST /auth/verify` of the client's service URL reaches the platform, for a header `ApiKey <key>`, a configured client
-- id and a permission, none of them empty: whom `requireApiKey` and `requirePermission(permission)`
-- let through, `POST /auth/verify` would authorize for this key, this audience and this permission, as
-- the principal that is then on the request; and where the key's scopes are stars and pairs without
-- further colons, whom it authorizes, they let through.
pub require_api_key-verify :
    (env : Env) (platform_host : Host) (s : State) (h : SdkHost) (client : AuthClient)
    (header permission : String)
    → ((r : SdkRequest)
        → r.url ≡ append client.service_url "/auth/verify"
        → h.fetch r ≡ platform env platform_host s r)
    → starts_with header "ApiKey " ≡ true
    → str_eq (credential header) "" ≡ false
    → str_eq client.config.client_id "" ≡ false
    → str_eq permission "" ≡ false
    → ((p : Passed)
        → (require_api_key h client (some header)).result ≡ ok (next p)
        → sdk_require_permission permission p ≡ next p
        → (g : KeyGrant) × (s' : State) × (verify env platform_host
              (asked_for (credential header) client.config.client_id permission)
              s
            ≡ done (api_key g) s')
          × (p ≡ passed_key g))
      × ((g : KeyGrant) (s' : State)
          → verify env platform_host
              (asked_for (credential header) client.config.client_id permission)
              s
            ≡ done (api_key g) s'
          → All IsPair g.scopes
          → ((require_api_key h client (some header)).result ≡ ok (next (passed_key g)))
            × (sdk_require_permission permission (passed_key g) ≡ next (passed_key g)))
require_api_key-verify env platform_host s h client header permission net scheme key there named = (
  λ p through permitted.
      let arrived =
        sym (ap (read_answer h client header) (delivered env platform_host s h client header net))
        ∙ (sym (same_answer h client header)
            ∙ (sym (unwrapped env platform_host s h client header net scheme) ∙ through)) in
      let (g, s', ran, is) = stops h client header answer p arrived in
      let has =
        (permission_passes g permission).0
          (subst (λ (z : Passed). sdk_require_permission permission z ≡ next z) is permitted) in
      let (scope, _) = has_permission-has_scope g.scopes permission in
      (
        g,
        s',
        verify-some env platform_host s text audience permission key there named
            ∙ (granted-Required env platform_host text audience permission s).at (api_key g) s'
                (sym (verify-none env platform_host s text audience permission key there) ∙ ran) g
                refl (scope has),
        is,
      ),
  λ g s' ran pairs.
      let (granted, scope) =
        (required-Granted env platform_host text audience permission s).at (api_key g) s'
          (sym (verify-some env platform_host s text audience permission key there named) ∙ ran) g
          refl in
      let (_, same) = has_permission-has_scope g.scopes permission in
      (
        unwrapped env platform_host s h client header net scheme
            ∙ passes h client header g s' (
                delivered env platform_host s h client header net
                ∙ ap (λ (o : Outcome Verdict). answered (respond_with o))
                    (verify-none env platform_host s text audience permission key there ∙ granted)),
        (permission_passes g permission).1 (same pairs ∙ scope),
      ),
)
  where
    text : String
    text = credential header

    audience : String
    audience = client.config.client_id

    answer : Outcome Verdict
    answer = verify env platform_host (asked_of (credential header) client.config.client_id) s

-- ===== src/Sdk/Availability.antt =====
-- sdk/auth-client.ts: a request is turned away as unauthenticated only on a verdict, never for want of
-- an answer, and is let through only on one.
use text.Mathlib.Text.{starts_with}
use identity_platform.Text.Words.{
  IsCredential, starts_with-IsCredential, IsCredential-starts_with, has_no_space-NoSpace,
}
use identity_platform.Prelude.{
  ℕ, ◌≤◌, String, Bool, true, false, ◌&&◌, ◌||◌, Option, none, some, List, [], ◌∷◌, length, get_or,
  append, ◌≡◌, ◌∙◌, ◌⊎◌, inl, inr, refl, sym, ap, arith, if◌then◌else◌, Bool-cases, Option-cases,
  is_some, leb, ltb, ◌==◌,
}
use identity_platform.Sdk.{
  AuthUser, AuthJwtPayload, user_principal, machine_principal, VerifiedKey, VerifyResponse, Json,
  FetchResponse, FetchResult, answered, unreachable, aborted, SdkRequest, JoseResult, verified,
  rejected, SdkHost, AuthClient, SdkFailure, api_error, transport_error, abort_error, plain_error,
  ok, failed, Sdk,
}
use identity_platform.Sdk.Network.{
  return, is_ok, to_api_error, parse_json, platform_fetch, request_to, as_verification, auth_user,
  verify_remote,
}
use identity_platform.Sdk.Middleware.{
  Passed, Handled, next, respond, respond_platform_unavailable, credential, is_jwks_unavailable,
  machine_of, is_legacy, judged, judge_user, judge_key, require_auth_with, require_auth,
  require_api_key, require_principal, pass_user, text_or,
}

module _ (h : SdkHost) (client : AuthClient) where
  -- The request of a remote verification.
  abbrev pub question : String → String → SdkRequest
  question name text =
      request_to h client "/auth/verify" none
        ((name, text) ∷ ("audience", client.config.client_id) ∷ [])

  -- The platform answered this verification, with a status that is ok.
  pub record IsTold (name text : String) (v : VerifyResponse) : Type 0 where
    pub response : FetchResponse
    pub json : Json
    pub sent : h.fetch (question name text) ≡ answered response
    pub accepted : is_ok response ≡ true
    pub parsed : response.body ≡ some json
    pub read : as_verification h client json ≡ v

  -- No verdict came: no response, one with an error's status, or one that is no JSON.
  abbrev pub NoAnswer : String → String → Type 0
  NoAnswer name text =
      (h.fetch (question name text) ≡ unreachable)
      ⊎ (h.fetch (question name text) ≡ aborted)
      ⊎ ((response : FetchResponse) × (h.fetch (question name text) ≡ answered response)
          × ((is_ok response ≡ false) ⊎ (response.body ≡ none)))

  -- One request, and its verdict or a failure.
  pub data Asked (name text : String) : Type 0 where
    verdict :
        (v : VerifyResponse)
        → IsTold name text v
        → verify_remote h client name text none false
          ≡ record { result = ok v; requests = question name text ∷ [] }
        → Asked name text
    no_verdict :
        (e : SdkFailure)
        → NoAnswer name text
        → verify_remote h client name text none false
          ≡ record { result = failed e; requests = question name text ∷ [] }
        → Asked name text

  pub ask :
      (name text : String) (r : FetchResult) → h.fetch (question name text) ≡ r → Asked name text
  unfolding verify_remote platform_fetch parse_json
  ask name text unreachable e =
      no_verdict (transport_error "Request to the identity platform failed or timed out") (inl e)
        (rw e refl)
  ask name text aborted e =
      no_verdict (transport_error "Request to the identity platform failed or timed out")
        (inr (inl e)) (rw e refl)
  ask name text (answered res) e = elim (Bool-cases (is_ok res)) [
    | inr refused ↦
        no_verdict (to_api_error res "Verification failed") (inr (inr (res, e, inl refused)))
          (rw (e, refused) refl)
    | inl accepted ↦ elim (Option-cases res.body) [
      | inl malformed ↦
          no_verdict (transport_error "The identity platform returned a malformed response")
            (inr (inr (res, e, inr malformed))) (rw (e, accepted, malformed) refl)
      | inr (json, parsed) ↦
          verdict (as_verification h client json)
            (record {
              response = res;
              json = json;
              sent = e;
              accepted = accepted;
              parsed = parsed;
              read = refl;
            })
            (rw (e, accepted, parsed) refl)
    ]
  ]

abbrev pub names_user : VerifyResponse → Bool
names_user v = v.valid && is_some v.user

abbrev pub names_key : VerifyResponse → Bool
names_key v = v.valid && is_some v.api_key

pub unavailable :
    (e : SdkFailure)
    → (text : String) × (status : ℕ) × (respond_platform_unavailable e ≡ respond status text)
      × ((status ≡ 502) ⊎ (status ≡ 503))
unfolding respond_platform_unavailable
unavailable (api_error e) =
    elim (Bool-cases
      (leb 400 e.status && (ltb e.status 500 && (if e.status == 429 then false else true)))) [
        | inl refusal ↦
            ("Identity platform rejected the verification request", 502, rw refusal refl, inl refl)
        | inr other ↦ ("Identity platform unavailable", 503, rw other refl, inr refl)
      ]
unavailable (transport_error t) = ("Identity platform unavailable", 503, refl, inr refl)
unavailable abort_error = ("Identity platform unavailable", 503, refl, inr refl)
unavailable (plain_error t) = ("Identity platform unavailable", 503, refl, inr refl)

-- What a user's request carries on.
abbrev pub as_user : AuthUser → Passed
as_user u = record { user = some u; principal = some (user_principal u) }

-- The request's header is `<scheme> <text>`, perhaps with more words.
abbrev pub Presents : String → Option String → String → Type 0
Presents scheme authorization text =
    (header : String) × (authorization ≡ some header) × IsCredential scheme header text

module _ (h : SdkHost) (client : AuthClient) (authorization : Option String) where
  -- Who may pass: the header's token verifies locally, or the platform, asked about the credential of
  -- the header, named the user or the key.
  abbrev pub IsVouched : Passed → Type 0
  IsVouched p =
      ((token : String) × (payload : AuthJwtPayload) × Presents "Bearer" authorization token
        × (h.jwt_verify client.issuer client.config.client_id token ≡ verified payload)
        × (p ≡ as_user (auth_user h client payload)))
      ⊎ ((token : String) × (v : VerifyResponse) × (u : AuthUser) × Presents "Bearer" authorization
            token
          × IsTold h client "token" token v
          × (v.valid ≡ true)
          × (v.user ≡ some u)
          × (p ≡ as_user u))
      ⊎ ((text : String) × (v : VerifyResponse) × (k : VerifiedKey) × Presents "ApiKey"
            authorization text
          × IsTold h client "apiKey" text v
          × (v.valid ≡ true)
          × (v.api_key ≡ some k)
          × (p ≡ record { user = none; principal = some (machine_principal (machine_of k)) }))

  -- The platform's verdict against the credential of the header.
  abbrev pub IsDenied : Type 0
  IsDenied =
      ((token : String) × (v : VerifyResponse) × Presents "Bearer" authorization token
        × IsTold h client "token" token v
        × (names_user v ≡ false))
      ⊎ ((text : String) × (v : VerifyResponse) × Presents "ApiKey" authorization text
          × IsTold h client "apiKey" text v
          × (names_key v ≡ false))

  -- No credential of either scheme, or a token that does not verify locally.
  abbrev pub IsRefused : Type 0
  IsRefused =
      (((text : String) → Presents "Bearer" authorization text → ⊥)
        × ((text : String) → Presents "ApiKey" authorization text → ⊥))
      ⊎ ((token : String) × (code : Option String) × Presents "Bearer" authorization token
          × (h.jwt_verify client.issuer client.config.client_id token ≡ rejected code))

  -- Asked about the credential of the header, the platform gave no verdict.
  abbrev pub IsUnanswered : Type 0
  IsUnanswered =
      ((token : String) × Presents "Bearer" authorization token × NoAnswer h client "token" token)
      ⊎ ((text : String) × Presents "ApiKey" authorization text × NoAnswer h client "apiKey" text)

  abbrev pub IsJustified : List SdkRequest → Handled → Type 0
  IsJustified requests (next p) = IsVouched p
  IsJustified requests (respond status text) =
      ((status ≡ 401) × (((requests ≡ []) × IsRefused) ⊎ IsDenied))
      ⊎ (((status ≡ 502) ⊎ (status ≡ 503)) × IsUnanswered)

  -- A middleware answers, whatever happens, after one request at most.
  pub record Justified (m : Sdk Handled) : Type 0 where
    pub handled : Handled
    pub answers : m.result ≡ ok handled
    pub few : length m.requests ≤ 1
    pub justified : IsJustified m.requests handled

  unanswered :
      (name text : String) (e : SdkFailure) (without : IsUnanswered)
      (judge : VerifyResponse → Handled)
      → verify_remote h client name text none false
        ≡ record { result = failed e; requests = question h client name text ∷ [] }
      → Justified (judged (verify_remote h client name text none false) judge)
  unanswered name text e without judge ran =
      let (reason, status, is, which) = unavailable e in
      record {
        handled = respond status reason;
        answers = rw (ran, is) refl;
        few = rw ran (omega arith);
        justified = inr (which, without);
      }

  user_verdict :
      (token : String) (v : VerifyResponse) (o : Option AuthUser)
      → Presents "Bearer" authorization token
      → v.user ≡ o
      → IsTold h client "token" token v
      → (handled : Handled) × (judge_user v o ≡ handled)
        × IsJustified (question h client "token" token ∷ []) handled
  user_verdict token v none by e t = (
    respond 401 (text_or v.error "Invalid token"),
    refl,
    inl (refl, inr (inl (token, v, by, t, ground (arith, e)))),
  )
  user_verdict token v (some x) by e t = elim (Bool-cases v.valid) [
    | inl valid ↦ (
      pass_user x,
      ap (λ b. if b then pass_user x else respond 401 (text_or v.error "Invalid token")) valid,
      inr (inl (token, v, x, by, t, valid, e, refl)),
    )
    | inr invalid ↦ (
      respond 401 (text_or v.error "Invalid token"),
      ap (λ b. if b then pass_user x else respond 401 (text_or v.error "Invalid token")) invalid,
      inl (refl, inr (inl (token, v, by, t, ground (arith, invalid)))),
    )
  ]

  judge_user-Justified :
      (token : String)
      → Presents "Bearer" authorization token
      → Asked h client "token" token
      → Justified
          (judged (verify_remote h client "token" token none false) (λ v. judge_user v v.user))
  judge_user-Justified token by (verdict v t ran) =
      let (handled, is, justified) = user_verdict token v v.user by refl t in
      record {
        handled = handled;
        answers = rw ran (ap ok is);
        few = rw ran (omega arith);
        justified = rw ran justified;
      }
  judge_user-Justified token by (no_verdict e lost ran) =
      unanswered "token" token e (inl (token, by, lost)) _ ran

  key_verdict :
      (token : String) (v : VerifyResponse) (o : Option VerifiedKey)
      → Presents "ApiKey" authorization token
      → v.api_key ≡ o
      → IsTold h client "apiKey" token v
      → (handled : Handled) × (judge_key v o ≡ handled)
        × IsJustified (question h client "apiKey" token ∷ []) handled
  key_verdict token v none by e t = (
    respond 401 (text_or v.error "Invalid API key"),
    refl,
    inl (refl, inr (inr (token, v, by, t, ground (arith, e)))),
  )
  key_verdict token v (some x) by e t = elim (Bool-cases v.valid) [
    | inl valid ↦ (
      next (record { user = none; principal = some (machine_principal (machine_of x)) }),
      ap
          (λ b.
            if b
            then next (record { user = none; principal = some (machine_principal (machine_of x)) })
            else respond 401 (text_or v.error "Invalid API key"))
          valid,
      inr (inr (token, v, x, by, t, valid, e, refl)),
    )
    | inr invalid ↦ (
      respond 401 (text_or v.error "Invalid API key"),
      ap
          (λ b.
            if b
            then next (record { user = none; principal = some (machine_principal (machine_of x)) })
            else respond 401 (text_or v.error "Invalid API key"))
          invalid,
      inl (refl, inr (inr (token, v, by, t, ground (arith, invalid)))),
    )
  ]

  judge_key-Justified :
      (token : String)
      → Presents "ApiKey" authorization token
      → Asked h client "apiKey" token
      → Justified
          (judged (verify_remote h client "apiKey" token none false) (λ v. judge_key v v.api_key))
  judge_key-Justified token by (verdict v t ran) =
      let (handled, is, justified) = key_verdict token v v.api_key by refl t in
      record {
        handled = handled;
        answers = rw ran (ap ok is);
        few = rw ran (omega arith);
        justified = rw ran justified;
      }
  judge_key-Justified token by (no_verdict e lost ran) =
      unanswered "apiKey" token e (inr (token, by, lost)) _ ran

  answer_now :
      (status : ℕ) (text : String)
      → status ≡ 401
      → IsRefused
      → Justified (return (respond status text))
  answer_now status text e why = record {
    handled = respond status text;
    answers = refl;
    few = omega arith;
    justified = inl (e, inl (refl, why));
  }

  pass_now :
      (u : AuthUser)
      → IsVouched (record { user = some u; principal = some (user_principal u) })
      → Justified (return (pass_user u))
  pass_now u vouched = record {
    handled = pass_user u;
    answers = refl;
    few = omega arith;
    justified = vouched;
  }

  require_auth_with-Justified :
      (token : String) (r : JoseResult)
      → Presents "Bearer" authorization token
      → h.jwt_verify client.issuer client.config.client_id token ≡ r
      → Justified (require_auth_with h client token)
  unfolding require_auth_with
  require_auth_with-Justified token (verified payload) by e =
      rw (e, require_auth_with)
        (pass_now (auth_user h client payload) (inl (token, payload, by, e, refl)))
  require_auth_with-Justified token (rejected code) by e =
      elim (Bool-cases (is_legacy h client token || is_jwks_unavailable (get_or code ""))) [
        | inl remote ↦
            rw (e, require_auth_with, remote)
              (judge_user-Justified token by (ask h client "token" token _ refl))
        | inr final ↦
            rw (e, require_auth_with, final)
              (answer_now 401 "Invalid token" refl (inr (token, code, by, e)))
      ]

  require_auth-Justified :
      (o : Option String)
      → authorization ≡ o
      → starts_with (get_or o "") "Bearer " ≡ true
      → Justified (require_auth h client o)
  unfolding require_auth
  require_auth-Justified none e starts = absurd (cc (starts))
  require_auth-Justified (some header) e starts =
      let plain = has_no_space-NoSpace "Bearer" refl in
      rw starts (
        require_auth_with-Justified (credential header) _
          (header, e, starts_with-IsCredential "Bearer" header plain starts) refl)

  require_api_key-Justified :
      (o : Option String)
      → authorization ≡ o
      → starts_with (get_or o "") "ApiKey " ≡ true
      → Justified (require_api_key h client o)
  unfolding require_api_key
  require_api_key-Justified none e starts = absurd (cc (starts))
  require_api_key-Justified (some header) e starts =
      let plain = has_no_space-NoSpace "ApiKey" refl in
      rw starts (
        judge_key-Justified (credential header)
          (header, e, starts_with-IsCredential "ApiKey" header plain starts)
          (ask h client "apiKey" (credential header) _ refl))

-- Nothing of a scheme is presented where the header does not start with it.
unpresented :
    (scheme : String) (authorization : Option String)
    → starts_with (get_or authorization "") (append scheme " ") ≡ false
    → (text : String) → Presents scheme authorization text
    → ⊥
unpresented scheme authorization other text (header, e, is) =
    let starts = IsCredential-starts_with scheme header text is in
    let same : starts_with (get_or authorization "") (append scheme " ") ≡ true =
      ap (λ o. starts_with (get_or o "") (append scheme " ")) e ∙ starts in
    cc (sym same ∙ other)

-- `requirePrincipal` always answers or goes on, with at most one request to the platform. It goes on
-- only where the header's token verifies locally, or where the platform, asked about the credential
-- in the header, names it in a valid verdict. It answers 401 only on the platform's verdict against
-- this credential or, without having asked, for a header of neither scheme or a token that does not
-- verify locally; any other answer is 502 or 503, and only where the platform gave no verdict.
pub require_principal-Justified :
    (h : SdkHost) (client : AuthClient) (authorization : Option String)
    → Justified h client authorization (require_principal h client authorization)
unfolding require_principal
require_principal-Justified h client authorization =
    elim (Bool-cases (starts_with (get_or authorization "") "Bearer ")) [
      | inl bearer ↦
          rw bearer (require_auth-Justified h client authorization authorization refl bearer)
      | inr other ↦ elim (Bool-cases (starts_with (get_or authorization "") "ApiKey ")) [
        | inl key ↦
            rw (other, key)
              (require_api_key-Justified h client authorization authorization refl key)
        | inr neither ↦
            rw (other, neither)
              (answer_now h client authorization 401
                "Invalid authorization scheme. Use: Bearer <jwt> or ApiKey <key>" refl
                (inl (
                  unpresented "Bearer" authorization other,
                  unpresented "ApiKey" authorization neither,
                )))
      ]
    ]

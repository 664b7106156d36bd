-- ===== src/Authenticate/Header.antt =====
-- middleware/authenticate.ts: the header `ApiKey <key>` is read as it is written.
use Prim.Native.String.{count as text_length}
use text.Mathlib.TextLemmas.{length-append, append_assoc}
use identity_platform.Prelude.{
  String, false, some, [], ◌∷◌, ◌≡◌, refl, ap, ◌∙◌, arith, inl, inr, append, str_eq, eq_iff,
  Bool-cases,
}
use identity_platform.Text.{split}
use identity_platform.Text.Words.{NoSpace, has_no_space-NoSpace, split-word, split-words}
use identity_platform.Exec.{Env, Host, Request, State}
use identity_platform.Authenticate.{scheme_and_token, authenticate_with, authenticate}

key_header_nonempty : (text : String) → str_eq (append "ApiKey " text) "" ≡ false
key_header_nonempty text = elim (Bool-cases (str_eq (append "ApiKey " text) "")) [
  | inl blank ↦ absurd (
      omega (
        arith,
        ap text_length ((eq_iff (append "ApiKey " text) "").0 blank),
        length-append "ApiKey " text,
      ))
  | inr other ↦ other
]

scheme_and_token-key :
    (text : String)
    → NoSpace text
    → scheme_and_token (split " " (append "ApiKey " text)) ≡ ("ApiKey", text)
scheme_and_token-key text plain =
    let words : split " " (append "ApiKey " text) ≡ "ApiKey" ∷ text ∷ [] =
      ap (split " ") (append_assoc "ApiKey" " " text)
      ∙ split-words "ApiKey" text (has_no_space-NoSpace "ApiKey" refl)
      ∙ ap (λ ws. "ApiKey" ∷ ws) (split-word text plain) in
    rw words refl

pub authenticate-authenticate_with :
    (env : Env) (h : Host) (req : Request) (text : String) (s : State)
    → NoSpace text
    → authenticate env h (record req { authorization = some (append "ApiKey " text) }) s
      ≡ authenticate_with env h "ApiKey" text s
unfolding authenticate
authenticate-authenticate_with env h req text s plain =
    rw (key_header_nonempty text, scheme_and_token-key text plain) refl

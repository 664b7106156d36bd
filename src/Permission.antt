-- ===== src/Permission.antt =====
-- services/apiKey.ts (`hasScope`), middleware/authorize.ts and the check of routes/verify.ts: who
-- may do what. A permission is a text such as "users:read".
pub mod Matching
pub mod Checks
use identity_platform.Prelude.{
  String, Bool, true, false, ◌&&◌, ◌||◌, Option, none, some, List, [], ◌∷◌, any, str_eq, ℕ, append,
  if◌then◌else◌,
}
use identity_platform.Text.{split}
use identity_platform.Errors.{Failure, unauthorized, forbidden}

-- `const [resource, action] = text.split(":")`; a part that is not there is undefined.
pub record Parts : Type 0 where
  pub resource : String
  pub action : Option String

abbrev pub parts_of : List String → Parts
parts_of [] = record { resource = ""; action = none }
parts_of (r ∷ []) = record { resource = r; action = none }
parts_of (r ∷ a ∷ _) = record { resource = r; action = some a }

unfoldable pub parts : String → Parts
unfolding split
parts text = parts_of (split ":" text)

-- `action === "*"`
abbrev pub is_star : Option String → Bool
is_star none = false
is_star (some a) = str_eq a "*"

-- One round of `hasScope`.
unfoldable pub scope_covers : String → String → Bool
scope_covers required scope =
    str_eq scope "*"
    || (str_eq scope required
        || (str_eq (parts scope).resource (parts required).resource
            && is_star (parts scope).action))

unfoldable pub has_scope : List String → String → Bool
has_scope granted required = any (scope_covers required) granted

-- `list.includes(text)`
abbrev pub includes : List String → String → Bool
includes list text = any (λ t. str_eq t text) list

-- The check of a user's permissions, in `requirePermission` and in `POST /auth/verify`.
unfoldable pub has_permission : List String → String → Bool
has_permission perms permission =
    includes perms "*"
    || (includes perms permission || includes perms (append (parts permission).resource ":*"))

-- `req.user` and `req.apiKey`, as `authenticate` leaves them.
pub record UserClaims : Type 0 where
  pub sub : ℕ
  pub cid : ℕ
  pub email : String
  pub permissions : List String

pub record KeyClaims : Type 0 where
  pub id : ℕ
  pub client_id : ℕ
  pub scopes : List String
  pub service_account_id : Option ℕ
  pub service_account_name : Option String

pub data Principal : Type 0 where
  bearer : UserClaims → Principal
  key : KeyClaims → Principal
  nobody : Principal

-- `none` is a call of `next()`.
unfoldable pub require_permission : String → Principal → Option Failure
require_permission permission (bearer u) =
    if has_permission u.permissions permission
    then none
    else some
        (forbidden (append "Missing permission: " permission) (some "INSUFFICIENT_PERMISSIONS"))
require_permission permission (key k) =
    if has_scope k.scopes permission
    then none
    else some (forbidden (append "API key missing scope: " permission) (some "INSUFFICIENT_SCOPE"))
require_permission permission nobody = some (unauthorized "Authentication required" none)

-- `permissions.join(", ")`
abbrev pub join : List String → String
join [] = ""
join (p ∷ []) = p
join (p ∷ q ∷ ps) = append p (append ", " (join (q ∷ ps)))

-- The loop of `requireAnyPermission`: the first that passes wins.
unfoldable pub passes_any : List String → Principal → Bool
passes_any [] p = false
passes_any (perm ∷ perms) p = elim (require_permission perm p) [
  | none ↦ true
  | some _ ↦ passes_any perms p
]

unfoldable pub require_any_permission : List String → Principal → Option Failure
require_any_permission perms p =
    if passes_any perms p
    then none
    else some
        (forbidden (append "Requires one of: " (join perms)) (some "INSUFFICIENT_PERMISSIONS"))

-- ===== src/Examples/Permissions.antt =====
-- Scopes and permissions.
use identity_platform.Prelude.{
  ◌≡◌, refl, ◌↔◌, String, true, none, some, List, [], ◌∷◌, Some, All, ◌⊎◌, false,
}
use identity_platform.Errors.{Failure, forbidden, error_handler}
use identity_platform.Permission.{
  scope_covers, parts, KeyClaims, UserClaims, has_scope, has_permission, require_any_permission,
  require_permission, bearer, key, nobody,
}
use identity_platform.Permission.Matching.{Covers, has_scope_iff}
use identity_platform.Permission.Checks.{
  IsPair, has_permission-has_scope, require_any_permission_iff, require_permission_refusal,
}

abbrev granted : List String
granted = "roles:read" ∷ "users:*" ∷ []

has_scope_iff_example :
    (has_scope granted "users:write" ≡ true) ↔ Some (Covers "users:write") granted
has_scope_iff_example = has_scope_iff granted "users:write"

has_permission-has_scope_example :
    (has_permission granted "users:write" ≡ true → has_scope granted "users:write" ≡ true)
    × (All IsPair granted → has_permission granted "users:write" ≡ has_scope granted "users:write")
has_permission-has_scope_example = has_permission-has_scope granted "users:write"

require_any_permission_iff_example :
    ((require_any_permission granted nobody ≡ none)
      ↔ Some (λ perm. require_permission perm nobody ≡ none) granted)
    × ((e : Failure)
        → require_any_permission granted nobody ≡ some e
        → (error_handler e).status ≡ 403)
require_any_permission_iff_example = require_any_permission_iff granted nobody

-- A key that may only read users.
abbrev reader : KeyClaims
reader = record {
  id = 50;
  client_id = 10;
  scopes = "users:read" ∷ [];
  service_account_id = none;
  service_account_name = none;
}

abbrev refused_key : Failure
refused_key = forbidden "API key missing scope: users:write" (some "INSUFFICIENT_SCOPE")

require_permission_refusal_example :
    ((key reader ≡ nobody) × ((error_handler refused_key).status ≡ 401))
    ⊎ ((u : UserClaims) × (key reader ≡ bearer u)
        × (has_permission u.permissions "users:write" ≡ false)
        × ((error_handler refused_key).status ≡ 403)
        × ((error_handler refused_key).code ≡ some "INSUFFICIENT_PERMISSIONS"))
    ⊎ ((k : KeyClaims) × (key reader ≡ key k)
        × (has_scope k.scopes "users:write" ≡ false)
        × ((error_handler refused_key).status ≡ 403)
        × ((error_handler refused_key).code ≡ some "INSUFFICIENT_SCOPE"))
unfolding require_permission has_scope scope_covers parts
require_permission_refusal_example =
    require_permission_refusal "users:write" (key reader) refused_key refl

-- ===== src/Permission/Checks.antt =====
-- middleware/authorize.ts and routes/verify.ts against services/apiKey.ts: users' permissions and
-- keys' scopes are checked by different code.
use Prim.Native.String.{String}
use identity_platform.Prelude.{
  ◌≡◌, refl, sym, ◌∙◌, ◌⊎◌, inl, inr, ◌↔◌, Bool, true, false, ◌||◌, none, some, append, arith, Some,
  All, any, eq_iff, str_eq, List, [], ◌∷◌,
}
use identity_platform.Errors.{Failure, error_handler}
use identity_platform.Permission.{
  parts, is_star, scope_covers, has_scope, has_permission, Principal, UserClaims, KeyClaims, bearer,
  key, nobody, require_permission, passes_any, require_any_permission,
}
use identity_platform.Permission.Matching.{
  NoColon, scope_covers_iff, parts-pair, parts-plain, resource-StartsWithPart,
}

-- A permission as `getUserPermissions` writes it, from a resource and an action without colons;
-- or the star.
abbrev pub IsPair : String → Type 0
IsPair s =
    (s ≡ "*")
    ⊎ ((r : String) × (a : String) × NoColon r × NoColon a × (s ≡ append r (append ":" a)))

-- One entry of a user's permissions against a required one.
abbrev hit : String → String → Bool
hit p s = str_eq s "*" || (str_eq s p || str_eq s (append (parts p).resource ":*"))

has_permission-any : (perms : List String) (p : String) → has_permission perms p ≡ any (hit p) perms
unfolding has_permission
has_permission-any [] p = refl
has_permission-any (s ∷ perms) p = ground (arith, has_permission-any perms p)

pair_star :
    (s p : String)
    → IsPair s
    → (parts s).resource ≡ (parts p).resource
    → is_star (parts s).action ≡ true
    → (s ≡ "*") ⊎ (s ≡ append (parts p).resource ":*")
pair_star s p (inl e) _ _ = inl e
pair_star s p (inr (r, a, pr, pa, e)) same star =
    let whole = parts-pair r a pr in
    let same' : r ≡ (parts p).resource = rw (e, whole) at same in
    let star' : is_star (some a) ≡ true = rw (e, whole, parts-plain a pa) at star in
    inr (rw (e, ← same', (eq_iff a "*").0 star'))

wildcard-scope_covers :
    (p s : String) → s ≡ append (parts p).resource ":*" → scope_covers p s ≡ true
wildcard-scope_covers p s e =
    let (plain, starts) = resource-StartsWithPart p in
    (scope_covers_iff p s).1 (
      inr (
        inr (record {
          resource = (parts p).resource;
          rest = "*";
          plain = plain;
          scope_eq = e;
          star = inl refl;
          covered = starts;
        })))

hit-scope_covers : (p s : String) → hit p s ≡ true → scope_covers p s ≡ true
unfolding scope_covers
hit-scope_covers p s h =
    ground (arith, eq_iff s (append (parts p).resource ":*"), wildcard-scope_covers p s)

scope_covers-hit : (p s : String) → IsPair s → scope_covers p s ≡ true → hit p s ≡ true
unfolding scope_covers
scope_covers-hit p s w h = ground (
  arith,
  eq_iff s "*",
  eq_iff (parts s).resource (parts p).resource,
  eq_iff s (append (parts p).resource ":*"),
  pair_star s p w,
)

has_permission-has_scope-any :
    (perms : List String) (p : String) → any (hit p) perms ≡ true → has_scope perms p ≡ true
unfolding has_scope
has_permission-has_scope-any [] p h = cc
has_permission-has_scope-any (s ∷ perms) p h =
    ground (arith, hit-scope_covers p s, has_permission-has_scope-any perms p)

has_scope-has_permission-any :
    (perms : List String) (p : String)
    → All IsPair perms
    → has_scope perms p ≡ true
    → any (hit p) perms ≡ true
unfolding has_scope
has_scope-has_permission-any [] p w h = cc
has_scope-has_permission-any (s ∷ perms) p (w, ws) h =
    ground (arith, scope_covers-hit p s w, has_scope-has_permission-any perms p ws)

-- What the check of users grants, the check of keys grants on the same list; on a list of stars and
-- of pairs without further colons, as the platform's catalogs make them, the two agree.
pub has_permission-has_scope :
    (perms : List String) (p : String)
    → (has_permission perms p ≡ true → has_scope perms p ≡ true)
      × (All IsPair perms → has_permission perms p ≡ has_scope perms p)
has_permission-has_scope perms p =
    let e = has_permission-any perms p in
    let to : has_permission perms p ≡ true → has_scope perms p ≡ true =
      λ h. has_permission-has_scope-any perms p (sym e ∙ h) in
    let from : All IsPair perms → has_scope perms p ≡ true → has_permission perms p ≡ true =
      λ w h. e ∙ has_scope-has_permission-any perms p w h in
    (to, λ w. ground (arith, from w))

passes_any_iff :
    (perms : List String) (p : Principal)
    → (passes_any perms p ≡ true) ↔ Some (λ perm. require_permission perm p ≡ none) perms
unfolding passes_any
passes_any_iff [] p = ground arith
passes_any_iff (perm ∷ perms) p = ground (arith, passes_any_iff perms p)

-- `requireAnyPermission` calls `next` exactly when `requirePermission` would for one of the listed
-- permissions, and otherwise answers 403.
pub require_any_permission_iff :
    (perms : List String) (p : Principal)
    → ((require_any_permission perms p ≡ none)
        ↔ Some (λ perm. require_permission perm p ≡ none) perms)
      × ((e : Failure) → require_any_permission perms p ≡ some e → (error_handler e).status ≡ 403)
unfolding require_any_permission error_handler
require_any_permission_iff perms p = (ground (arith, passes_any_iff perms p), λ e h. ground arith)

-- Nobody passes without authentication: 401. A user or a key that lacks the permission gets 403,
-- under a code that tells which of the two it was.
pub require_permission_refusal :
    (permission : String) (p : Principal) (e : Failure)
    → require_permission permission p ≡ some e
    → ((p ≡ nobody) × ((error_handler e).status ≡ 401))
      ⊎ ((u : UserClaims) × (p ≡ bearer u)
          × (has_permission u.permissions permission ≡ false)
          × ((error_handler e).status ≡ 403)
          × ((error_handler e).code ≡ some "INSUFFICIENT_PERMISSIONS"))
      ⊎ ((k : KeyClaims) × (p ≡ key k)
          × (has_scope k.scopes permission ≡ false)
          × ((error_handler e).status ≡ 403)
          × ((error_handler e).code ≡ some "INSUFFICIENT_SCOPE"))
unfolding require_permission error_handler
require_permission_refusal permission (bearer u) e h =
    inr (inl (u, refl, ground arith, ground arith, ground arith))
require_permission_refusal permission (key k) e h =
    inr (inr (k, refl, ground arith, ground arith, ground arith))
require_permission_refusal permission nobody e h = inl (refl, ground arith)

-- ===== src/Admin.antt =====
-- How the handlers under routes/ that administer a client begin and end: `authenticate`,
-- `requirePermission` and the audit event of the acting principal.
pub mod Ids
use identity_platform.Prelude.{
  ℕ, String, Bool, true, false, ◌&&◌, ◌+◌, ◌*◌, Option, none, some, List, [], ◌∷◌, map, select,
  length, any, leb, ◌==◌, if◌then◌else◌,
}
use identity_platform.Errors.{Failure}
use identity_platform.Schema.{ActorType}
use identity_platform.Exec.{Host, Env, Request, Exec, pure, throw, ◌>>=◌, ◌>>◌}
use identity_platform.Permission.{Principal, require_permission}
use identity_platform.Authenticate.{authenticate}
use identity_platform.Audit.{AuditEvent, audit_actor}

-- A middleware's answer: `none` is a call of `next()`.
abbrev pub allow : Option Failure → Exec (Unit {0})
allow none = pure tt
allow (some e) = throw e

-- `router.use(authenticate)` and `requirePermission(permission)`.
unfoldable pub permitted : Env → Host → Request → String → Exec Principal
permitted env h req permission = do
  principal ← authenticate env h req
  allow (require_permission permission principal)
  pure principal

-- `{clientId, action, ...auditActor(req), targetId}`
abbrev pub by_principal : Principal → ℕ → String → ℕ → AuditEvent
by_principal principal client_id action target_id = record {
  client_id = client_id;
  action = action;
  actor_type = (audit_actor principal).0;
  actor_id = (audit_actor principal).1;
  target_id = some target_id;
}

-- `z.array(z.string().uuid())`: an entry is `none` where it is no UUID.
abbrev pub uuids : List (Option ℕ) → Option (List ℕ)
uuids [] = some []
uuids (none ∷ ids) = none
uuids (some id ∷ ids) = elim (uuids ids) [ none ↦ none | some rest ↦ some (id ∷ rest) ]

-- `.optional()`
abbrev pub optional_uuids : Option (List (Option ℕ)) → Option (List ℕ)
optional_uuids none = some []
optional_uuids (some ids) = uuids ids

-- `inArray(id, ids)`
abbrev pub has_id : List ℕ → ℕ → Bool
has_id ids id = any (λ i. i == id) ids

-- `[...new Set(ids)]`
abbrev pub distinct : List ℕ → List ℕ
distinct [] = []
distinct (id ∷ ids) = id ∷ select (λ i. if i == id then false else true) (distinct ids)

-- `ids.length > 0`
abbrev pub is_empty : {A : Type 0} → List A → Bool
is_empty [] = true
is_empty (x ∷ xs) = false

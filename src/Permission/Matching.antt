-- ===== src/Permission/Matching.antt =====
-- services/apiKey.ts: when a scope covers a required permission, told by the texts themselves.
use Prim.Native.Char.{Char, code}
use Prim.Native.String.{String, [], ◌∷◌}
use mathlib.Core.List
use text.Mathlib.TextEquality.{Char-path}
use text.Mathlib.TextLemmas.{nil-append, cons-append}
use identity_platform.Prelude.{
  ◌==◌, ==_iff, Bool-cases, ◌≡◌, refl, sym, ap, subst, eq_refl, ◌∙◌, ◌≢◌, ◌⊎◌, inl, inr, ◌↔◌, true,
  none, some, append, arith, Some, eq_iff,
}
use identity_platform.Text.{split}
use identity_platform.Permission.{Parts, parts_of, parts, is_star, scope_covers, has_scope}

-- Texts without a colon.
abbrev pub NoColon : String → Type 0
NoColon [] = Unit {0}
NoColon (c ∷ s) = (code c ≢ b':') × NoColon s

-- The text is the part alone, or goes on with a colon.
abbrev pub StartsWithPart : String → String → Type 0
StartsWithPart r t = (t ≡ r) ⊎ ((u : String) × (t ≡ append r (append ":" u)))

-- What splitting at colons says of the first two parts.
data Split (t : String) : Parts → Type 0 where
  whole : NoColon t → Split t (record { resource = t; action = none })
  pair :
      (r u : String)
      → NoColon r
      → t ≡ append r (append ":" u)
      → Split t (record { resource = r; action = some (parts u).resource })

colon-cons : (u : String) → append ":" u ≡ ":" ∷ u
colon-cons u = cons-append ":" [] u ∙ ap (λ s. ":" ∷ s) (nil-append u)

split-cons : (s : String) → (r : String) × (rs : List.List String) × (split ":" s ≡ List.◌∷◌ r rs)
unfolding split
split-cons [] = ([], List.[], refl)
split-cons (c ∷ s) =
    let (r, rs, e) = split-cons s in
    elim (Bool-cases (code c == b':')) [
      | inl hit ↦ ([], List.◌∷◌ r rs, rw (hit, e))
      | inr miss ↦ (c ∷ r, rs, rw (miss, e))
    ]

parts-colon :
    (c : Char) (s : String)
    → code c ≡ b':'
    → parts (c ∷ s) ≡ record { resource = []; action = some (parts s).resource }
unfolding parts
parts-colon c s h =
    let (r, rs, e) = split-cons s in rw (e, (==_iff (code c) b':').1 h) (first_part r rs)
  where
    first_part :
        (r : String) (rs : List.List String)
        → parts_of (List.◌∷◌ [] (List.◌∷◌ r rs))
          ≡ record { resource = []; action = some (parts_of (List.◌∷◌ r rs)).resource }
    first_part r List.[] = refl
    first_part r (List.◌∷◌ _ _) = refl

parts-other :
    (c : Char) (s : String)
    → code c ≢ b':'
    → parts (c ∷ s) ≡ record { resource = c ∷ (parts s).resource; action = (parts s).action }
unfolding parts
parts-other c s h =
    let (r, rs, e) = split-cons s in
    elim (Bool-cases (code c == b':')) [
      | inl hit ↦ absurd (h ((==_iff (code c) b':').0 hit))
      | inr miss ↦ rw (e, miss) (longer r rs)
    ]
  where
    longer :
        (r : String) (rs : List.List String)
        → parts_of (List.◌∷◌ (c ∷ r) rs) ≡ record {
          resource = c ∷ (parts_of (List.◌∷◌ r rs)).resource;
          action = (parts_of (List.◌∷◌ r rs)).action;
        }
    longer r List.[] = refl
    longer r (List.◌∷◌ _ _) = refl

parts-Split : (t : String) → Split t (parts t)
unfolding parts
parts-Split [] = whole tt
parts-Split (c ∷ s) = elim (Bool-cases (code c == b':')) [
  | inl hit ↦
      let e = (==_iff (code c) b':').0 hit in
      rw (parts-colon c s e) (
        pair [] s tt
          (ap (λ d. d ∷ s) (Char-path c ":" e) ∙ sym (colon-cons s) ∙ sym (nil-append _)))
  | inr miss ↦
      let ne : code c ≢ b':' = λ e. cc (miss, (==_iff (code c) b':').1 e) in
      rw (parts-other c s ne) (longer ne (parts-Split s))
]
  where
    longer :
        {p : Parts}
        → code c ≢ b':'
        → Split s p
        → Split (c ∷ s) (record { resource = c ∷ p.resource; action = p.action })
    longer ne (whole plain) = whole (ne, plain)
    longer ne (pair r u plain e) =
        pair (c ∷ r) u (ne, plain) (ap (λ t. c ∷ t) e ∙ sym (cons-append c r _))

-- A text without colons is its own first part, and has no second.
pub parts-plain : (r : String) → NoColon r → parts r ≡ record { resource = r; action = none }
unfolding parts
parts-plain [] _ = refl
parts-plain (c ∷ r) (ne, plain) = rw (parts-other c r ne, parts-plain r plain)

pub parts-pair :
    (r u : String)
    → NoColon r
    → parts (append r (append ":" u)) ≡ record { resource = r; action = some (parts u).resource }
parts-pair [] u _ = rw (nil-append (append ":" u), colon-cons u) (parts-colon ":" u refl)
parts-pair (c ∷ r) u (ne, plain) =
    rw (cons-append c r (append ":" u), parts-other c (append r (append ":" u)) ne)
      (rw (parts-pair r u plain))

pub resource-StartsWithPart :
    (t : String) → NoColon (parts t).resource × StartsWithPart (parts t).resource t
resource-StartsWithPart t = from (parts-Split t)
  where
    from : {p : Parts} → Split t p → NoColon p.resource × StartsWithPart p.resource t
    from (whole plain) = (plain, inl refl)
    from (pair r u plain e) = (plain, inr (u, e))

resource_of_StartsWithPart :
    (r t : String) → NoColon r → StartsWithPart r t → (parts t).resource ≡ r
resource_of_StartsWithPart r t plain (inl e) = rw (e, parts-plain r plain)
resource_of_StartsWithPart r t plain (inr (u, e)) = rw (e, parts-pair r u plain)

-- The scope names a resource and a star, whatever follows a second colon; the permission is one
-- of that resource.
pub record IsWildcard (scope required : String) : Type 0 where
  pub resource : String
  pub rest : String
  pub plain : NoColon resource
  pub scope_eq : scope ≡ append resource (append ":" rest)
  pub star : StartsWithPart "*" rest
  pub covered : StartsWithPart resource required

abbrev pub Covers : String → String → Type 0
Covers required scope = (scope ≡ "*") ⊎ (scope ≡ required) ⊎ IsWildcard scope required

IsWildcard-sound :
    (scope required : String)
    → (parts scope).resource ≡ (parts required).resource
    → is_star (parts scope).action ≡ true
    → IsWildcard scope required
IsWildcard-sound scope required same star = from (parts-Split scope) same star
  where
    from :
        {p : Parts}
        → Split scope p
        → p.resource ≡ (parts required).resource
        → is_star p.action ≡ true
        → IsWildcard scope required
    from (whole plain) _ h = cc
    from (pair r u plain e) same h = record {
      resource = r;
      rest = u;
      plain = plain;
      scope_eq = e;
      star = subst (λ x. StartsWithPart x u) ((eq_iff _ _).0 h) (resource-StartsWithPart u).1;
      covered =
          subst (λ x. StartsWithPart x required) (sym same) (resource-StartsWithPart required).1;
    }

IsWildcard-complete :
    (scope required : String)
    → IsWildcard scope required
    → ((parts scope).resource ≡ (parts required).resource) × (is_star (parts scope).action ≡ true)
IsWildcard-complete scope required w =
    let star = resource_of_StartsWithPart "*" w.rest ((λ e. cc), tt) w.star in
    rw (w.scope_eq, parts-pair w.resource w.rest w.plain)
      (
        sym (resource_of_StartsWithPart w.resource required w.plain w.covered),
        rw star (eq_refl "*"),
      )

pub scope_covers_iff :
    (required scope : String) → (scope_covers required scope ≡ true) ↔ Covers required scope
unfolding scope_covers
scope_covers_iff required scope = ground (
  arith,
  eq_iff scope "*",
  eq_iff scope required,
  eq_iff (parts scope).resource (parts required).resource,
  IsWildcard-sound scope required,
  IsWildcard-complete scope required,
)

-- `hasScope` passes exactly when a granted scope is "*", or the required permission itself, or a
-- wildcard "resource:*" (whatever follows a second colon) whose resource is the text of the required
-- permission before its first colon.
pub has_scope_iff :
    (granted : List.List String) (required : String)
    → (has_scope granted required ≡ true) ↔ Some (Covers required) granted
unfolding has_scope
has_scope_iff List.[] required = ground arith
has_scope_iff (List.◌∷◌ scope granted) required =
    ground (arith, scope_covers_iff required scope, has_scope_iff granted required)

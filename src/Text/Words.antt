-- ===== src/Text/Words.antt =====
-- `s.split(" ")` told by the text: what the first word is and what follows it.
use Prim.Native.Char.{Char, code}
use Prim.Native.String.{String, [], ◌∷◌}
use mathlib.Core.List.{List}
use text.Mathlib.Text.{starts_with}
use text.Mathlib.TextEquality.{Char-path, starts_with_iff}
use text.Mathlib.TextLemmas.{nil-append, cons-append, append_assoc}
use identity_platform.Prelude.{
  ◌==◌, ==_iff, Bool-cases, ◌≡◌, refl, sym, ap, ◌∙◌, ◌≢◌, ◌⊎◌, inl, inr, Bool, true, false, ◌&&◌,
  and-eq-true, if◌then◌else◌, subst, append, arith,
}
use identity_platform.Text.{split, cons_head}
use identity_platform.Authenticate.{scheme_and_token}

-- Texts without a space.
abbrev pub NoSpace : String → Type 0
NoSpace [] = Unit {0}
NoSpace (c ∷ s) = (code c ≢ b' ') × NoSpace s

abbrev pub has_no_space : String → Bool
has_no_space [] = true
has_no_space (c ∷ s) = (if code c == b' ' then false else true) && has_no_space s

pub has_no_space-NoSpace : (s : String) → has_no_space s ≡ true → NoSpace s
has_no_space-NoSpace [] e = tt
has_no_space-NoSpace (c ∷ s) e =
    let (first, later) = and-eq-true (if code c == b' ' then false else true) (has_no_space s) e in
    (ground (arith, first, ==_iff (code c) b' '), has_no_space-NoSpace s later)

pub NoSpace-append : (a b : String) → NoSpace a → NoSpace b → NoSpace (append a b)
NoSpace-append [] b plain plain' = subst NoSpace (sym (nil-append b)) plain'
NoSpace-append (c ∷ a) b (ne, plain) plain' =
    subst NoSpace (sym (cons-append c a b)) (ne, NoSpace-append a b plain plain')

-- The word is the text, or the text goes on with a space.
abbrev pub IsFirstWord : String → String → Type 0
IsFirstWord word text =
    NoSpace word × ((text ≡ word) ⊎ ((rest : String) × (text ≡ append word (append " " rest))))

pub split-word : (r : String) → NoSpace r → split " " r ≡ List.◌∷◌ r List.[]
unfolding split cons_head
split-word [] _ = refl
split-word (c ∷ r) (ne, plain) = elim (Bool-cases (code c == b' ')) [
  | inl hit ↦ absurd (ne ((==_iff (code c) b' ').0 hit))
  | inr miss ↦ rw (miss, split-word r plain) refl
]

space-cons : (u : String) → append " " u ≡ " " ∷ u
space-cons u = cons-append " " [] u ∙ ap (λ s. " " ∷ s) (nil-append u)

pub split-words :
    (r u : String) → NoSpace r → split " " (append r (append " " u)) ≡ List.◌∷◌ r (split " " u)
unfolding split cons_head
split-words [] u _ = ap (split " ") (nil-append (append " " u) ∙ space-cons u)
split-words (c ∷ r) u (ne, plain) = elim (Bool-cases (code c == b' ')) [
  | inl hit ↦ absurd (ne ((==_iff (code c) b' ').0 hit))
  | inr miss ↦
      ap (split " ") (cons-append c r (append " " u)) ∙ rw (miss, split-words r u plain) refl
]

longer :
    (c : Char) (s word : String)
    → (s ≡ word) ⊎ ((u : String) × (s ≡ append word (append " " u)))
    → (c ∷ s ≡ c ∷ word) ⊎ ((u : String) × (c ∷ s ≡ append (c ∷ word) (append " " u)))
longer c s word (inl e) = inl (ap (λ t. c ∷ t) e)
longer c s word (inr (u, e)) = inr (u, ap (λ t. c ∷ t) e ∙ sym (cons-append c word _))

-- Every text has a first word, which is what splitting finds first.
pub split-IsFirstWord :
    (text : String)
    → (word : String) × (rest : List String) × (split " " text ≡ List.◌∷◌ word rest)
      × IsFirstWord word text
unfolding split cons_head
split-IsFirstWord [] = ([], List.[], refl, (tt, inl refl))
split-IsFirstWord (c ∷ s) =
    let (word, rest, e, (plain, goes)) = split-IsFirstWord s in
    elim (Bool-cases (code c == b' ')) [
      | inl hit ↦
          let same : c ≡ " " = Char-path c " " ((==_iff (code c) b' ').0 hit) in
          (
            [],
            List.◌∷◌ word rest,
            rw (hit, e) refl,
            (tt, inr (s, ap (λ d. d ∷ s) same ∙ sym (space-cons s) ∙ sym (nil-append _))),
          )
      | inr miss ↦
          let apart : code c ≢ b' ' = λ same. cc (miss, (==_iff (code c) b' ').1 same) in
          (c ∷ word, rest, rw (miss, e) refl, ((apart, plain), longer c s word goes))
    ]

-- `Authorization: <scheme> <word> …`.
abbrev pub IsCredential : String → String → String → Type 0
IsCredential scheme header text =
    (rest : String) × (header ≡ append scheme (append " " rest)) × IsFirstWord text rest

pub scheme_and_token-IsCredential :
    (scheme header rest : String)
    → NoSpace scheme
    → header ≡ append scheme (append " " rest)
    → ((scheme_and_token (split " " header)).0 ≡ scheme)
      × IsCredential scheme header (scheme_and_token (split " " header)).1
scheme_and_token-IsCredential scheme header rest plain e =
    let (word, more, words, first) = split-IsFirstWord rest in
    let parts : split " " header ≡ List.◌∷◌ scheme (List.◌∷◌ word more) =
      ap (split " ") e ∙ split-words scheme rest plain ∙ ap (λ ws. List.◌∷◌ scheme ws) words in
    rw parts (refl, (rest, e, first))

pub starts_with-IsCredential :
    (scheme header : String)
    → NoSpace scheme
    → starts_with header (append scheme " ") ≡ true
    → IsCredential scheme header (scheme_and_token (split " " header)).1
starts_with-IsCredential scheme header plain starts =
    let (rest, e) = (starts_with_iff header (append scheme " ")).0 starts in
    (scheme_and_token-IsCredential scheme header rest plain
      (sym e ∙ append_assoc scheme " " rest)).1

pub IsCredential-starts_with :
    (scheme header text : String)
    → IsCredential scheme header text
    → starts_with header (append scheme " ") ≡ true
IsCredential-starts_with scheme header text (rest, e, _) =
    (starts_with_iff header (append scheme " ")).1 (rest, append_assoc scheme " " rest ∙ sym e)

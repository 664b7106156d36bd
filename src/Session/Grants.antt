-- ===== src/Session/Grants.antt =====
-- services/session.ts: which permissions a user has.
use identity_platform.Prelude.{
  and-eq-true, ℕ, String, Bool, true, List, [], ◌∷◌, ◌++◌, ◌≡◌, ◌↔◌, ◌⊎◌, arith, Some, map, select,
  append, ◌==◌, ==_iff, ◌&&◌,
}
use identity_platform.Schema.{Permission, RolePermission, UserRole, Store}
use identity_platform.Session.{flat, permissions_of_role, user_permissions}

module _ {A : Type 0} where
  pub Some-append : (P : A → Type 0) (xs ys : List A) → Some P (xs ++ ys) ↔ (Some P xs ⊎ Some P ys)
  Some-append P [] ys = ground arith
  Some-append P (x ∷ xs) ys = ground (arith, Some-append P xs ys)

  pub Some-select :
      (P : A → Type 0) (q : A → Bool) (xs : List A)
      → Some P (select q xs) ↔ Some (λ x. (q x ≡ true) × P x) xs
  Some-select P q [] = ground arith
  Some-select P q (x ∷ xs) = ground (arith, Some-select P q xs)

  Some-weaken : (P Q : A → Type 0) → ((x : A) → P x ↔ Q x) → (xs : List A) → Some P xs ↔ Some Q xs
  Some-weaken P Q h [] = ground arith
  Some-weaken P Q h (x ∷ xs) = ground (arith, h x, Some-weaken P Q h xs)

Some-map :
    {A B : Type 0} (P : B → Type 0) (f : A → B) (xs : List A)
    → Some P (map f xs) ↔ Some (λ x. P (f x)) xs
Some-map P f [] = ground arith
Some-map P f (x ∷ xs) = ground (arith, Some-map P f xs)

pub through : {P Q R : Type 0} → P ↔ Q → Q ↔ R → P ↔ R
through (f, g) (f', g') = (λ p. f' (f p), λ r. g (g' r))

pub Some-flat :
    {A B : Type 0} (P : B → Type 0) (f : A → List B) (xs : List A)
    → Some P (flat f xs) ↔ Some (λ x. Some P (f x)) xs
unfolding flat
Some-flat P f [] = ground arith
Some-flat P f (x ∷ xs) = ground (arith, Some-append P (f x) (flat f xs), Some-flat P f xs)

-- A row of the joined tables that makes the text a permission of the role.
abbrev pub Grants : ℕ → String → Store → Type 0
Grants role_id text st =
    Some
      (λ rp.
        (rp.role_id ≡ role_id)
        × Some (λ p. (p.id ≡ rp.permission_id) × (append p.resource (append ":" p.action) ≡ text))
            st.permissions)
      st.role_permissions

pub permissions_of_role_iff :
    (role_id : ℕ) (text : String) (st : Store)
    → Some (λ s. s ≡ text) (permissions_of_role role_id st) ↔ Grants role_id text st
unfolding permissions_of_role
permissions_of_role_iff role_id text st =
    through (Some-flat (λ s. s ≡ text) _ (select (λ rp. rp.role_id == role_id) st.role_permissions))
      (through (Some-select _ (λ rp. rp.role_id == role_id) st.role_permissions)
        (Some-weaken _ _ entry st.role_permissions))
  where
    matches :
        (id : ℕ) (p : Permission)
        → ((p.id == id) ≡ true) × (append p.resource (append ":" p.action) ≡ text)
          ↔ (p.id ≡ id) × (append p.resource (append ":" p.action) ≡ text)
    matches id p = ground (arith, ==_iff p.id id)

    named :
        (rp : RolePermission)
        → Some
            (λ s. s ≡ text)
            (map
              (λ p. append p.resource (append ":" p.action))
              (select (λ p. p.id == rp.permission_id) st.permissions))
          ↔ Some
              (λ p. (p.id ≡ rp.permission_id) × (append p.resource (append ":" p.action) ≡ text))
              st.permissions
    named rp =
        through (Some-map (λ s. s ≡ text) _ (select (λ p. p.id == rp.permission_id) st.permissions))
          (through (Some-select _ (λ p. p.id == rp.permission_id) st.permissions)
            (Some-weaken _ _ (matches rp.permission_id) st.permissions))

    entry :
        (rp : RolePermission)
        → ((rp.role_id == role_id) ≡ true)
            × Some
                (λ s. s ≡ text)
                (map
                  (λ p. append p.resource (append ":" p.action))
                  (select (λ p. p.id == rp.permission_id) st.permissions))
          ↔ (rp.role_id ≡ role_id)
            × Some
                (λ p. (p.id ≡ rp.permission_id) × (append p.resource (append ":" p.action) ≡ text))
                st.permissions
    entry rp =
        (λ (e, s). ((==_iff _ _).0 e, (named rp).0 s), λ (e, s). ((==_iff _ _).1 e, (named rp).1 s))

-- `getUserPermissions` lists a text exactly when the user holds, within the client, a role that has
-- a permission whose resource and action, joined by a colon, are the text.
pub user_permissions_iff :
    (user_id client_id : ℕ) (text : String) (st : Store)
    → Some (λ s. s ≡ text) (user_permissions user_id client_id st)
      ↔ Some
          (λ ur. (ur.user_id ≡ user_id) × (ur.client_id ≡ client_id) × Grants ur.role_id text st)
          st.user_roles
unfolding user_permissions
user_permissions_iff user_id client_id text st =
    through
      (Some-flat (λ s. s ≡ text) _
        (select (λ ur. ur.user_id == user_id && ur.client_id == client_id) st.user_roles))
      (through
        (Some-select _ (λ ur. ur.user_id == user_id && ur.client_id == client_id) st.user_roles)
        (Some-weaken _ _ entry st.user_roles))
  where
    entry :
        (ur : UserRole)
        → ((ur.user_id == user_id && ur.client_id == client_id) ≡ true)
            × Some (λ s. s ≡ text) (permissions_of_role ur.role_id st)
          ↔ (ur.user_id ≡ user_id) × (ur.client_id ≡ client_id) × Grants ur.role_id text st
    entry ur = (
      λ (e, s).
          let (u, c) = and-eq-true _ _ e in
          ((==_iff _ _).0 u, (==_iff _ _).0 c, (permissions_of_role_iff ur.role_id text st).0 s),
      λ (u, c, s). (
        rw ((==_iff _ _).1 u, (==_iff _ _).1 c),
        (permissions_of_role_iff ur.role_id text st).1 s,
      ),
    )

-- ===== src/Roles/Replaced.antt =====
-- routes/roles.ts: what `PUT /roles/:id/permissions` leaves of a role.
use identity_platform.Prelude.{
  ℕ, ◌+◌, Bool, true, false, ◌||◌, none, some, List, [], ◌∷◌, ◌++◌, map, select, any, length, ◌==◌,
  ==_iff, ==_refl, ◌≡◌, refl, sym, ap, ◌∙◌, arith, if◌then◌else◌, Bool-cases, inl, inr,
}
use mathlib.Core.List.{append_assoc, append-nil}
use identity_platform.Errors.{unexpected}
use identity_platform.Schema.{Role, RolePermission, Store}
use identity_platform.Schema.RoleInserts.{is_link, link, insert_role_permissions}
use identity_platform.Exec.{
  Host, alone, Request, Reply, State, Exec, done, fail, statement, read, write, pure, ◌>>◌,
}
use identity_platform.Permission.{Principal}
use identity_platform.Audit.{audit}
use identity_platform.Audit.Alone.{audit_runs}
use identity_platform.Admin.{by_principal, has_id, distinct, is_empty}
use identity_platform.Admin.Ids.{unique}
use identity_platform.Roles.{
  owned_permissions, role_of_client, clear_role, assert_permissions_belong_to_client,
  attach_permissions, replace_permissions_for,
}

-- The pairs of a role, and those of the other roles.
abbrev pub pairs_of : ℕ → List RolePermission → List RolePermission
pairs_of role_id rows = select (λ rp. rp.role_id == role_id) rows

abbrev pub pairs_of_others : ℕ → List RolePermission → List RolePermission
pairs_of_others role_id rows = select (λ rp. if rp.role_id == role_id then false else true) rows

module _ (role_id : ℕ) where
  -- A pair of the role with one of the ids is among the rows.
  abbrev taken : List ℕ → List RolePermission → Bool
  taken ids rows = any (λ i. any (is_link role_id i) rows) ids

  any-link :
      (i p : ℕ) (rows : List RolePermission)
      → any (is_link role_id i) (rows ++ link role_id p ∷ [])
        ≡ (any (is_link role_id i) rows || p == i)
  any-link i p [] = ground (arith, ==_refl role_id)
  any-link i p (r ∷ rows) = ground (arith, any-link i p rows)

  taken-link :
      (ids : List ℕ) (p : ℕ) (rows : List RolePermission)
      → taken ids (rows ++ link role_id p ∷ []) ≡ (taken ids rows || has_id ids p)
  taken-link [] p rows = refl
  taken-link (i ∷ ids) p rows =
      ground (arith, any-link i p rows, taken-link ids p rows, ==_iff i p, ==_iff p i)

  -- The pairs are inserted exactly where none is there and no id comes twice.
  insert_role_permissions_lem :
      (ids : List ℕ) (st : Store)
      → insert_role_permissions role_id ids st ≡ (
          if taken ids st.role_permissions || (if unique ids then false else true)
          then none
          else some
              (tt, record st { role_permissions = st.role_permissions ++ map (link role_id) ids }))
  unfolding insert_role_permissions
  insert_role_permissions_lem [] st =
      ap (λ rows. some (tt, record st { role_permissions = rows }))
        (sym (append-nil st.role_permissions))
  insert_role_permissions_lem (p ∷ ps) st =
      elim (Bool-cases (any (is_link role_id p) st.role_permissions)) [
        | inl there ↦ rw there refl
        | inr free ↦
            rw
              (
                free,
                sym same_test,
                sym (
                    append_assoc st.role_permissions (link role_id p ∷ []) (map (link role_id) ps)),
              )
              (insert_role_permissions_lem ps
                (record st { role_permissions = st.role_permissions ++ link role_id p ∷ [] }))
      ]
    where
      same_test :
          (taken ps (st.role_permissions ++ link role_id p ∷ [])
            || (if unique ps then false else true))
          ≡ (taken ps st.role_permissions || (if unique (p ∷ ps) then false else true))
      same_test = ground (arith, taken-link ps p st.role_permissions)

  pairs_of-append :
      (ids : List ℕ) (rows : List RolePermission)
      → pairs_of role_id rows ≡ []
      → pairs_of role_id (rows ++ map (link role_id) ids) ≡ map (link role_id) ids
  pairs_of-append [] [] e = refl
  pairs_of-append (i ∷ ids) [] e = ground (arith, ==_refl role_id, pairs_of-append ids [])
  pairs_of-append ids (r ∷ rows) e = ground (arith, pairs_of-append ids rows)

  pairs_of_others-append :
      (ids : List ℕ) (rows : List RolePermission)
      → pairs_of_others role_id (rows ++ map (link role_id) ids) ≡ pairs_of_others role_id rows
  pairs_of_others-append [] [] = refl
  pairs_of_others-append (i ∷ ids) [] =
      ground (arith, ==_refl role_id, pairs_of_others-append ids [])
  pairs_of_others-append ids (r ∷ rows) = ground (arith, pairs_of_others-append ids rows)

  pairs_of-clear :
      (rows : List RolePermission) → pairs_of role_id (pairs_of_others role_id rows) ≡ []
  pairs_of-clear [] = refl
  pairs_of-clear (r ∷ rows) = ground (arith, pairs_of-clear rows)

  pairs_of_others-clear :
      (rows : List RolePermission)
      → pairs_of_others role_id (pairs_of_others role_id rows) ≡ pairs_of_others role_id rows
  pairs_of_others-clear [] = refl
  pairs_of_others-clear (r ∷ rows) = ground (arith, pairs_of_others-clear rows)

  not_taken :
      (ids : List ℕ) (rows : List RolePermission)
      → pairs_of role_id rows ≡ []
      → taken ids rows ≡ false
  not_taken [] rows e = refl
  not_taken (i ∷ ids) rows e = ground (arith, no_link i rows e, not_taken ids rows e)
    where
      no_link :
          (i : ℕ) (rows : List RolePermission)
          → pairs_of role_id rows ≡ []
          → any (is_link role_id i) rows ≡ false
      no_link i [] e = refl
      no_link i (r ∷ rows) e = ground (arith, no_link i rows)

module _ (h : Host) (req : Request) (principal : Principal) (c role_id : ℕ) where
  abbrev after_clear : List ℕ → Exec (Reply (ℕ × List ℕ))
  after_clear ids =
      attach_permissions (alone h) role_id ids
      >> (audit (alone h) req (by_principal principal c "role.permissions_replaced" role_id)
          >> pure (record { status = 200; body = (role_id, ids) }))

  -- The test of `assertPermissionsBelongToClient`.
  abbrev pub all_owned : List ℕ → Store → Bool
  all_owned ids st = is_empty ids || length (owned_permissions ids c st) == length (distinct ids)

  up_to_clear :
      (ids : List ℕ) (role : Role) (s : State)
      → role_of_client role_id c s.store ≡ some role
      → all_owned ids s.store ≡ true
      → (t : State) × (t.store ≡ clear_role role_id s.store)
        × (replace_permissions_for (alone h) req principal c role_id ids s ≡ after_clear ids t)
  unfolding replace_permissions_for assert_permissions_belong_to_client statement read write
  up_to_clear [] role s found passed =
      (record { store = clear_role role_id s.store; step = s.step + 1 + 1 }, refl, rw found refl)
  up_to_clear (i ∷ ids) role s found passed = (
    record { store = clear_role role_id s.store; step = s.step + 1 + 1 + 1 },
    refl,
    rw (found, passed) refl,
  )

  attach_done :
      (ids : List ℕ) (t : State)
      → pairs_of role_id t.store.role_permissions ≡ []
      → unique ids ≡ true
      → (t' : State) × (attach_permissions (alone h) role_id ids t ≡ done tt t')
        × (t'.store.role_permissions ≡ t.store.role_permissions ++ map (link role_id) ids)
  unfolding attach_permissions statement
  attach_done [] t none_there u = (t, refl, sym (append-nil t.store.role_permissions))
  attach_done (i ∷ ids) t none_there u =
      let rows = t.store.role_permissions ++ map (link role_id) (i ∷ ids) in
      let inserted : insert_role_permissions role_id (i ∷ ids) t.store
          ≡ some (tt, record t.store { role_permissions = rows }) =
        insert_role_permissions_lem role_id (i ∷ ids) t.store
        ∙ rw (not_taken role_id (i ∷ ids) t.store.role_permissions none_there, u) refl in
      (
        record { store = record t.store { role_permissions = rows }; step = t.step + 1 },
        rw inserted refl,
        refl,
      )

  attach_fail :
      (ids : List ℕ) (t : State)
      → unique ids ≡ false
      → (t' : State) × (attach_permissions (alone h) role_id ids t ≡ fail unexpected t')
        × (t'.store ≡ t.store)
  unfolding attach_permissions statement
  attach_fail [] t twice = absurd (cc)
  attach_fail (i ∷ ids) t twice =
      let refused : insert_role_permissions role_id (i ∷ ids) t.store ≡ none =
        insert_role_permissions_lem role_id (i ∷ ids) t.store ∙ ground (arith, twice) in
      (record { store = t.store; step = t.step + 1 }, rw refused refl, refl)

  -- Alone, and for ids that the client all owns, `PUT /roles/:id/permissions` of a role of the client
  -- leaves the pairs of other roles as they were. If no id comes twice, it answers 200 and the role
  -- has these permissions and no other. If an id comes twice, it ends in an unexpected error, which
  -- is a 500, and the role has lost all its permissions.
  pub replace_permissions_for_lem :
      (ids : List ℕ) (role : Role) (s : State)
      → role_of_client role_id c s.store ≡ some role
      → all_owned ids s.store ≡ true
      → (unique ids ≡ true
          → (s' : State) × (replace_permissions_for (alone h) req principal c role_id ids s
              ≡ done (record { status = 200; body = (role_id, ids) }) s')
            × (pairs_of role_id s'.store.role_permissions ≡ map (link role_id) ids)
            × (pairs_of_others role_id s'.store.role_permissions
                ≡ pairs_of_others role_id s.store.role_permissions))
        × (unique ids ≡ false
            → (s' : State) × (replace_permissions_for (alone h) req principal c role_id ids s
                ≡ fail unexpected s')
              × (pairs_of role_id s'.store.role_permissions ≡ [])
              × (pairs_of_others role_id s'.store.role_permissions
                  ≡ pairs_of_others role_id s.store.role_permissions))
  replace_permissions_for_lem ids role s found passed =
      let (t, cleared, runs) = up_to_clear ids role s found passed in
      let none_there : pairs_of role_id t.store.role_permissions ≡ [] =
        ap (λ (z : Store). pairs_of role_id z.role_permissions) cleared
        ∙ pairs_of-clear role_id s.store.role_permissions in
      let others : pairs_of_others role_id t.store.role_permissions
          ≡ pairs_of_others role_id s.store.role_permissions =
        ap (λ (z : Store). pairs_of_others role_id z.role_permissions) cleared
        ∙ pairs_of_others-clear role_id s.store.role_permissions in
      (
        λ u.
            let (t1, attached, rows) = attach_done ids t none_there u in
            let (t2, logged, same) =
              audit_runs h req (by_principal principal c "role.permissions_replaced" role_id) t1 in
            let now_there : t2.store.role_permissions
                ≡ t.store.role_permissions ++ map (link role_id) ids =
              same.role_permissions ∙ rows in
            (
              t2,
              runs ∙ rw (attached, logged) refl,
              ap (pairs_of role_id) now_there
                  ∙ pairs_of-append role_id ids t.store.role_permissions none_there,
              ap (pairs_of_others role_id) now_there
                  ∙ (pairs_of_others-append role_id ids t.store.role_permissions ∙ others),
            ),
        λ twice.
            let (t1, refused, same) = attach_fail ids t twice in
            (
              t1,
              runs ∙ rw refused refl,
              ap (λ (z : Store). pairs_of role_id z.role_permissions) same ∙ none_there,
              ap (λ (z : Store). pairs_of_others role_id z.role_permissions) same ∙ others,
            ),
      )

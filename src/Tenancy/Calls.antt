-- ===== src/Tenancy/Calls.antt =====
-- The administration routes as the steps of a tenant: what an administrator of a client can do, in
-- any order and whatever other requests do, ties none of its rows to another client's.
use identity_platform.Prelude.{ℕ, Bool, List, ◌≡◌}
use identity_platform.Schema.{Store}
use identity_platform.Schema.RoleInserts.{NewPermission}
use identity_platform.Exec.{Host, Request, State, Exec, Outcome, final, done, fail, pure, ◌>>=◌}
use identity_platform.Exec.Invariant.{After, Respects, Maintains, Anything, pure_keeps, bind_keeps}
use identity_platform.Permission.{Principal}
use identity_platform.Roles.{
  CreateRoleBody, create_role_for, replace_permissions_for, delete_role_for, assign_role_for,
  revoke_role_for,
}
use identity_platform.Roles.Catalog.{create_permission_for, create_permissions_for}
use identity_platform.Users.{CreateUserBody, create_user_for, update_user_for}
use identity_platform.ApiKeys.{CreateKeyBody, create_key_for, revoke_key_for}
use identity_platform.ServiceAccounts.{
  CreateAccountBody, UpdateAccountBody, AccountKeyBody, create_account_for, update_account_for,
  assign_account_role_for, revoke_account_role_for, create_account_key_for,
}
use identity_platform.Tenancy.{IsTied}
use identity_platform.Tenancy.Roles.{
  create_permission_keeps, create_permissions_keeps, create_role_keeps, replace_permissions_keeps,
  delete_role_keeps, assign_role_keeps, revoke_role_keeps,
}
use identity_platform.Tenancy.Accounts.{
  create_user_keeps, update_user_keeps, create_account_keeps, update_account_keeps,
  assign_account_role_keeps, revoke_account_role_keeps, create_key_keeps, revoke_key_keeps,
  create_account_key_keeps,
}

-- A request that has passed authentication, `requirePermission` and its schema.
pub data Call : Type 0 where
  post_permission : NewPermission → Call
  post_permissions : List NewPermission → Call
  post_role : CreateRoleBody → List ℕ → Call
  put_role_permissions : ℕ → List ℕ → Call
  remove_role : ℕ → Call
  post_assign : ℕ → ℕ → Call
  post_revoke : ℕ → ℕ → Call
  post_user : CreateUserBody → List ℕ → Call
  patch_user_status : ℕ → Bool → Call
  post_account : CreateAccountBody → List ℕ → Call
  patch_account : ℕ → UpdateAccountBody → Call
  post_account_role : ℕ → ℕ → Call
  remove_account_role : ℕ → ℕ → Call
  post_account_key : ℕ → AccountKeyBody → Call
  post_key : CreateKeyBody → Call
  remove_key : ℕ → Call

abbrev ignore : {A : Type 0} → Exec A → Exec (Unit {0})
ignore m = m >>= λ _. pure tt

-- The handler behind the guards.
unfoldable pub perform : Host → Request → Principal → ℕ → Call → Exec (Unit {0})
perform h req p c (post_permission b) = ignore (create_permission_for h req p c b)
perform h req p c (post_permissions b) = ignore (create_permissions_for h req p c b)
perform h req p c (post_role b ids) = ignore (create_role_for h req p c b ids)
perform h req p c (put_role_permissions r ids) = ignore (replace_permissions_for h req p c r ids)
perform h req p c (remove_role r) = ignore (delete_role_for h req p c r)
perform h req p c (post_assign u r) = ignore (assign_role_for h req p c u r)
perform h req p c (post_revoke u r) = ignore (revoke_role_for h req p c u r)
perform h req p c (post_user b ids) = ignore (create_user_for h req p c b ids)
perform h req p c (patch_user_status u active) = ignore (update_user_for h req p c u active)
perform h req p c (post_account b ids) = ignore (create_account_for h req p c b ids)
perform h req p c (patch_account a b) = ignore (update_account_for h req p c a b)
perform h req p c (post_account_role a r) = ignore (assign_account_role_for h req p c a r)
perform h req p c (remove_account_role a r) = ignore (revoke_account_role_for h req p c a r)
perform h req p c (post_account_key a b) = ignore (create_account_key_for h req p c a b)
perform h req p c (post_key b) = ignore (create_key_for h req p c b)
perform h req p c (remove_key k) = ignore (revoke_key_for h req p c k)

module _ {owner : ℕ → ℕ} where
  ignored :
      {A : Type 0} {m : Exec A}
      → Maintains (IsTied owner) m Anything
      → Maintains (IsTied owner) (ignore m) Anything
  ignored km = bind_keeps km λ _ _. pure_keeps tt tt

  perform_keeps :
      {h : Host} (o : Respects (IsTied owner) h) (req : Request) (p : Principal) (c : ℕ)
      → ((k : ℕ) → owner (h.uuid k) ≡ c)
      → ((k i : ℕ) → owner (h.row_uuid (h.uuid k) i) ≡ c)
      → (call : Call) → Maintains (IsTied owner) (perform h req p c call) Anything
  unfolding perform
  perform_keeps o req p c drawn rows (post_permission b) =
      ignored (create_permission_keeps o req p c drawn b)
  perform_keeps o req p c drawn rows (post_permissions b) =
      ignored (create_permissions_keeps o req p c b rows)
  perform_keeps o req p c drawn rows (post_role b ids) =
      ignored (create_role_keeps o req p c drawn b ids)
  perform_keeps o req p c drawn rows (put_role_permissions r ids) =
      ignored (replace_permissions_keeps o req p c r ids)
  perform_keeps o req p c drawn rows (remove_role r) = ignored (delete_role_keeps o req p c r)
  perform_keeps o req p c drawn rows (post_assign u r) = ignored (assign_role_keeps o req p c u r)
  perform_keeps o req p c drawn rows (post_revoke u r) = ignored (revoke_role_keeps o req p c u r)
  perform_keeps o req p c drawn rows (post_user b ids) =
      ignored (create_user_keeps o req p c b ids drawn)
  perform_keeps o req p c drawn rows (patch_user_status u active) =
      ignored (update_user_keeps o req p c u active)
  perform_keeps o req p c drawn rows (post_account b ids) =
      ignored (create_account_keeps o req p c b ids drawn)
  perform_keeps o req p c drawn rows (patch_account a b) =
      ignored (update_account_keeps o req p c a b)
  perform_keeps o req p c drawn rows (post_account_role a r) =
      ignored (assign_account_role_keeps o req p c a r)
  perform_keeps o req p c drawn rows (remove_account_role a r) =
      ignored (revoke_account_role_keeps o req p c a r)
  perform_keeps o req p c drawn rows (post_account_key a b) =
      ignored (create_account_key_keeps o req p c a b)
  perform_keeps o req p c drawn rows (post_key b) = ignored (create_key_keeps o req p c b)
  perform_keeps o req p c drawn rows (remove_key k) = ignored (revoke_key_keeps o req p c k)

after_final : (I : Store → Type 0) (r : Outcome (Unit {0})) → After I Anything r → I (final r).store
after_final I (done u s) h = h.1
after_final I (fail e s) h = h

-- Where other requests keep the rows of different clients apart, every administration call of a
-- principal of the client `c` does, whether it answers or fails: a role carries only permissions of
-- its own client, and users and service accounts have only roles of theirs. `owner` says for which
-- client's rows an id is drawn, and those that the database draws during the call are for `c`.
pub perform-IsTied :
    (owner : ℕ → ℕ) (h : Host) (req : Request) (principal : Principal) (c : ℕ) (call : Call)
    (s : State)
    → ((k : ℕ) (st : Store) → IsTied owner st → IsTied owner (h.others k st))
    → ((k : ℕ) → owner (h.uuid k) ≡ c)
    → ((k i : ℕ) → owner (h.row_uuid (h.uuid k) i) ≡ c)
    → IsTied owner s.store
    → IsTied owner (final (perform h req principal c call s)).store
perform-IsTied owner h req principal c call s others drawn rows t =
    after_final (IsTied owner) (perform h req principal c call s)
      ((perform_keeps (record { others = others }) req principal c drawn rows call).at s t)

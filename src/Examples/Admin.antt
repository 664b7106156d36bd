-- ===== src/Examples/Admin.antt =====
-- Two tenants, and the administration of one of them.
use identity_platform.Schema.Inserts.{insert_audit_log}
use identity_platform.Audit.{audit}
use identity_platform.Schema.KeyInserts.{insert_api_key}
use identity_platform.Prelude.{
  ℕ, ◌||◌, true, false, none, some, [], ◌∷◌, map, ◌==◌, ◌≡◌, ◌≢◌, refl, arith, Some, if◌then◌else◌,
}
use identity_platform.Errors.{unexpected, not_found}
use identity_platform.Schema.{Role, Permission, User, ServiceAccount, Store}
use identity_platform.Schema.RoleInserts.{link}
use identity_platform.Exec.{Reply, State, alone, done, fail, final, now, random_bytes, statement}
use identity_platform.Permission.{Principal, bearer}
use identity_platform.Session.{user_permissions}
use identity_platform.Authenticate.{service_account_permissions}
use identity_platform.Auth.Replay.{live_tokens_of}
use identity_platform.Admin.Ids.{unique}
use identity_platform.Roles.{user_of_client, replace_permissions_for}
use identity_platform.Roles.Replaced.{pairs_of, pairs_of_others, replace_permissions_for_lem}
use identity_platform.Users.{updated_user, update_user_for}
use identity_platform.Users.Deactivated.{tokens_of, update_user_for_lem}
use identity_platform.ApiKeys.{
  CreateKeyBody, CreatedKey, create_key_for, expiry_of, generate_api_key,
}
use identity_platform.Text.Words.{has_no_space-NoSpace}
use identity_platform.ApiKeys.Created.{Works, create_key_for-authenticate}
use identity_platform.Tenancy.{IsTied}
use identity_platform.Tenancy.Calls.{put_role_permissions, perform, perform-IsTied}
use identity_platform.Tenancy.Grants.{IsOwn, user_permissions-IsOwn}
use identity_platform.Examples.Fixture.{host, env, request, store}

abbrev role : Role
role = record {
  id = 50;
  client_id = 10;
  name = "editor";
  description = none;
  is_default = false;
  created_at = 0;
}

abbrev permission : Permission
permission = record {
  id = 60;
  client_id = 10;
  resource = "notes";
  action = "write";
  description = none;
}

abbrev account : ServiceAccount
account = record {
  id = 70;
  client_id = 10;
  name = "robot";
  description = none;
  is_active = true;
  created_at = 0;
  updated_at = 0;
}

abbrev tenants : Store
tenants = record store {
  roles = role ∷ record role { id = 51; client_id = 11 } ∷ [];
  permissions =
      permission
      ∷ record permission { id = 61; client_id = 11 }
      ∷ record permission { id = 62; action = "read" }
      ∷ [];
  role_permissions = link 50 60 ∷ link 51 61 ∷ [];
  user_roles = record { user_id = 20; role_id = 50; client_id = 10; assigned_at = 0 } ∷ [];
  service_accounts = account ∷ [];
  service_account_roles =
      record { service_account_id = 70; role_id = 50; client_id = 10; assigned_at = 0 } ∷ [];
}

abbrev tenants_state : State
tenants_state = record { store = tenants; step = 0 }

-- The ids of the second tenant are 51 and 61.
abbrev owner : ℕ → ℕ
owner id = if id == 51 || id == 61 then 11 else 10

tenants-IsTied : IsTied owner tenants
tenants-IsTied = record {
  of_roles = (refl, (refl, tt));
  of_permissions = (refl, (refl, (refl, tt)));
  of_users = (refl, tt);
  of_accounts = (refl, tt);
  of_role_permissions = (refl, (refl, tt));
  of_user_roles = ((refl, refl), tt);
  of_account_roles = ((refl, refl), tt);
  roles_unique = refl;
  permissions_unique = refl;
}

abbrev admin : Principal
admin = bearer (record { sub = 20; cid = 10; email = "a@x.org"; permissions = "*" ∷ [] })

perform-IsTied_example :
    IsTied owner
      (final (
        perform host request admin 10 (put_role_permissions 50 (60 ∷ 62 ∷ [])) tenants_state)).store
perform-IsTied_example =
    perform-IsTied owner host request admin 10 (put_role_permissions 50 (60 ∷ 62 ∷ []))
      tenants_state (λ k st t. t) (λ k. ground arith) (λ k i. ground arith) tenants-IsTied

user_permissions-IsOwn_example :
    (Some (λ s. s ≡ "notes:write") (user_permissions 20 10 tenants)
      → Some (IsOwn 10 "notes:write") tenants.permissions)
    × (Some (λ s. s ≡ "notes:write") (service_account_permissions 20 10 tenants)
        → Some (IsOwn 10 "notes:write") tenants.permissions)
user_permissions-IsOwn_example =
    user_permissions-IsOwn owner 20 10 "notes:write" tenants tenants-IsTied

replace_permissions_for_lem_example :
    (unique (60 ∷ 60 ∷ []) ≡ true
      → (s' : State) × (replace_permissions_for
            (alone host)
            request
            admin
            10
            50
            (60 ∷ 60 ∷ [])
            tenants_state
          ≡ done (record { status = 200; body = (50, 60 ∷ 60 ∷ []) }) s')
        × (pairs_of 50 s'.store.role_permissions ≡ map (link 50) (60 ∷ 60 ∷ []))
        × (pairs_of_others 50 s'.store.role_permissions
            ≡ pairs_of_others 50 tenants.role_permissions))
    × (unique (60 ∷ 60 ∷ []) ≡ false
        → (s' : State) × (replace_permissions_for
              (alone host)
              request
              admin
              10
              50
              (60 ∷ 60 ∷ [])
              tenants_state
            ≡ fail unexpected s')
          × (pairs_of 50 s'.store.role_permissions ≡ [])
          × (pairs_of_others 50 s'.store.role_permissions
              ≡ pairs_of_others 50 tenants.role_permissions))
replace_permissions_for_lem_example =
    replace_permissions_for_lem host request admin 10 50 (60 ∷ 60 ∷ []) role tenants_state refl refl

update_user_for_lem_example :
    (user_of_client 20 10 tenants ≡ none
      → (s' : State) × (update_user_for (alone host) request admin 10 20 false tenants_state
          ≡ fail (not_found "User not found" none) s')
        × (s'.store ≡ tenants))
    × ((u : User)
        → user_of_client 20 10 tenants ≡ some u
        → (s' : State) × (update_user_for (alone host) request admin 10 20 false tenants_state
            ≡ done
                (record {
                  status = 200;
                  body = updated_user (record u { is_active = false; updated_at = host.clock 0 });
                })
                s')
          × (user_of_client 20 10 s'.store
              ≡ some (record u { is_active = false; updated_at = host.clock 0 }))
          × (false ≡ true → s'.store.refresh_tokens ≡ tenants.refresh_tokens)
          × (false ≡ false → live_tokens_of 20 s'.store ≡ 0)
          × ((other : ℕ) → other ≢ 20 → tokens_of other s'.store ≡ tokens_of other tenants))
update_user_for_lem_example = update_user_for_lem host request admin 10 20 false tenants_state

abbrev key_body : CreateKeyBody
key_body = record { name = "ci"; scopes = some ("notes:read" ∷ []); expires_in_days = some 30 }

-- The answer to `key_body`.
abbrev key_reply : Reply CreatedKey
key_reply = record {
  status = 201;
  body = record {
    view = record {
      id = 9002;
      service_account_id = none;
      name = "ci";
      key_prefix = "sk_other-to";
      scopes = some ("notes:read" ∷ []);
      expires_at = some 2593000001;
      created_at = 1000002;
    };
    key = "sk_other-to_ken";
  };
}

create_key_for-authenticate_example :
    (key_reply.body.view.scopes ≡ some ("notes:read" ∷ []))
    × Works env host 10
        (some ("notes:read" ∷ []))
        key_reply
        (final (create_key_for (alone host) request admin 10 key_body tenants_state))
unfolding create_key_for generate_api_key random_bytes expiry_of now statement insert_api_key audit
    insert_audit_log
create_key_for-authenticate_example =
    create_key_for-authenticate env host request admin 10 key_body tenants_state key_reply _
      (has_no_space-NoSpace "other-token" refl) refl refl

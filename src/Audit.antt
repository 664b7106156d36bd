-- ===== src/Audit.antt =====
-- services/audit.ts. The `details` of an event are not modelled.
pub mod Alone
use identity_platform.Prelude.{ℕ, String, Option, none, some}
use identity_platform.Schema.{ActorType, user, api_key, service_account, anonymous}
use identity_platform.Schema.Inserts.{insert_audit_log}
use identity_platform.Exec.{Host, Request, Exec, pure, statement, catch}
use identity_platform.Permission.{Principal, bearer, key, nobody, KeyClaims}

pub record AuditEvent : Type 0 where
  pub client_id : ℕ
  pub action : String
  pub actor_type : ActorType
  pub actor_id : Option ℕ
  pub target_id : Option ℕ

abbrev pub by_user : ℕ → String → ℕ → AuditEvent
by_user client_id action user_id = record {
  client_id = client_id;
  action = action;
  actor_type = user;
  actor_id = some user_id;
  target_id = none;
}

abbrev pub by_anonymous : ℕ → String → AuditEvent
by_anonymous client_id action = record {
  client_id = client_id;
  action = action;
  actor_type = anonymous;
  actor_id = none;
  target_id = none;
}

-- A failed write is logged and never fails the operation.
unfoldable pub audit : Host → Request → AuditEvent → Exec (Unit {0})
audit h req event =
    catch
      (statement h λ d.
        (insert_audit_log
          (record {
            client_id = event.client_id;
            action = event.action;
            actor_type = event.actor_type;
            actor_id = event.actor_id;
            target_id = event.target_id;
            ip = req.ip;
            user_agent = req.user_agent;
          })
          d.id d.time))
      (λ _. pure tt)

abbrev pub key_actor : KeyClaims → Option ℕ → ActorType × Option ℕ
key_actor k (some account) = (service_account, some account)
key_actor k none = (api_key, some k.id)

unfoldable pub audit_actor : Principal → ActorType × Option ℕ
audit_actor (bearer u) = (user, some u.sub)
audit_actor (key k) = key_actor k k.service_account_id
audit_actor nobody = (anonymous, none)

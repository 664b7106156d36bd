-- ===== src/Audit/Alone.antt =====
-- services/audit.ts: what an audit entry leaves as it was, where the request runs alone.
use identity_platform.Prelude.{subst, ap, sym, ◌≡◌, arith, ◌∙◌}
use identity_platform.Schema.{Store}
use identity_platform.Schema.Inserts.{insert_audit_log}
use identity_platform.Exec.{Host, alone, Request, State, Outcome, done, final, statement}
use identity_platform.Exec.Inversion.{From}
use identity_platform.Audit.{AuditEvent, audit}

pub record SameAccounts (a b : Store) : Type 0 where
  pub refresh_tokens : b.refresh_tokens ≡ a.refresh_tokens
  pub account_tokens : b.account_tokens ≡ a.account_tokens
  pub users : b.users ≡ a.users
  pub clients : b.clients ≡ a.clients
  pub service_accounts : b.service_accounts ≡ a.service_accounts
  pub role_permissions : b.role_permissions ≡ a.role_permissions
  pub api_keys : b.api_keys ≡ a.api_keys

module _ (h : Host) (req : Request) (event : AuditEvent) (s : State) where
  -- The entry is written or not, and the request goes on.
  pub audit_runs :
      (s' : State) × (audit (alone h) req event s ≡ done tt s') × SameAccounts s.store s'.store
  unfolding audit insert_audit_log statement
  audit_runs = (
    final (audit (alone h) req event s),
    ground arith,
    record {
      refresh_tokens = ground arith;
      account_tokens = ground arith;
      users = ground arith;
      clients = ground arith;
      service_accounts = ground arith;
      role_permissions = ground arith;
      api_keys = ground arith;
    },
  )

  pub audit_from : From s (audit (alone h) req event) λ _ s'. SameAccounts s.store s'.store
  audit_from = record {
    at = λ u s' e.
        let (t, ran, same) = audit_runs in
        subst (λ (z : State). SameAccounts s.store z.store)
          (ap (λ (o : Outcome (Unit {0})). (final o)) (sym ran ∙ e)) same;
  }

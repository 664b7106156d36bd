-- ===== src/Session/Guarantee.antt =====
-- services/session.ts and services/audit.ts: what the parts of a handler guarantee of the store.
use identity_platform.Prelude.{ℕ, String, Option, some, ◌≡◌}
use identity_platform.Schema.{Client, Store}
use identity_platform.Schema.Inserts.{NewAuditLog, insert_audit_log}
use identity_platform.Exec.{Host, Env, Request, TokenClaims}
use identity_platform.Exec.Guarantee.{
  Rely, Guarantees, pure_lem, check_lem, or_throw_lem, if_lem, bind_lem, catch_lem, statement_lem,
  read_lem, now_lem, random_uuid_lem, random_bytes_lem,
}
use identity_platform.Token.{create_token_pair}
use identity_platform.Session.{verify_client_credentials, prepare_session}
use identity_platform.Audit.{AuditEvent, audit}

module _ {R : Store → Store → Type 0} {h : Host} (o : Rely R h) where
  -- These write nothing, so they guarantee whatever other requests respect.
  pub credentials_lem :
      (client_id : String) (secret : Option String)
      → Guarantees R (verify_client_credentials h client_id secret)
  unfolding verify_client_credentials
  credentials_lem client_id secret = bind_lem o (read_lem o _) λ found.
      bind_lem o (or_throw_lem o found _) λ client.
        if_lem o client.is_public (pure_lem o client)
          (bind_lem o (check_lem o _ _) λ _. pure_lem o client)

  pub create_token_pair_lem :
      (env : Env) (claims : TokenClaims) → Guarantees R (create_token_pair env h claims)
  unfolding create_token_pair
  create_token_pair_lem env claims =
      bind_lem o (bind_lem o (now_lem o) λ _. or_throw_lem o _ _)
        λ _. bind_lem o (random_bytes_lem o) λ _. pure_lem o _

  pub prepare_session_lem :
      (env : Env) (user_id : ℕ) (email : String) (client : Client) (req : Request)
      → Guarantees R (prepare_session env h user_id email client req)
  unfolding prepare_session
  prepare_session_lem env user_id email client req = bind_lem o (read_lem o _) λ _.
      bind_lem o (create_token_pair_lem env _)
        λ _. bind_lem o (random_uuid_lem o) λ _. bind_lem o (now_lem o) λ _. pure_lem o _

  pub audit_lem :
      (req : Request) (event : AuditEvent)
      → ((a : NewAuditLog) (id time : ℕ) (st : Store) (x : Unit {0}) (st' : Store)
          → insert_audit_log a id time st ≡ some (x, st')
          → R st st')
      → Guarantees R (audit h req event)
  unfolding audit
  audit_lem req event keeps =
      catch_lem o (statement_lem o _ λ d st x st' e. keeps _ d.id d.time st x st' e)
        λ _. pure_lem o tt

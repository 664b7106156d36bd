-- ===== src/Schema.antt =====
-- db/schema.ts: the rows of the tables. A UUID and a SHA-256 digest are numbers, compared for
-- equality only; a timestamp counts milliseconds.
pub mod Inserts
pub mod RoleInserts
pub mod KeyInserts
use identity_platform.Prelude.{ℕ, String, Bool, Option, List}

pub record Client : Type 0 where
  pub id : ℕ
  pub name : String
  pub client_id : String
  pub client_secret_hash : Option ℕ
  pub is_public : Bool
  pub allow_user_registration : Bool
  pub redirect_uris : Option (List String)
  pub password_reset_url : Option String
  pub email_verify_url : Option String
  pub is_active : Bool
  pub created_at : ℕ
  pub updated_at : ℕ

pub record User : Type 0 where
  pub id : ℕ
  pub client_id : ℕ
  pub email : String
  pub password_hash : Option String
  pub oauth_provider : Option String
  pub oauth_provider_id : Option String
  pub email_verified : Bool
  pub is_active : Bool
  pub created_at : ℕ
  pub updated_at : ℕ

pub record Role : Type 0 where
  pub id : ℕ
  pub client_id : ℕ
  pub name : String
  pub description : Option String
  pub is_default : Bool
  pub created_at : ℕ

pub record Permission : Type 0 where
  pub id : ℕ
  pub client_id : ℕ
  pub resource : String
  pub action : String
  pub description : Option String

pub record RolePermission : Type 0 where
  pub role_id : ℕ
  pub permission_id : ℕ

pub record UserRole : Type 0 where
  pub user_id : ℕ
  pub role_id : ℕ
  pub client_id : ℕ
  pub assigned_at : ℕ

pub record ServiceAccount : Type 0 where
  pub id : ℕ
  pub client_id : ℕ
  pub name : String
  pub description : Option String
  pub is_active : Bool
  pub created_at : ℕ
  pub updated_at : ℕ

pub record ServiceAccountRole : Type 0 where
  pub service_account_id : ℕ
  pub role_id : ℕ
  pub client_id : ℕ
  pub assigned_at : ℕ

-- The values of `revoked_reason`.
pub data Reason : Type 0 where
  rotated retry logout user_revoked security : Reason

pub record RefreshToken : Type 0 where
  pub id : ℕ
  pub user_id : ℕ
  pub token_hash : ℕ
  pub ip_address : Option String
  pub user_agent : Option String
  pub revoked : Bool
  pub revoked_reason : Option Reason
  pub rotation_operation_hash : Option ℕ
  pub rotated_at : Option ℕ
  pub replaced_by_token_id : Option ℕ
  pub expires_at : ℕ
  pub created_at : ℕ

pub data Purpose : Type 0 where
  password_reset email_verify : Purpose

pub record AccountToken : Type 0 where
  pub id : ℕ
  pub user_id : ℕ
  pub purpose : Purpose
  pub token_hash : ℕ
  pub expires_at : ℕ
  pub used_at : Option ℕ
  pub created_at : ℕ

pub record ApiKey : Type 0 where
  pub id : ℕ
  pub client_id : ℕ
  pub service_account_id : Option ℕ
  pub key_prefix : String
  pub key_hash : ℕ
  pub name : String
  pub scopes : Option (List String)
  pub revoked : Bool
  pub expires_at : Option ℕ
  pub last_used_at : Option ℕ
  pub created_at : ℕ

pub data ActorType : Type 0 where
  user api_key service_account operator anonymous : ActorType

pub record AuditLog : Type 0 where
  pub id : ℕ
  pub client_id : ℕ
  pub action : String
  pub actor_type : ActorType
  pub actor_id : Option ℕ
  pub target_id : Option ℕ
  pub ip : Option String
  pub user_agent : Option String
  pub created_at : ℕ

-- Redis: the data behind an authorization code, and keys with the time at which they expire.
pub record AuthCodeData : Type 0 where
  pub user_id : ℕ
  pub client_id : ℕ
  pub app_client_id : String
  pub redirect_uri : String
  pub code_challenge : Option String

pub record CodeEntry : Type 0 where
  pub key : ℕ
  pub value : AuthCodeData
  pub expires_at : ℕ

pub record NonceEntry : Type 0 where
  pub key : ℕ
  pub expires_at : ℕ

pub record Counter : Type 0 where
  pub key : String
  pub count : ℕ
  pub expires_at : ℕ

pub record Store : Type 0 where
  pub clients : List Client
  pub users : List User
  pub roles : List Role
  pub permissions : List Permission
  pub role_permissions : List RolePermission
  pub user_roles : List UserRole
  pub service_accounts : List ServiceAccount
  pub service_account_roles : List ServiceAccountRole
  pub refresh_tokens : List RefreshToken
  pub account_tokens : List AccountToken
  pub api_keys : List ApiKey
  pub audit_logs : List AuditLog
  pub codes : List CodeEntry
  pub nonces : List NonceEntry
  pub counters : List Counter
  -- The mails handed to the mailer: the recipient, the subject, and the registered URL and the token
  -- of the link, oldest first.
  pub outbox : List (String × String × String × String)

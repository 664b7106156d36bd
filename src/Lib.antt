-- ===== src/Lib.antt =====
-- A model of the identity platform's server, with theorems about it.
--
-- The platform keeps tenants (clients), their users, roles and API keys in Postgres, and authorization
-- codes, state nonces and rate counters in Redis. Its routes are handlers over both; services and
-- middlewares are what they share.
--
-- How the code is modelled. A handler is a value of `Exec`: a function from the store and the number
-- of statements so far to an outcome, which is a result or an exception (`Failure`) with the store
-- as it then is. Each database or Redis statement is one step of it (`statement`, `read`, `write`);
-- a transaction that locks its rows is one statement. Before each statement other requests may
-- change the store in any way (`Host.others`), and the database may not answer (`Host.answers`), so
-- that the interleavings and the failures of a request are those of the host it runs on. `Host` also
-- carries the clock, random bytes and the third-party code: argon2, jose, the cipher of OAuth
-- states, the providers' HTTP answers and zod's tests of e-mail addresses and URLs. None of it has
-- an axiom; a theorem names what it needs. Digests are numbers, as are UUIDs. Times are whole
-- milliseconds, so that what the conversion of the database's microseconds to a cursor cuts off is
-- not seen; numbers of the environment are natural. All recursion is structural; only `walk`, a
-- client that follows the cursors of GET /audit, counts its requests, and its theorem says how many
-- are enough. The SDK runs in another process: its functions are values of `Sdk`, a result with the
-- number of requests made, over a host of its own.
--
-- Files and code:
--   Text (Words), Errors        what is used of strings; src/utils/errors.ts
--   Schema (Inserts,            src/db/schema.ts: a record per table, and the inserts with their
--   RoleInserts, KeyInserts)    unique constraints
--   Exec, Exec/Guarantee,       src/utils/env.ts (`Env`), the monad, rules for what every run
--   Exec/Invariant,             guarantees under interference, for an invariant of the store, and for
--   Exec/Inversion              what a run that returned entails
--   Permission                  src/middleware/authorize.ts, hasScope of src/services/apiKey.ts
--   Token, Session, Audit       src/services/token.ts, session.ts, audit.ts
--   Authenticate (Header)       src/middleware/authenticate.ts, src/services/serviceAccount.ts
--   Auth (Rotation, Refresh,    src/routes/auth.ts, src/services/password.ts
--   Password, Logout)
--   Sessions                    src/routes/sessions.ts
--   AccountTokens, Account      src/services/accountToken.ts, src/routes/account.ts
--   OAuth, OAuthRoutes          src/services/oauth.ts, src/routes/oauth.ts
--   RateLimit                   src/middleware/rateLimit.ts
--   Cleanup                     src/jobs/cleanup.ts
--   Verify                      src/routes/verify.ts
--   Admin                       what the administration routes share: guards, principals, ids
--   Roles (Catalog, Replaced)   src/routes/roles.ts
--   Users, ApiKeys,             src/routes/users.ts, apiKeys.ts,
--   ServiceAccounts             src/routes/serviceAccounts.ts, src/services/serviceAccount.ts
--   AuditRoutes (Pages, Walk)   src/routes/audit.ts
--   Clients (Bootstrap)         src/routes/clients.ts
--   Tenancy                     the administration calls together: whose rows refer to whose
--   Sdk (Network, Methods,      sdk/auth-client.ts; its agreement with src/routes/verify.ts, over
--   Middleware, ...)            the answers' JSON (Wire)
--   Adoption (Baseline, Guard,  src/db/adoption.ts, scripts/baseline-migrations.ts
--   Applied)
--   Routes                      the routes of src/routes/auth.ts and account.ts that a limiter guards
--   Examples                    a small deployment and the theorems at it
--
-- Names are the source's in this language's spelling: `replaceUnusedRefreshSuccessor` is
-- `replace_unused_refresh_successor`; the handler of `POST /auth/refresh` is `refresh`.
--
-- Not modelled: the wiring of src/app.ts, the parsing of the environment, seeding, the migration
-- runner, the admin console's page, logging, the details column of the audit log, the text of mails,
-- the rate limiter's headers and the seconds in its message, foreign keys of inserts (only the
-- cascade of a role's deletion is), and of the SDK its default instance, the timer that aborts a
-- request and the details of an error body. Redirect URLs are records of their parameters,
-- `toLowerCase` is that of ASCII texts, and members of a body that have another type than the
-- handler means are left out.
mod Prelude
pub mod Text
pub mod Errors
pub mod Schema
pub mod Exec
pub mod Permission
pub mod Token
pub mod Session
pub mod Adoption
pub mod Audit
pub mod Authenticate
pub mod Auth
pub mod Sessions
pub mod AccountTokens
pub mod Account
pub mod OAuth
pub mod OAuthRoutes
pub mod RateLimit
pub mod Cleanup
pub mod Verify
pub mod Admin
pub mod Roles
pub mod Users
pub mod ApiKeys
pub mod ServiceAccounts
pub mod AuditRoutes
pub mod Clients
pub mod Tenancy
pub mod Sdk
pub mod Routes
mod Examples

-- ===== src/Lib.antt =====
-- The identity provider: accounts, sessions, second factors, external identities, access control
-- and the audit log, as `AuthService` of packages/auth-core/src/auth-service.ts keeps them in the
-- tables of packages/db/src/schema.ts.
--
-- The parts and their files:
-- - Base: names of the libraries, tables as lists of rows (find, select, update, delete: the queries
--   that the code writes with drizzle), JSON values, and lemmas on unique keys.
-- - Store: the rows of the tables and the database (Rows, from packages/db/src/schema.ts), a service
--   call with its state and exceptions (Call, with `transaction` for `withTransaction` of
--   packages/db/src/client.ts and `Failure` for `ApiError` of packages/shared), the inserts with
--   the constraints that they can break (Insert), and the parameters of a call (Env).
-- - Access: `listPermissionKeys`, `authorizationCheck` (Permission), `resolveEntitlementForKey`,
--   `getAuthorizationSnapshot` (Entitlement) and `entitlementCheck` (Check). They only read. Authority
--   says who holds a permission, Source and Precedence where an entitlement comes from.
-- - Audit: `canonicalize`, `writeAuditLog` and `verifyIntegrityRange`, the last from
--   apps/idp-server/src/modules/audit/audit.repository.ts (Canonical, Log, Verify). Chain is about
--   what is written, Intact about what is then verified, Instant about the digest, Stored about
--   what a jsonb column keeps of a payload.
-- - Auth: the methods of `AuthService` (Event, Session, Revoke, Mfa, Login, Password, Email, Social),
--   the writes that they make as a step relation (Write, Follows, Service), the invariant of the
--   tables (Invariant), and what the methods guarantee (Revocation, Creation, Rotation, Credentials,
--   Tokens, Admission, Introspection, Enrollment).
-- - Keys: `KeyStoreService` of packages/auth-core/src/key-store-service.ts: the rotation of the
--   signing keys (Rotate), the published set (Publish) and what the one does to the other
--   (Replacement).
-- - Recovery: `MfaRecoveryService` and its repository, of apps/idp-server/src/modules/mfa: the text of
--   a code (Code), the table (Batch) and the service (Service); Format and Generation are about the
--   text and how it is drawn, Spent, Acceptance and Validity about which codes are accepted, on
--   what Insertion, Drawing and Renewal say of the table and Recording of the logs.
-- - Retention: apps/idp-server/src/jobs/data-retention.ts: the tables that the job reads (Rows), its
--   loop (Loop) and the job (Job); Chunk, Sweep and Pass are about one pass, Run about the job,
--   Turns, Keeping, Passes and Held about legal holds in the middle of a run. Its events have the columns id and created_at, which
--   the rest of the model does not read, so it has its own record of tables.
-- - Server: the login of apps/idp-server/src/modules/auth/auth.service.ts: the rate limiter and the
--   bot risk (Rate), the adaptive risk (Risk), `MfaService` and `enforceMfaForLogin` (Factor), the
--   login (Login); Limit is about the limiter, Level about the risk, and Check, Admission and Entry
--   about who gets in. It reads the tables that Auth writes, and the counters of Redis. Confirm has
--   the one-time tokens of that service, and Spending is about what becomes of one.
-- Each of these but Base and Store has a module Tests, and Server also ConfirmTests, on the
-- parameters of Store/Sample.antt.
-- The methods of `AuthService` call one another and share the database; each is a function from an
-- environment, its arguments and the state to a result and the state after it. A helper stands for
-- each part of a method below an early return. A run of requests is a list, each with the
-- environment of its instant.
--
-- How the model reads the code:
-- - A uuid is a number, a timestamp a number of milliseconds, a nullable column an `Option`, and a
--   number in a JSON value is natural. A table is a list, newest row first; a query without an order
--   takes the first row that fits.
-- - A call runs at one instant (`Env.now`), and no other call runs between its steps. Its n-th random
--   value comes from the parameters of `Env`; nothing assumes that these differ, so a clash of uuids
--   or of hashes is a broken constraint and throws.
-- - argon2, otplib, google-auth-library, node:crypto and `toLowerCase` are parameters in `Env`.
-- - An error has its status and its code, not its message. A call of `onSecurityEvent` is an entry of
--   `World.notified`; what the listener throws at an event is a parameter of `Env`, and so is the
--   code that drizzle-orm shows of a broken unique constraint.
-- - The payload of an audit log is what jsonb keeps of it: a date as text, no field that is
--   `undefined`, a function or a symbol. The payload of a security event is not read again, and
--   stands as it was given. A `bigint` is not modelled; jsonb's order of keys is left out, since
--   the text that is hashed has the keys in order.
-- - Each recursion is on a list, a text or a JSON value, but for two loops on fuel: the loop of the
--   retention job, which is `none` when it runs out, and needs less than a unit for each row if it
--   ends at all; and the loop over random bytes of a recovery code, which fails with a fault of the
--   model, and needs a unit more than the bytes that it draws.
-- - Two inserts of a transaction stand for the one insert of several rows of a batch of recovery
--   codes: either way a refused row leaves none.
-- - In the server's login an insert that throws in `createSecurityEvent` is caught and logged, and
--   writes nothing; its metrics are output. A counter of Redis is a row with its expiry, and `trim`
--   and the watermark of the bot risk, a product with a fraction, are parameters.
--
-- Not modelled: WebAuthn, the configuration service, the OAuth clients and the
-- adapter of oidc-provider, the rest of the server's AuthService (signup, refresh, revocation,
-- introspection, Google login), profiles and the deletion of accounts, the administration of roles
-- and the other scheduled jobs, for which the tables are not all there; the HTTP routes, the SDKs
-- and the web applications, which are input and output.

pub mod Base
pub mod Store
pub mod Access
pub mod Audit
pub mod Auth
pub mod Keys
pub mod Recovery
pub mod Retention
pub mod Server

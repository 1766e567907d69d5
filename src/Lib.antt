-- ===== src/Lib.antt =====
-- The tax practice platform: its API, a NestJS application over a PostgreSQL database.
--
-- The services of apps/api/src are modelled on one database, `Db`, a record with a list of rows
-- for each table of apps/api/prisma/schema.prisma. A service method is an `Action`: it takes the
-- database and gives a result, which may be an error, with the database as it leaves it, also
-- after an error. Requests run concurrently in the source. Where a method is written so that
-- another request may come between, it is cut into stretches that run at once, such as a check, a
-- conditional `updateMany` and what follows, and the theorems speak of every schedule of them.
--
-- Common      lists, tables, Boolean tests, text and integers that the parts share.
-- Types       packages/types/src: enums.ts and, in Types/Rbac, rbac.ts.
-- Dates       common/dates.ts; Dates/Civil is the part of the JavaScript `Date` that it uses, with
--             milliseconds counted from the year 0.
-- DueRules    compliance/due-rules.ts: `expandRule` (expand_rule), `parseFinancialYear` and
--             `assessmentYearFor` (Year), COMPLIANCE_CATALOG (Catalog), `suggestedTypeCodes`
--             (Suggestions).
-- Db          the rows, the actions (Db/Action: `AppError`, `AuditService.log`), and rules for
--             what actions may change (Db/Action/Effects).
-- Tokens      auth/token.service.ts. `rotateRefreshToken` is rotate_check, rotate_claim and
--             rotate_issue, made of one definition for each await; Tokens/Schedule runs any sequence
--             of these stretches, and Tokens/Reuse a claim among them.
-- Auth        auth/auth.service.ts and auth/password.service.ts: registration, login with its
--             lockout (Login), password reset (Reset), `me` (Profile).
-- Access      rbac/rbac.service.ts and common/guards, in the order of app.module.ts.
-- Organizations  organizations/organizations.service.ts.
-- Compliance  compliance/compliance.service.ts: calendars (Calendar, Generation), single filings
--             (Items), lists (Listing), and the unique index of the table (Index).
-- Credentials credentials/credentials.service.ts, to which the envelope encryption is a parameter,
--             and credential-crypto.service.ts (Crypto), which fills it.
-- PortalSessions  portal-sessions/portal-sessions.service.ts. `redeemCredential` is redeem_check,
--             redeem_claim and redeem_release.
-- Notifications  notifications/notifications.service.ts and deadline-sweep.service.ts: `markOverdue`
--             (Overdue), the reminders (Reminders) and `sweep` (Sweep). The guard against two runs
--             at once in a process is left out.
-- Tasks       tasks/tasks.service.ts.
-- DataProtection  data-protection/organization-key.service.ts (Keys) and pii-cipher.service.ts
--             (Cipher). What the process remembers of the keys is part of `Db`.
-- Clients     clients/client-pii.service.ts (Pii) and clients/clients.service.ts (Listing, Service,
--             Team).
-- Documents   documents/documents.service.ts; Documents/Kinds tells which files are accepted.
-- Portals, Reports  portals/portals.service.ts and reports/reports.service.ts.
-- Errors      common/filters/all-exceptions.filter.ts.
-- ApiClient   packages/api-client/src/client.ts: requests and the refresh of tokens.
-- Web         apps/web/lib/format.ts, which apps/desktop/src/lib/format.ts repeats.
-- Common/Paging  the pages that the lists of clients, tasks, documents, filings and audit entries
--             share.
-- Tests       a small firm, on which each theorem with hypotheses is applied.
--
-- Parameters stand for what the services call: SHA-256, the signing of tokens, Argon2 (`AuthEnv`),
-- the envelope encryption of credentials (`CryptoEnv`, `VaultEnv`), the decryption of a client's identifiers
-- and the database's order of compliance types (`ComplianceEnv`), `jwt.verify`, AES-GCM, HKDF, HMAC
-- and the KMS (`KeyEnv`), JSON (`ClientEnv`), the sniffing, scanning and storing of files
-- (`FileEnv`), and the network of a client (`Network`). Random values,
-- times and new identifiers are arguments or come from the database's counter.
--
-- Bounds: the requests with a page of data have fuel, and the results say that none is enough in
-- general; following the cursors of a list has, and one call more than there are rows is enough.
-- The search for a civil date runs over as many years as the day has a
-- number, which is enough since a year has more than one day. Dates before the year 100 are
-- excluded by hypothesis, since `Date.UTC` reads such years as of the twentieth century.
--
-- Left out: the backfill of clients from before the encryption, the metadata of the audit log, columns that no modelled operation reads or
-- writes, controllers, and the user interfaces of apps/web, apps/desktop and apps/extension.
pub mod Common
pub mod Types
pub mod Clients
pub mod Dates
pub mod DataProtection
pub mod Errors
pub mod Notifications
pub mod Documents
pub mod DueRules
pub mod Db
pub mod Reports
pub mod Tasks
pub mod Tokens
pub mod ApiClient
pub mod Auth
pub mod Access
pub mod Organizations
pub mod Compliance
pub mod Credentials
pub mod Portals
pub mod PortalSessions
pub mod Tests
pub mod Web

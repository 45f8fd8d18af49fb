-- ===== src/Lib.antt =====
-- The Python backend of the repository (python/app_pkg): a key-value store, the sessions on top of it,
-- the parts that the domains share, and domains whose state is in the store.
--
-- Core.Table is one namespace of core/store.py over core/store_sqlite.py: the rows in rowid order,
-- with get, put, values, delete, next_id and the atomic do_ (`do`), whose callback is a function from
-- the row to the next row and a reply. Core.Exec is a handler: it takes the store, and returns a value
-- or a problem of core/errors.py (Core.Problem), with the store that it leaves; what was written
-- before a problem stays. Core.Exec.Keeps says that a handler keeps a predicate of the store, whatever
-- its outcome. Core.Session is the session seam of core/store.py, with the state of both its
-- namespaces, Core.ApiKey and Core.Throttle its API-key bearer and its throttle; of core/errors.py,
-- Core.Access is the admin check, Core.OrgRole the role in an organization, and Core.Identity the
-- caller's identity over all of these. Parts.Digest, Parts.Claim, Parts.WellFormed, Parts.Sanitize and
-- Parts.Currency are the files of those names under python/app_pkg/parts (the sanitizer is in
-- well_formed.py); Parts.Paginate is paginate.py, with base64 as Python computes it in
-- Parts.Paginate.Base64, and Parts.Paginate.Reply how each list route ends. Domains.Payments,
-- Domains.JobQueue, Domains.AuditLog, Domains.RateLimit, Domains.Ledger, Domains.Billing,
-- Domains.Users, Domains.Invitations, Domains.Rbac, Domains.ApiKeys, Domains.Orgs (orgs/router.py),
-- Domains.Teams, Domains.Idempotency, Domains.FeatureFlags and Domains.LlmUsage are the files of those
-- names under python/app_pkg/domains: a function per route, and a function per callback that the route
-- passes to the store. The modules below them say what is proved. In each, requests of any callers are
-- served one after the other (`serve`), at any readings of the clock: the store serializes its atomic
-- steps, and a handler is taken whole where the code takes several of them (the audit log's append,
-- the sessions' index, a record that is read and then put).
--
-- Parameters. SHA-256 is `Hash`: a digest is lower-case hex, and equal digests have equal inputs,
-- which is collision freedom as the code relies on it; Parts.Digest.Unary is a function that meets it.
-- Upper-casing is `upper`. The clock's reading is an argument, and so are minted ids and secrets, the
-- authenticated subject, the headers, and the values that the environment sets. Texts are lists of
-- code points, lone surrogates included, which a JSON body can hold. A lone surrogate cannot be
-- encoded: a digest of it, a store key of it and a reply that shows it raise an exception that no
-- handler catches (500). The append of the audit log has this path; in the other handlers the texts
-- that are digested, kept as keys or shown are taken to have no lone surrogate. Keys that the source
-- writes as str(id) are the number itself where that is one to one; amounts that a body check holds to
-- 1 .. 2^53 - 1 are natural numbers, and a negative one is refused like 0.
--
-- No function of the program needs fuel: each is by recursion on its data, and the backoff's exponent
-- is bounded by 30 as in the source. The client of Parts.Paginate.Walk that follows cursors has fuel,
-- and one request more than there are items is enough. Two readings of the clock in one handler are
-- one. The ledger's integers are signed and unbounded, as Python's are.
--
-- Not modelled: the SQL connection with its locks, retries and reentry guard, the web framework and
-- its middleware, the other domains, and the Go and Node implementations of the same contracts.
pub mod Prelude
pub mod Core
pub mod Parts
pub mod Domains
pub mod Tests

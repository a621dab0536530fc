-- ===== src/Lib.antt =====
-- Nowledge: a model of the core of the State/History RAG service, with proofs.
--
-- The service (src/*.rs of the repository) keeps its state in Meilisearch indexes behind a cache. A
-- write is first described as an operation plan: one primary step and its side effects. The plan is
-- validated and becomes an operation record, which the journal advances step by step as the search
-- engine accepts, confirms or refuses each write; a settled record is compacted. Documents
-- that are ingested are first cut into fragments. Before any of this, a guard authenticates the
-- request, counts it with the rate limiter, and checks what its principal may do; and what is stored
-- is stored under an identity of its tenant. What is answered, whole or as a stream, is redacted
-- first. The indexes have managed settings, and a migration, run by hand, creates the index of the
-- operation records with them.
--
-- Files:
--   Prelude          helpers: Boolean tests, lists, `Result` with `?` as `>>=`, Rust strings
--                    (`is_blank` is `trim().is_empty()`), sets of strings as lists, and `Table`, the
--                    `BTreeMap<String, V>` as entries in key order. Prelude/Effects is explicit state
--                    with a `Result`, for calls of a backend.
--   Json             `serde_json::Value`; Json/Equal is its `==`, Json/Canonical the canonical text and
--                    the checksum of src/tenant_scope_v1.rs.
--   Models           the records of src/models*.rs; Models/Operations is src/models_operations.rs.
--   Mutation         src/mutation.rs. Checks, Resources and Plans are the validators; Records is the
--                    record's validation, derived state and creation; Transitions is
--                    `operation_step_submitted`, `_completed` and `_failed`; Compaction and Reports
--                    are the functions of those names. The files below each of them hold its theorems.
--   Fragmenter       src/fragmenter.rs. Chars, Breakpoints, Documents, Bodies and Blocks are its code;
--                    Trim, Ends and Cuts are about a step and the loop; Covers, Limits, Budget and Chunks
--                    about what a caller gets.
--   Boundary         src/http_boundary.rs and src/auth.rs. RateLimiter is the fixed-window limiter
--                    (`check_at`); Principals, Credentials, Authentication and Guards are the
--                    principals, the credential index, `authenticate` and the `from_request_parts` of
--                    the three guards. The theorems are in RateLimiter/Isolation, Bursts and Retry,
--                    in Scan, and in Access.
--   TenantScope      src/tenant_scope.rs. Identities and Documents are its code, from
--                    `persisted_document_id` to `restore_logical_id`; Digits, Injective, Restore and
--                    Rows are the theorems on them.
--   Meili            the settings of the indexes, `settings_for` and `managed_settings_equal` of
--                    src/meili.rs. Settings/Unordered is about its comparison of arrays, and
--                    Settings/Managed about which reported settings are taken for the wanted ones.
--   OperationsMigration
--                    src/operations_v1.rs. Plans and Reports are its data and checks, Reads and Commands
--                    `create_plan`, `apply_plan` and `verify_plan` over a backend; Decisions, Refines,
--                    Refusals, Verified, Signed and Converges are the theorems.
--   Redaction        the redaction of src/util.rs. Texts, Secrets, Exact, Overlaps and Masks are
--                    `SecretMatcher`, Streaming is `StreamingTextRedactor`. Clean and Egress are about what
--                    the redaction lets through, Kept, Shaped and Projections about what the masking ones
--                    keep, Overlaps/* about the matching by prefix tables, Streaming/* about streams.
--
-- How the source is read: `Result<T, MutationPlanError>` is `Checked T`, error texts included. A
-- `HashSet<String>` is the list of its elements, and a comparison of `BTreeSet`s compares elements.
-- A `for` loop with `?` is `for_each` or, where it carries a set or map, `for_each_from`. A
-- `DateTime<Utc>` is a number, of which only the order is used; a `u32` counter saturates at
-- 2 ^ 32 - 1; a float is its bit pattern. A `String` or `Vec<char>` of Redaction is the list of its
-- code points, and an offset in bytes is the rest of the text from there on.
--
-- Fuel: the printing of a decimal number gets one more unit than the number it prints, the loop of the
-- fragmenter one more than the document has characters, and the inner loop of the prefix tables one
-- more than the place it starts from. The bounds in the source are kept: 64 rounds of redaction, and
-- the eight characters of a window.
--
-- Parameters stand for the crates: `serde_json::to_string` and the caller's fingerprint in compaction,
-- SHA-256 in the fragmenter, and HMAC in the guards (as the tag of a token and as `hmac_hex`) and in
-- the ids of stored documents. That two texts have different tags, or hashes, is a hypothesis of the
-- theorems that need it. A `HashMap` of Boundary is the function of its lookups, and an `Instant` is a
-- number of nanoseconds. The migration's backend is a record of its calls on a state; the theorems on
-- it say whether its reads tell the index as it is, and whether it answers. SHA-256 and the texts that
-- `serde_json` prints for strings and numbers are parameters of the checksum. A `usize` is
-- unbounded; what the code casts to `u32` is taken modulo 2 ^ 32.
--
-- Not modelled: the rest of the HTTP layer (routes, middleware, semaphores), request validation, the
-- store's cache and its repository calls, the services over it, the network clients (also the backend
-- of the migration), configuration and metrics, the migrations of stored documents and of audit
-- records, `TenantFilter`, the rest of src/util.rs (`redact_secrets` over JSON values, slugs, scores
-- and query terms), and the vendored turbovec library.
pub mod Boundary
pub mod Fragmenter
pub mod Json
pub mod Meili
pub mod Models
pub mod Mutation
pub mod OperationsMigration
pub mod Prelude
pub mod Redaction
pub mod TenantScope

-- ===== src/Lib.antt =====
-- Verification of the Go services of money-insighter: postgres-topper, a read and write API over
-- tables and views, and plaid-backend-golang, which keeps bank items in step with Plaid.
--
-- Topper. A request's query parameters are validated against a relation of the catalog (`Parse` of
-- postgres-topper/internal/query/grammar.go) and become parameters, from which SQL with bind
-- variables is written (select.go, delete.go, projection.go).
--   Topper/Catalog.antt: postgres-topper/internal/catalog/catalog.go: Relation, Column, `index`,
--     QuoteIdent (`quote_ident`), NewRelation (`new_relation`). Catalog/Ident and Catalog/Index prove.
--   Topper/Query/Types, Filter, Grammar, Json: postgres-topper/internal/query/ops.go, errors.go and
--     grammar.go; url.Values is an association list, each key of Parse is one function from the
--     parameters so far to a result, and an error is the `err` of a result with its message as a
--     constructor. Filter/Safe, Grammar/Reserved and Grammar/Safe prove.
--   Topper/Query/Projection, Select: projection.go, select.go and delete.go. A strings.Builder is the
--     returned text, the shared `args` slice is passed and returned, and the panic of `c.Values[0]` is
--     `none`. Select/Pieces is the independent description (SQL text, values and bind places as one
--     list), Select/Refines, Select/Erase and Select/Ordering prove.
--   Topper/Query/Values, Literals, Upsert, Reread: upsert.go. A decoded JSON value is a data type, the
--     row an association list whose order is the order of the map, and the text of an argument is
--     built by `array_literal`. Reread parses PostgreSQL's array syntax, Upsert/Refines proves.
--   Topper/Introspect, Views, Load: postgres-topper/internal/catalog/load.go and views.go. What the
--     database answers is a parameter (`Database`). Load/Sound, Sound/Tables, Sound/Views and Safe prove.
--   Topper/Auth.antt: postgres-topper/internal/auth: the keyring and the middleware. SHA-256 is a
--     parameter. Auth/Ring and Verdict prove.
--   Topper/Cache.antt: postgres-topper/internal/cache/cache.go. The clock's readings and what other
--     requests do between the two loads of `Do` (`fetch`) are arguments; the body of a fill is too.
--     Cache/Bounds and Cache/Fresh prove.
--
-- Plaidsync. `SyncItem` locks an item, drains Plaid's pages from its cursor, applies them in one
-- transaction with the new cursor and an audit row, and maps failures to outcomes and item states.
--   Plaidsync/Civil.antt: plaid-backend-golang/internal/civil: dates. Civil/Digits, RoundTrip, Strict
--     and Order prove.
--   Plaidsync/Money.antt: internal/money: amounts as canonical texts; the stages of `canonicalize` are
--     one function each. Money/Normal, Printed, Reread, Canonical, Layout,
--     Value and Compare prove.
--   Plaidsync/Types, Errors: internal/store/types.go and internal/plaid/errors.go.
--   Plaidsync/Paginate.antt: `paginate` and `backoff` of internal/sync/engine.go. The client is the
--     reply to the n-th call, since Plaid may answer a repeated cursor differently; the wait and the
--     jitter are functions. Paginate/Drain, Attempts and Delay prove.
--   Plaidsync/World.antt: WithItemLock (internal/store/lock.go), SetItemStatus (items.go),
--     insertSyncRun (runs.go) and the cursor update of ApplySyncBatch (sync_batch.go) on a database of
--     one item row, its runs and its applied batches. What the database decides (begin, lock, load,
--     commit and write failures) is an `Env`.
--   Plaidsync/Runs, Callback, Engine: `SyncItem`: what it records, the callback under the lock, and
--     what follows a commit or a rollback. The captured variables are a record that survives a
--     rollback, as in the source. Engine/Keeps, Moves, Cursor, Success, Reports, Verdict and Audit
--     prove.
--   Plaidsync/Rows.antt: ApplySyncBatch (internal/store/sync_batch.go) on the tables of accounts and
--     transactions, each an association list by primary key; a result is `good` or `bad` with an error.
--     A `Server` is what the database decides: the error of each statement, its clock, and which raw
--     payloads it holds for distinct. Rows/Dedupe, Accounts, Transactions, Upserts, Links and Apply
--     model; Latest, Lookups, Later, Keeps, Listed, Entries, Removed, Rerun, Again, Written, Replay,
--     Passes and Linked prove.
--   Plaidsync/Items.antt: internal/store/items.go on the table of items, whose CHECK constraints stand
--     in migrations/00001_init.sql. Items/Steps is the relation of the operations that write;
--     Lifecycle relates a row to the one item of World; Consistent, Removed and Transitions prove.
--   Plaidsync/Crypto.antt: internal/crypto/keyring.go. AES, GCM and the nonce that the random source
--     fills in are parameters. Crypto/Ring, Keys, Valid and Rotation prove.
--   Plaidsync/Jobs.antt: internal/store/jobs.go, queue.go and uuid.go: each UPDATE of sync_jobs is a map
--     over the rows under the statement's WHERE. Jobs/Steps is the relation of the operations; Steps,
--     Once, Claim and Claimed prove.
--   Plaidsync/Runner.antt: internal/jobs/runner.go: Enqueue on the table, what process decides for a
--     claimed job and its sync's result, and the count of follow-ups. Runner/Decisions proves.
--   Examples: the theorems at concrete inputs.
--
-- Bounds and fuel. The outer loop of `paginate` counts MaxAttempts down. The inner loop follows Plaid
-- until a page has no more behind it, which nothing in the source bounds: it runs on fuel, which
-- has to cover the number of pages. `splitTopLevel`, the digits and the sorts recurse on their
-- input. Decimal conversion has fuel one above the number. Go's int is a natural number where the
-- source keeps it non-negative; strconv.Atoi has its 64-bit range.
--
-- Not modelled: HTTP handlers and clients, configuration, SQL execution beyond the effect of a
-- statement on its rows, migrations, recurring streams, the workers and the scheduler of the job
-- runner, base64 keys, the desktop application. World keeps one item row for SyncItem; Rows and Items
-- have the tables. Columns that only describe (names, categories) are one field of a transaction or an
-- account. Texts are lists of the byte codes of UTF-8. A context that ends shows as the error of the call.
pub mod Prelude
pub mod Topper
pub mod Plaidsync
pub mod Examples

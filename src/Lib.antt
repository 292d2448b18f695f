-- ===== src/Lib.antt =====
-- contrato: a store of contracts, a versioned capability graph and the policies that decide on
-- requests, behind an HTTP API (internal/, in Go).
--
-- How the parts fit. HTTP handlers (internal/api/httpapi/handlers) read a request, call one or two
-- operations of a repository and answer through respond/json.go. A repository
-- (internal/storage/sqlstore) turns an operation into a few SQL statements. Records are
-- versioned: `Put` inserts a row with the next version of its key, a read takes the row with the
-- highest version, and an expected version is checked by a statement of its own. A
-- record that names no model is pinned to the latest enabled model version of its tenant. Policies
-- (internal/opa) are evaluated over a resolved part of the graph and merged into one decision. A
-- bundle (internal/modelio) is a whole model in JSON, and is linted before it is enabled.
--
-- The files.
--   Base, Json         helpers; JSON values as Go code holds them in `any` and `map[string]any`.
--   Storage            internal/storage/storage.go, errors.go and capabilities.go.
--   Storage/Interfaces the interfaces of storage.go; a method is a function of the process's Host.
--   Storage/Host       what the code uses of database/sql and context: databases, transactions and
--                      timers that are open, each with a number, and statements through a querier.
--                      Handles, Numbers and Effects are about what a call opens and closes.
--   Storage/Server     the tables of migrations/postgres/0001_init.sql. What the service decides by
--                      itself (refusals, UUIDs, clocks, collation) is a function of the number of
--                      statements that ran.
--   Storage/Exec       code that runs statements: from a world to a result and a world. A statement
--                      that fails changes no table. Storage/Statements has its laws,
--                      and Keeps and Succeeds have rules for whole programs.
--   Table              ORDER BY … LIMIT 1, MAX and DISTINCT ON over the list of a table's rows, the
--                      last one inserted first.
--   Repo/Versioned     what the repositories share: check_expected and insert_row. The children
--                      have the rules by which a whole write is seen to append one row or nothing.
--   Repo/ModelVersions, Graph, Properties, Contracts, Objects, Registries
--                      the files of internal/storage/sqlstore with these names; Registries is
--                      tenants_repo.go, types_repo.go and statuses_repo.go. `Put` is put_node,
--                      put_contract and so on; append_contract and append_object are `Put` before
--                      the returned row is scanned.
--   Repo/Appending, Pinning, Calls, ReadBack, Contents, Listing
--                      the theorems on writes, on sequences of them, and on what reads find.
--   Repo/Concurrency   two clients whose statements interleave in any order: `PutNode`, from its check
--                      of the version on, as a writer of two statements (Nodes), and two of them in
--                      step (Race).
--   Http               internal/api/httpapi/respond/json.go and, in its children, the handlers. A
--                      handler is a function of the query and path parameters and of the decoded
--                      body (or the error of decoding it).
--   Resolution         the records of internal/resolution/types.go and plan.go.
--   Policy             internal/opa/eval.go.
--   Bundle, Bundle/Lint
--                      internal/modelio/bundle.go and lint.go.
--   Bundle/Import, Bundle/Export
--                      ImportBundle and ExportLatestEnabled of internal/modelio/io.go.
--   Snapshot           the rows of one model version, as the analyses and the export query them.
--   Access             internal/authn, internal/authz and their noop providers, the middleware
--                      withAuth, internal/config/config.go, and New of internal/app/app.go.
--   Digraph            the calls of the graph library, and the loops that fill a graph; the laws of
--                      the library are a record in Digraph/Laws.
--   Frontier, Waypoint
--                      internal/api/httpapi/handlers/frontier/analysis.go and waypoint/analysis.go;
--                      Frontier/Holes, Boundary and Implied are the handlers, and so is
--                      Waypoint/Paths.
--   Routes             the table of routes of internal/api/httpapi/server.go.
--   Server             NewServer of internal/api/httpapi/server.go: the middleware, the routes and the
--                      handlers as one function of a request.
--   CommandLine        the commands of cmd/contrato/main.go, up to the start of the HTTP server.
--   Store              internal/storage/sqlstore/store.go and tx.go. Store/Driver is
--                      drivers/postgres/driver.go with Run of internal/migrate/migrate.go;
--                      Store/Requests is any call of a repository's method, and Store/History what a
--                      process does with stores over time.
--   Process            `main` to its return, with New and Close of internal/app/app.go on a host, and
--                      the deferred calls.
--   Tests              a small database, and each theorem with hypotheses applied to it.
--
-- Choices. `int` values that are versions or counts are ℕ, without a largest value; an expected
-- version, a page limit and a TTL are integers. A `time.Time` is a number, 0 for the zero time. A
-- `[]byte` is its text. No definition runs on fuel: every loop of the source is a structural
-- recursion on a list. `encoding/json`, the router, the files, the graph library, the OPA engine, SHA-256, the
-- environment, the opening of the store and the order in which `range` meets the keys of a map are
-- parameters, and so are the providers that the middleware is given. A JSONB column holds the text
-- that was written, and a UUID column the text that was given, so two spellings of one id are two ids.
-- A result that breaks off makes its loop fail, except where the code does not look at the error of the
-- rows (the properties in waypoint/analysis.go): that loop sees the first rows. Each
-- statement is one step: where two inserts of one version overlap, the primary key refuses one of
-- them, except in `objects`, which has no such key.
--
-- Databases, transactions and timers have the numbers in which the process made them. A transaction
-- or a database that is over refuses every statement; a statement of a transaction acts on the tables
-- at once, since the only transaction of the code is read-only. The HTTP server of net/http, with the
-- requests that it handles, and the migrations of goose are parameters.
--
-- Not modelled: overlapping inserts into `objects`, the router's middlewares RealIP and Recoverer, the
-- JSON text of an answer, transactions that write, contexts that expire, except as refused
-- statements, and the width of integer columns.
pub mod Base
pub mod Table
pub mod Storage
pub mod Repo
pub mod Http
pub mod Json
pub mod Resolution
pub mod Policy
pub mod Bundle
pub mod Access
pub mod Digraph
pub mod Frontier
pub mod CommandLine
pub mod Routes
pub mod Snapshot
pub mod Store
pub mod Process
pub mod Server
pub mod Waypoint
pub mod Tests

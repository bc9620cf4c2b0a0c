-- ===== src/Lib.antt =====
-- MirrorStack application module SDK: a model of the parts of the SDK that decide what a module
-- keeps, runs and lets in, and the theorems that make them correct. Paths are from the root of
-- the repository.
--
-- The parts and how they interact. A module declares what it is to the registry
-- (internal/registry); its routes stand behind the guards of auth, in the order in which
-- internal/core mounts them; the platform installs, upgrades and downgrades it through the
-- lifecycle handlers (system/lifecycle.go), which run the migrations that internal/migration
-- lists and slices; database pools and cache clients live in the reference-counted cache of
-- internal/refcache. A background task runs once under a claim of the task broker
-- (internal/runtime), which renews the credentials that the handler uses and lends them to the
-- metering (meter), by which a module reports its usage.
--
-- Base: the library's names, native lists, the association list for Go's maps (Dict), signed
--   integers on the native numbers (Int), and strconv.Atoi with its 64-bit range (Atoi).
-- RefCache: internal/refcache/refcache.go. Each section between Lock and Unlock of `Get`,
--   `releaseFunc` and `Close` is a function on the cache (`hit`, `insert`, `follow`, `release`,
--   `close`), with the clock and the order of a range over a map as arguments; `closed` logs the
--   calls of `closer`. Evict is about `evictOldestLocked`, Bounds about any sequence of calls,
--   Pins, Sections and Safety about any interleaving of the sections of parallel callers (a step
--   relation), Races about two interleavings that the comments of the source leave out.
-- Migration: internal/migration/runner.go (`slice`, `slice_down`, `apply`, `apply_down`), and in
--   Files the listing of internal/migration/migration.go and `List`. Files and transactions are
--   arguments. `sort.Slice` is the argument VersionSort, which states that it permutes and sorts;
--   Files/Order shows that insertion sort is one. Window and Slices are about the ranges of
--   versions, Runs about what a run reports.
-- Lifecycle: the handlers of system/lifecycle.go from the decoded body on. Gate is about what a
--   deployed call must carry, Calls and Verbs about upgrades and downgrades in a row. Seed is
--   `SeedHandler`, with pgx's connection and quoting as fields of SeedEnv, and Seed/Rows is about
--   first chunks for a table that has rows.
-- Registry: internal/registry/registry.go, validate.go and exposure.go; the panics of internal/core
--   on what is declared twice test the Booleans that these operations return, and are not modelled. Names is the validation
--   of names, Named the loop by which a first declaration wins, Merge and Dependencies the
--   declarations that merge, Calls any sequence of declarations.
-- Auth: auth/middleware.go, auth/invocation.go, auth/permission.go, auth/context.go and
--   internal/actor/context.go. Headers is net/http's header map, Actor the values in a context,
--   Guards the three guards and `RequireRoles`, Scopes their order of internal/core/module_scopes.go.
--   The decoding of an invocation (internal/invocationwire) is the interface Wire.
-- Page: httpx/page.go. `Limit`, pages, and `Cap`, which halves a list until it fits. Its loop runs
--   on fuel, one round for each item, which the halving never exceeds.
--
-- Wire: internal/invocationwire/wire.go, the trusted context of an invocation: Shapes is its data
--   (invocation/context.go) and the tests of its texts, Validate is `Validate`, and Wire itself the
--   JSON form and the header. The guards of Auth see of it what their interface Wire names. Canonical
--   is about the header, Accepted about identities and cookies that pass. Legacy is the
--   compatibility headers, Projected is about those that pass.
-- Ids: internal/ids/uuid.go, the canonical and the compact spelling of a module's identity.
-- Task: the one-shot runtime of internal/runtime. Broker is the client of task_broker.go over an
--   HTTP transport that is an argument; its world keeps the requests that were sent. Renewal and
--   Manager are `taskResourceManager` of task_worker.go, one function for each section under its
--   lock, Claims the configuration and `validateClaim`, OneShot `RunOneShot`. The handler and the
--   heartbeat's goroutine meet in the manager only, so a run is a list of events in the order of the
--   locks; the handler is a function that gives this list and its end, and the theorems hold for
--   every such list. Reports is about the retries of a terminal callback, Keeps, Scopes, Operations
--   and Session about what the operations and the events of a run keep, Terminal, Runs and Outcomes
--   about what a run sends, Grounds about what a handler is started on, Vending and Late about the
--   credentials, Delay about the heartbeat.
-- Meter: meter/meter.go, meter/event.go and meter/observation.go. Declared is about the registry of
--   metrics, Spec about the first declaration of a name, Recorded about what the three ways to report send.
--   EventId is `validateEventID`, Metadata `validateAndCopyMetadata` on the tree that encoding/json
--   gives; the digits of an exponent are counted in 20 rounds, which an int64 never exceeds.
--
-- Conventions. A text stands for its bytes, one character each, but in Lifecycle/Seed and Wire, whose
-- texts come out of JSON, for its Unicode characters. Go's int is a signed integer; only Atoi meets
-- its bound, and states it. Every loop but that of `Cap` is a recursion on a list, and needs no fuel.
-- Sizes and times are native numbers; an instant is its nanoseconds since Go's zero time, and none is
-- before that. The loop of `terminalPost` is a recursion on the rounds that are left. A panic is
-- `none`. A handler's response is its status, what it reports and the cause of its error; texts of
-- errors and logging are left out.
--
-- Not modelled: SQL, JSON, base64, HTTP transport and the clients of Postgres, Redis and S3, which
-- are third parties; the file of a claim; and the components that the manifest
-- lists as such (contributions, audit, storage, the module core).
pub mod Base
pub mod RefCache
pub mod Migration
pub mod Lifecycle
pub mod Registry
pub mod Auth
pub mod Page
pub mod Ids
pub mod Task
pub mod Meter
pub mod Wire

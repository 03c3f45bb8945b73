-- ===== src/Lib.antt =====
-- Verification library of the Krab framework: models of its core, written from the Rust sources,
-- with the theorems that make them correct. Paths are from the repository's root.
--
-- Parts. The framework core (crates/framework/krab_core) offers each service an in-process key-
-- value store and a circuit breaker, and its user interfaces a graph of signals. The store keeps
-- rate-limit counters, page-cache entries and render leases; the page cache (ISR) is a client of
-- the store's trait, and the breaker guards outbound calls. The orchestrator is a program of its
-- own, which starts the services of a manifest in dependency order and restarts those that exit.
-- Two middlewares decide which requests reach a service's handlers; they keep revoked tokens and
-- counts of failures in the store.
--
-- Files.
--   Common          shared names, Boolean tests, lists, texts and their decimal numbers
--   Resilience      src/resilience.rs of krab_core
--     Window        RateBucket and RateWindow: new, current_second, record (here record_sample),
--                   totals, reset; Window/Ring and Window/Counts hold the proofs
--     Breaker       CircuitBreaker: from_config, allow_request, record_success, record_failure,
--                   should_trip, trip_open, close_and_reset; a sequence of events is what the
--                   mutex of SharedCircuitBreaker lets through
--   Store           src/store.rs of krab_core
--     Interface     trait DistributedStore as a record of operations, and its laws
--     Memory        MemoryStore: each operation by its name; the children hold the proofs
--   Isr             src/isr.rs of krab_core: IsrCache over any store that keeps the laws of
--                   Store/Interface; Store/Memory/Lawful shows that the in-process store does
--   Entries         the part of HashMap that the modelled code uses
--   Orchestrator    src of krab_orchestrator (crates/tooling/krab_orchestrator)
--     Configuration the manifest of configuration.rs and its effective_ functions
--     Identity      validate_service_identity and resolved_env of configuration.rs
--     Startup       resolve_startup_order of main.rs, with its inner function visit
--     Supervision   supervise_children of process_runtime.rs: reap_exited_children and
--                   spawn_due_restarts; View and Tick reduce a tick to one
--                   service, Restarts and Backoff follow runs
--     Shutdown      shutdown_children of process_runtime.rs: which services it stops, in which order
--   Signal          src/signal.rs of krab_core: signals, memos, their subscribers, the propagation of
--                   a write and the recomputation of a memo
--     Calls         what a program does with them; Histories is about any sequence of it
--     Reference     the value of a memo with no cache, which the caches are compared with
--     Fresh, Tracking, Computing, Recompute, Memo, Marking, Watching, Writing, Creating, Disposing,
--     Steps         the invariant of the graph, and how each operation keeps it
--   Auth            src/http_auth.rs of krab_core, with is_admin_api_path and parse_csv_set of
--                   src/http.rs and is_public_path of src/http_runtime.rs
--     Paths, Claims, Algorithms
--                   what is read off a path, a token and the settings
--     Policy        AuthPolicy::enforce; Among and Permits show what it demands
--     Verify        JwtVerifierCache and the search of authorize_jwt_detailed for a key
--     Authorize     authorize_jwt_detailed and authorize_static_detailed; Provided, Verified and Authentic are
--                   about them
--     Middleware    auth_middleware and service_auth_middleware; Guarded and Reached are about them
--   Tests           runs at fixed inputs, and each theorem at an input that meets its hypotheses
--
-- How state corresponds. A struct is a record with the same fields; a method takes the record and
-- returns the new one with its result. An Instant is a number of nanoseconds that the caller
-- passes in; where one call reads the clock twice, it takes both readings. A String is the list of
-- its code points. Unsigned integers are natural numbers; saturating_add keeps its bound, and a
-- wrapping counter its modulus. A match on self.state is a function by clauses beside the method
-- (allow_in, success_in, failure_in). Where tasks can interleave, the steps are those of the locks:
-- get of the store is get_read under the read lock and get_reap under the write lock.
--
-- Signals. A node is named by its index in place of its Rc, and a memo, once made, stays. The
-- closure of a memo or an effect is data: it reads signals and memos one at a time, and each value
-- that it is given decides how it goes on (Reads); what else a closure may do is not modelled. The
-- thread's current subscriber is an argument of a read. The effects of a write are the queue that
-- it returns. A panic is a result of its own (Reading). Handles exist before they are used, so that
-- a closure reads memos that were made before its own.
--
-- Authentication. JSON values, the decoding of a token's header and of the token under a key, and
-- what serde makes of the claims are parameters, by the calls that the code makes of them. The
-- vectors that JwtVerifierCache indexes alike are one list of records. The key sets of a provider
-- are those after prepare_for_kid. Times count from 1970. An answer is a status, or the request is
-- passed on with its caller; the counters of the metrics are left out.
--
-- Bounds and fuel. Every loop is over a list (the queue of evict_for_capacity, the buckets of
-- totals) and needs no fuel, but for the walk of resolve_startup_order: its fuel is one more than
-- the number of services, which is enough since each call in progress has marked a service of its
-- own; in Signal a read recurs on the number of memos, which is enough since a closure reads
-- memos made before it, and the walk of a write on one more than the number of memos with
-- subscribers, each of which it empties as it goes; the digits of a number recur on the number itself, which is enough because a tenth is less.
--
-- Not modelled. The owners and contexts of signals, and when queued effects run; logging and metrics; the floating-point comparison of the failure rate, which is a
-- parameter (F64); JSON and SHA-256, which are the parameter Codec; the sum of an Instant and a
-- Duration does not overflow; the Redis store; what the operating system does to processes, which
-- is an input of Supervision; the order in which HashMap iterates, on which no theorem depends.
pub mod Auth
pub mod Common
pub mod Resilience
pub mod Entries
pub mod Orchestrator
pub mod Signal
pub mod Store
mod Tests
pub mod Isr

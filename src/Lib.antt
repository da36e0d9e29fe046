-- ===== src/Lib.antt =====
-- Verification of the transaction API: money moved between accounts, scheduled and batch
-- transactions, event-sourced aggregates, and beside them the circuit breaker, the load balancer,
-- the fallback manager and the workers.
--
-- The parts, and the files that model them (paths from the repository's root):
--   pkg/domain/errors.go, the statuses and types ............. Domain/Base
--   pkg/domain/balance.go (NewBalance, Add, Subtract) ......... Domain/Balance
--   pkg/domain/transaction.go (NewTransaction, UpdateState) ... Domain/Transaction
--   pkg/domain/advanced_transaction.go ........................ Domain/Scheduled, Domain/Limit,
--     Domain/Balance/Currency
--   pkg/repository/balance.go, transaction.go ................. Repository, Repository/Store,
--     Repository/Queries
--   pkg/service/transaction.go ............................ Service/Transaction,
--     Repository/Queries
--   pkg/service/advanced_transaction_service.go ............... Service/Ports, Service/Scheduled,
--     Service/Batch
--   pkg/domain/events.go, aggregate.go ........................ Sourcing/Events, Sourcing/Aggregate,
--     Sourcing/Balance
--   pkg/repository/event_store.go ............................. Sourcing/Store, Sourcing/Loading,
--     Sourcing/Queries
--   pkg/service/event_replay.go ............................... Sourcing/Replay, Sourcing/Queries
--   pkg/circuitbreaker/circuit_breaker.go ..................... Breaker, Breaker/Types,
--     Breaker/Transitions
--   pkg/loadbalancer/load_balancer.go ......................... LoadBalancer
--   pkg/database/replication.go ............................... Cluster, Cluster/Monitor
--   pkg/domain/user.go ........................................ Domain/User
--   pkg/service/auth.go, pkg/domain/auth.go,
--     pkg/repository/user.go .................................. Auth
--   pkg/middleware/auth.go, authorization.go, validation.go,
--     pkg/server/handlers/auth.go, the routes they guard ...... Auth/Middleware
--   pkg/cache/redis.go ........................................ Cache, Cache/Keys
--   pkg/cache/invalidation.go, warmup.go ...................... Cache/Invalidation, Cache/Warmup
--   pkg/service/cache_service.go .............................. Cache/Service
--   pkg/worker/batch_processor.go ............................. Worker, Worker/Life
--   pkg/worker/transaction_worker.go, the statistics of
--     pkg/domain/interfaces.go ................................ Worker/Pool,
--     Worker/Pool/Life
--   pkg/fallback/fallback.go .................................. Fallback, Fallback/Parallel
-- A function of the source has its name here, in lower case with underscores. The children of a
-- component's module hold its theorems. Tests holds tests, a database and a table of events in
-- memory, and the theorems at concrete inputs.
--
-- How they interact: the transaction service calls the two repositories, which call the database;
-- the services of scheduled and batch transactions call the repository interfaces, and the methods
-- of balances and transactions; the repository of aggregates takes the events that an aggregate has
-- collected, stores them with consecutive versions, and loads them again. The cache service reads
-- through the cache, and the invalidation and the warmup work on the same server. The middlewares
-- check the tokens that the authentication service signs. The circuit breaker,
-- the load balancer, the database cluster, the fallback manager and the workers are separate
-- components.
--
-- How the source is modelled:
--   - Amounts (float64 in columns decimal(19,4)) are integers in units of 0.0001, so sums are exact
--     and rounding is not modelled. Times and durations are nanoseconds.
--   - Every reading of the clock and every new identifier is an argument, in the order of the code.
--   - gorm, encoding/json, uuid and the repository interfaces are records of operations, which
--     definitions take as arguments; IsDatabase, IsStorage, IsEventTable, IsJson and ReadsBack name
--     what a theorem relies on, and RequiresData that the column of an event's data is NOT NULL. A read returns a copy of a row, as gorm does.
--   - A handler is a function of the state of the storage; its error, its panic or its value is a
--     result. Writes whose error the source drops are dropped here too.
--   - A call of the circuit breaker is one goroutine's, with the two mutexes as part of the state: a
--     call that asks for a mutex which it holds ends in `blocks`. What other goroutines do while the
--     guarded function runs is part of that function.
--   - Counters (int64, uint64) and the limits of a configuration (int, never negative) are unbounded:
--     a counter grows by one or two in a call.
--   - Redis is a record of commands over its state; IsRedis (Cache/Server) says what a command does
--     where it succeeds, and lets any command fail and any entry go at any time. Bytes, texts of
--     identifiers and encoding/json are parameters; ReadsBack names what a codec keeps of a value.
--   - bcrypt and jwt are records; IsJwt (Auth/Laws) says which tokens parse. A header is split into
--     its words by a parameter. The clock of the tokens is read in seconds.
--   - A limit and an offset (int) are integers of 64 bits, and their sum wraps around.
--   - What goroutines do to a database cluster is a list of steps in any order: each of them holds
--     the mutex of the cluster, or is one operation of its channel. GetReadDB takes the read lock
--     a second time when it calls GetSlaveDB; get_read_db_amid says when it then waits for ever. Weights (int) are unbounded.
--   - The goroutines of a batch job call the service in the order of a schedule, an argument.
--   - The functions that the fallback manager is given act on a state of the world, a parameter, as
--     do sleeping and the end of a context; its cache is a function from keys.
--   - There are two uses of fuel. state_changed_event_type may recurse without end in the source: one
--     unit is enough wherever it returns at all, as a lemma beside it shows. replay_from is given one
--     unit for each batch; one more than the number of events is enough.
-- Not modelled: logging, metrics and printed messages, metadata of events (never set), contexts of requests, the
-- tickers, the other handlers of HTTP, and the other packages; see the list of components.
pub mod Auth
pub mod Breaker
pub mod Cache
pub mod Cluster
pub mod Domain
pub mod Fallback
pub mod LoadBalancer
pub mod Prelude
pub mod Repository
pub mod Service
pub mod Sourcing
pub mod Worker
mod Tests

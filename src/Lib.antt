-- ===== src/Lib.antt =====
-- ethereum-fetcher: the service that answers for Ethereum transactions by their hashes.
--
-- The program is an HTTP server over an application service. The server checks tokens and
-- validates requests. The service looks the hashes up in a PostgreSQL store, links what it finds
-- to the user, asks an Ethereum node for the rest, stores what arrives and answers in the order of
-- the request. The node client is throttled by a rate limiter.
--
-- Which file models which part, with paths from the repository's root:
-- - Exec and Result: a Go function that returns a value or an error and changes state is a function
--   from a state to a result and a state. What was written before an error stays written. A nil
--   dereference is a result of its own, `panic`. Errors keep the parts that the code looks at.
-- - Models: the rows of internal/store/pg/models (`Transaction`, `User`, `GetUsers`).
-- - Providers: the interfaces of internal/store/api.go and internal/network/api.go.
-- - Service: internal/app/service.go. `get_transactions_by_hashes` is `GetTransactionsByHashes`,
--   with a function for each of its loops; `availableMap` is an association list, `World` holds the
--   state behind the store and behind the node. What a channel gives and whether the context ends
--   first is decided by the node's state.
-- - Network/RateLimiter: internal/network/ratelimiter.go. The channel of credits is a number with a
--   capacity; `Step` has a constructor for each case of the two `select` statements, and a `Run` is
--   any interleaving of callers, ticks and cancellation.
-- - Network/Node: `ScheduleTask` of internal/network/node.go and the goroutines of `NewEthNode` of
--   internal/network/setup.go: each task by its stage and by the sends and closes of its channel, and
--   `Step` with a constructor for each operation on a channel.
-- - Network/Fetch: `GetTransactionByHash` of internal/network/node.go, as a function of the client's
--   two answers, the order in which errors arrive and whether the context is done. The values of
--   go-ethereum are records of the texts that are read of them.
-- - Network/Fetch/Waiting: the loops of the two fetchers of node.go around `Allow`.
-- - Exec/Retry: a loop that tries until an attempt ends it.
-- - Pg/Database: what the store asks of PostgreSQL through database/sql and SQLBoiler, a parameter.
-- - Pg/Relations: `AddUsers` of internal/store/pg/models/transactions.go.
-- - Pg/Upsert: internal/store/pg/models/psql_upsert.go, the text of an upsert.
-- - Pg/Hooks: the hooks of internal/store/pg/models/transactions.go.
-- - Pg/Rows: the code that SQLBoiler generates for the rows of a table, in transactions.go, users.go
--   and boil_types.go of internal/store/pg/models. The two files differ in names, which are a `Table`;
--   Rows/Tables has both, and Rows/Users the functions of users.go. Rows/Names has the names of columns
--   and relations, Rows/Where the helpers for conditions, and Rows/Dialect boil_queries.go.
--   Rows/Queries, Rows/Writes and Rows/Deletes have the operations, Rows/Caches the statements that
--   are kept from one call to the next, and Rows/Boiler what is called of SQLBoiler and of
--   database/sql, which are parameters.
-- - Pg/Links: the relation of transactions and users, for pointers: `AddUsers`, `SetUsers`,
--   `RemoveUsers` and `LoadUsers`, and those of users.go. A `Graph` is the rows and the relations
--   behind the pointers; Links/Tables has the two sides, and Links/Loading/Given the argument of an
--   eager load, an `interface{}`.
-- - Pg/Store: internal/store/pg/db.go, with the counter `txCount` that all requests share.
--   Store/Durable says what is asked of PostgreSQL, and Store/Served is the service over this store;
--   Store/Linked says it of the links of a user, and Store/Mine has GetMyTransactions after a request.
-- - Pg/Store/Generated: the queries and upserts of db.go over the code of Pg/Rows, as a database for
--   Pg/Store. Generated/Statements says what is asked of single statements, and Generated/Committed
--   carries that through the generated code, its cache of statements and the store to the service.
-- - Server/Http, Server/Libraries: what a handler reads and writes (internal/server/webapi.go and the
--   types of handlers.go), and the libraries it calls, which are parameters.
-- - Server/Auth: the middleware of internal/server/auth.go. A handler is a function from a request to
--   a response and the next state of the service; the context value `userIDKey` is a field.
-- - Server/Handlers: internal/server/handlers.go, and the table of endpoint.go as `serve`.
-- - Server/Running: `Run` of webapi.go and its goroutine, as steps that may come in any order.
-- - Process: the start of the program. Process/Config is cmd/config.go over viper, Process/Container is
--   internal/di/setup.go over dig, with what each constructor gives and asks for, Process/Main is
--   main.go with cmd/logger.go, and Process/Shutdown is cmd/terminate.go: its goroutine, the signals
--   and the server of Server/Running, as steps.
-- - Pg/Overlap: `findLongestOverlap` of internal/store/pg/setup.go.
-- - Pg/Paths: `splitPath`, `joinPath` and `removeOverlap` of setup.go, with what they use of the
--   packages strings and path/filepath as it is on Unix.
-- - Pg/Setup: `NewStore` of setup.go. What it calls is an `Environment`; a fatal log is an outcome.
--
-- The loops are over lists and recurse on them, and need no fuel, but for three: that of `NewStore` and
-- those of the two fetchers run on fuel, one unit for an attempt, and more units than the attempts up
-- to one that ends the loop are enough. Go's `int` is an integer without a bound: the program only
-- counts with it. The index arithmetic of slices and of the path search is on natural numbers.
--
-- Not modelled: logging and debug output; the conversion of rows by reflection, of which an eager
-- load gets the result as a `Reflected`; the limits of the connection pool; the matching of routes;
-- the constructors that only fill a struct; the generated mocks; the goroutine that `MergeContexts`
-- starts. The relations of Pg/Links are taken to share no array: a caller that goes on using a slice
-- that it has given to `AddUsers` is not covered. In
-- Pg/Store rows are values: what an upsert's statement writes back to the row that it was given is
-- dropped.
mod Prelude
pub mod Result
pub mod Exec
pub mod Models
pub mod Providers
pub mod Service
pub mod Network
pub mod Pg
pub mod Server
pub mod Process

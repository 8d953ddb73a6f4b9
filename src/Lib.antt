-- ===== src/Lib.antt =====
-- go-metrics-harvester: an agent that polls metrics of its machine and publishes them in batches,
-- and a server that keeps them.
--
-- How the parts work together. The agent (internal/agent) polls into a map and hands the map to
-- workers, which publish its values with a client (internal/httpclient). The client writes the
-- batch as JSON, encrypts it (internal/crypto), compresses it, signs it, names its own address and
-- posts it, with retries (pkg/retry); another client (internal/grpclient) calls the gRPC methods of
-- the server (internal/grpc). The server (internal/server) checks the signature (internal/hash),
-- decompresses (internal/compress), logs (internal/logger), checks the address (internal/subnet)
-- and decrypts, in this order (internal/middleware), and its handlers call the service
-- (internal/metric/service), which checks names and types before its repository is called: the
-- memory storage (internal/storage/memory) or a database (internal/storage/postgres), which a file
-- can save and restore. The two programs (cmd/agent, cmd/server) read their configurations and
-- choose the client and the repository; the server's runs until a signal, and saves on the way. An
-- analyzer (pkg/exitcheckanalyzer) is run on the repository itself, by cmd/staticlint.
--
-- The modules.
--   Base: what the others share; maps as lists of entries, errors, and results of calls.
--   Metric: internal/metric/metric.go, the errors of internal/storage/storage.go, and
--     encoding/json.
--   Memory: internal/storage/memory/memory.go. Steps says what a call does to one key; Totals,
--     Safety, Typed, Keyed and Restore are named for what they prove. Views and Bags are about what
--     a storage holds whatever the order of its entries, Observed about what a caller can see of it.
--     Pointers has Set, Get and Update over a heap of deltas, Apart, Refines and Batches compare it
--     with the values, Shared is about a metric read before.
--   Service: internal/metric/service/service.go over any repository. InMemory puts the memory
--     storage behind it, Saving its SaveToFile over a disk, Rules what it lets through.
--   Retry: pkg/retry/retry.go.
--   Crypto: EncryptOAEP and DecryptOAEP of internal/crypto/crypto.go; Certificate is GenerateCert.
--   Http: requests, handlers, and the calls on a ResponseWriter.
--   Middleware: Combine, and in its children hash.go, compress.go, logger.go, subnet.go and
--     WithDecrypt, each a function on handlers. Hash and Subnet have the gRPC interceptors too.
--   Server: internal/server/handlers.go. Replies and Paths are about the handlers of batches and
--     of path updates, Routes is the router of internal/server/server.go.
--   Agent: the polls of internal/agent/agent.go. Workers is the pool of reporter and workers, as a
--     relation of steps in any order, Stall a run of it, Ending its end; Address is realIP. Polls is
--     about the agent's map, Counts about PollCount from there to the storage of the server.
--   HttpClient: internal/httpclient/httpclient.go. Delivery, Passage and Exchange follow a batch
--     through the route of the server, GeneratedKeys is about the keys of GenerateCert at both ends,
--     Counted about PollCount over many reports. A client sees an error of the connection where the
--     handler of its request panics, as net/http has it.
--   Grpc: internal/grpc/metrics, the interceptors of internal/grpc/grpc.go, and Publish of
--     internal/grpclient/grpclient.go; Signatures is about both together, Logging is
--     InterceptorLogger, over a logger that drops the levels it is not configured to write.
--   Postgres: internal/storage/postgres/postgres.go over a driver, Driver. Query is the statement
--     insertQuery, and what a database has to do with it; Plain, Refines, Wipes and Restore are
--     named for what they prove.
--   Server/Config and Agent/Config: internal/server/config.go and internal/agent/config.go, with
--     Usable and Precedence about the former.
--   Programs: AgentStart is cmd/agent/main.go with the constructors of both clients, and Clients
--     about it, ServerStart cmd/server/main.go with what NewServer reads and the address that Run of
--     internal/grpc/grpc.go listens on, and Chosen and Running about it. Restart is about a start
--     behind a save. Serving is the server at work, as a relation of steps in any order: Run and
--     Shutdown of internal/server/server.go and of internal/grpc/grpc.go, the saves, the signal and
--     the end of main. SavedFile and Restarted are about the file that a run leaves, Runs, Losses
--     and Unsaved about the end of a run. StaticLint is cmd/staticlint/main.go.
--   ExitCheckAnalyzer: pkg/exitcheckanalyzer/exitcheckanalyzer.go, and Reports about it.
--   Tests: concrete inputs.
--
-- How code becomes definitions. A method is a function from the state before to a result and the
-- state behind it; a result is a value, an error, or a run-time panic, such as a nil dereference,
-- which leaves the state as it was where it struck. A call that holds a mutex from its first
-- statement to its return is one step. A nil pointer is `none`, and any other one the value that it
-- points to, but in Memory/Pointers, where the deltas have addresses. A map is a list of entries,
-- and the order in which Go visits a map is a function `visit` that a theorem may ask to be a
-- permutation. An int64 is its bit pattern below 2 ^ 64, so that += wraps. A handler returns the
-- list of its calls on the ResponseWriter, and a middleware changes that list.
--
-- What the code takes from elsewhere is a record of parameters: strconv, encoding/json, crypto/rsa,
-- pem and x509, crypto/hmac, compress/gzip, net, net/http, net/url, chi, os, time, flag, env, sqlx
-- with its driver, and the readings of runtime and gopsutil. float64 is a type without operations.
-- Where a theorem relies on a library, a record names what it relies on, such as ReadsBack for the
-- decoder or Unpacks for gzip.
--
-- Fuel. The loop over blocks of EncryptOAEP and DecryptOAEP takes fuel, and one more than the
-- length of the message is enough where the block length is positive. WithDecrypt and Publish give
-- that much. A loop that needs more has a block length of 0 and does not end in the code either:
-- Publish is then `none`, and WithDecrypt, whose key would have size 0, is a panic. All other loops
-- are structural.
--
-- Not modelled: the statements that create and empty the table of the database, which are calls of
-- the driver; the clock, so that a loop may find its interval passed at any time; the server at
-- work over a database, where a save reads the table; a process that is killed within a write,
-- which is one step; the log lines beyond the status and size of a reply and the lines of the log
-- interceptor; the profiler of the router; the generated code of pkg/contract and of the mocks.
pub mod Base
pub mod Metric
pub mod Memory
pub mod Service
pub mod Retry
pub mod Crypto
pub mod Http
pub mod Middleware
pub mod Server
pub mod Agent
pub mod HttpClient
pub mod Grpc
pub mod Postgres
pub mod Programs
pub mod ExitCheckAnalyzer
mod Tests

-- ===== src/Lib.antt =====
-- metrify: a server that collects metrics, and the agent that sends them.
--
-- The agent gathers gauges (float64, the last value counts) and counters (int64, the deltas add
-- up) and sends them over HTTP or gRPC. The server keeps them in memory, behind a file and a
-- database, serves reads, and publishes every update to its audit receivers.
--
-- Parts, with the code they model:
--   * Model: internal/model, the struct Metrics.
--   * Storage: internal/service/storage.go. MemStorage is a record of two maps, and `Machine`
--     adds all that external calls read and change. A method is a program on that state
--     (Base/Effects): it returns or panics, and keeps what it had changed. A map can be nil, as
--     a Go map is; a write to it panics. Storage/History is the specification: what a list of
--     updates means with no storage.
--   * Retry: internal/service/retry.go. The loops recur on the rounds left, the attempts of
--     Retry and one less for RetryDB, so no fuel is added to the bound of the source.
--   * Proto, Rpc: internal/proto as the service uses it, internal/rpc/server.go with the server
--     that it runs (Rpc/Listening), and internal/rpc/interceptor.go (Rpc/Subnet).
--   * Agent: internal/agent/grpc_client.go (Transform, GrpcClient), httpClient.go (HttpClient),
--     sender.go (Outbound, Loop), the loops of cmd/agent/main.go (Loop), its start (Start) and
--     its goroutines step by step, with the capacity of the channel (Goroutines), and
--     collector.go (Collecting).
--   * Server: cmd/server/main.go: its start (Start), isValidPostgresDSN, runMetricDumper, and
--     its end, the goroutines of main step by step (Shutdown).
--   * Audit: internal/audit, and initAuditPublisher of cmd/server/main.go.
--   * Http: the response of net/http through the writers of internal/service/logger.go and
--     compresser.go: a handler gets the list of wrappers, the outermost first, and one
--     connection. The reader of compresser.go is Http/Reading.
--   * Serving, Handler, Middleware: internal/handler, and the chain of
--     internal/router/metric.go.
--   * Router: internal/router/metric.go, the routes and the dispatch, and the requests that a
--     server serves one after another.
--   * Flags, Config: package flag, and cmd/server/flags.go (Config/Server), cmd/agent/flags.go
--     (Config/Agent), internal/service/configLoader.go and the two structs of configuration
--     files. The loop of flag.Parse is on fuel, one more than there are arguments, which each
--     round makes fewer.
--   * Nocall: internal/service/nocall.go. Gostan: cmd/gostan, the checks that run together.
--     Pool: pkg/pool. Profiling: internal/pprof.
--   * Reset: cmd/reset/main.go: hasMarker, dedupTargets and render, and main, with its loops
--     over packages (Packages) and directories (Program).
--   * Address: clientIP of internal/handler, normalizeHost of cmd/agent, normalizeAddr of
--     cmd/server.
--   * External: what is called and not part of the repository, as parameters: float64 and its
--     decimal forms, encoding/json, the database, files, time, contexts, gzip, HMAC, RSA and
--     base64. The theorems that rest on their documented behaviour take it as the hypotheses of
--     External/Laws. Tests/Example instantiates them.
--
-- Handlers use the storage through Machine, the audit through Publisher, and write to Conn; a
-- middleware takes a handler to a handler. The specification of both JSON handlers and of the
-- gRPC service is the history of the updates that a request asks for.
--
-- Numbers: an int64 is its bit pattern, a number below 2 ^ 64, and its addition wraps round;
-- decimal forms are written out (Int64), with 20 digits of fuel, where 2 ^ 63 has 19. A float64
-- is an opaque type. Texts that the program looks into are lists of code points.
--
-- Not modelled: listeners and connections, the order in which ast.Inspect walks a syntax tree in
-- cmd/reset, and generated code but for the messages above. The locks of the audit are left out.
-- Elsewhere than in Storage/Locking a method of the storage is one step, and requests and
-- captures follow one another.
pub mod Base
pub mod Int64
pub mod Model
pub mod Failure
pub mod External
pub mod Retry
pub mod Storage
pub mod Proto
pub mod Rpc
pub mod Audit
pub mod Http
pub mod Address
pub mod Serving
pub mod Handler
pub mod Middleware
pub mod Router
pub mod Flags
pub mod Config
pub mod Agent
pub mod Server
pub mod Reset
pub mod Nocall
pub mod Gostan
pub mod Pool
pub mod Profiling
pub mod Tests

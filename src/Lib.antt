-- ===== src/Lib.antt =====
-- A model of the mining pool of RedTeamCoin, and theorems about it.
--
-- The program is a server and its miners. The server keeps a chain of blocks (server/blockchain.go)
-- and a pool (server/pool.go) with the registered miners, the work that each is busy with, and a
-- queue that a background goroutine fills. Miners call the pool through gRPC
-- (server/grpc_server.go, messages in proto/mining.proto): they register, get work, submit
-- solutions, send heartbeats and stop. The administrator pauses, resumes, throttles and deletes
-- miners through HTTP (server/api.go). The pool reports to an event log (server/logger.go), which is
-- written to a file with a snapshot of the pool; a tool makes a report of that file
-- (tools/generate_report.go), and another one checks configuration files (tools/validate_config.go).
-- A miner (client/main.go, with client/gpu.go, client/cuda.go and client/opencl.go for GPUs) searches
-- a nonce for the work it got, and obeys what the answers to its heartbeats say. Miners in browsers
-- (web-wasm/miner.go) talk to the pool through a WebSocket hub (server/websocket.go). Server and
-- client read validated configurations (config/config.go, server/main.go).
--
-- Files:
--   Base: the names that all files share: tests, lists, Go strings as lists of bytes, Go integers
--     as bit patterns (Base/Word), maps as association lists (Base/Dict).
--   Outcome: what a Go function of type (T, error) does: a value, an error or a panic.
--   Chain: server/blockchain.go. NewBlockchain is new_blockchain, isValidNewBlock is
--     is_valid_new_block, and so on. Links: what makes a block follow another; Append: valid chains
--     and AddBlock; Indices: positions and indices; Collisions: what the hash leaves open.
--   EventLog: NewPoolLogger and LogEvent of server/logger.go.
--   Pool: server/pool.go. Registry has the operations on miners, Work has GetWork, SubmitWork and
--     the generator's two halves, Statistics the functions that only read, System any sequence of
--     calls. The other files under Pool are named for what they prove.
--   PoolLog: GetPoolSnapshot, WriteLog and Start of server/logger.go; Writes: what a reader of the
--     file sees; Snapshots: the totals of a snapshot, and data that the file cannot hold.
--   Rpc: the handlers of server/grpc_server.go; Rpc/Control: remote control by heartbeats.
--   Api: authMiddleware and the handlers for one miner of server/api.go; Api/Control: which requests
--     act; Api/Remote: how they reach the miner; Api/Reads: the handlers that only read and
--     handleIndex; Api/Served: their answers; Api/Redirect, Api/Redirected: startHTTPRedirect, Start
--     and Shutdown.
--   Config: the records and Validate methods of config/config.go; Config/Load: its defaults, the
--     loading and the changes of a file; Config/Watched: the configuration of a server after changes;
--     Config/Reload: the start of the pool and handleConfigChange of server/main.go; Config/Check:
--     tools/validate_config.go; Config/Startup: what server/main.go and client/main.go make of flags
--     and environment.
--   Client: calculateHash, cpuWorker and mineBlock of client/main.go; Worker, Collect: a worker and
--     the choice among results; Search: what the search finds; Accepted: client and server
--     together.
--   WebHub: server/websocket.go, the hub and its handlers; Steps: the server with its connections;
--     Malformed, Soundness: which messages end the server; Registered: whom the hub reaches.
--   Gpu: the GPU miner of the client; Search: mineBlockGPU and mineBlockHybrid; Range: mineCPU;
--     Solutions, Hybrid: what the searches find; Races: mineBlockHybrid by its first
--     signal; Counts: what they report; Detect, Detected: DetectDevices.
--   Miner: the Miner of client/main.go, its loop and its heartbeats; Steps: both in any order;
--     Handled: what a step does; Honest, Stopped, Forward: what holds of it; Control: its heartbeats
--     against the server's handler; Connect: Connect and connectWithRetry;
--     Removal, Kept: selfDelete and handleShutdown.
--   AppLog: logger/logger.go, logger/handler.go and logger/context.go; Levels: the level that is set.
--   Browser: the miner of web-wasm/miner.go; Sweep: what its search finds and counts.
--   Report: tools/generate_report.go. Format has its texts, Impact analyzeImpact, Output the data of
--     the template, writeMarkdownReport and main. Keyed, Loop, Totals: entries and totals;
--     Estimates: energy and cost; Seen, Spans: the times; Uniques: hosts and addresses; Kinds: the
--     numbers by kind; Printed: truncate; Pipeline: from the pool to the report.
--   Tests: runs on small inputs.
--
-- How code becomes definitions. An int64 or int32 is a number below 2 ^ 64 or 2 ^ 32 with the same
-- bits; sums wrap. SHA-256 is a parameter `sha` from texts to hexadecimal texts, about which at
-- most `HexDigest` is assumed: every digest has 64 characters. The clock is an argument of each
-- operation. The mutex of the pool makes its methods atomic, so concurrent use is a list of calls
-- in some order, and theorems about `run` hold for every order, time and argument. The generator
-- produces a block and sends it in two steps, between which other calls may come. A map is an
-- association list with no key twice, which `IsSound` says. Loops are recursions over lists, over
-- the difficulty, or, for a worker of the client, over the rounds until a stop signal reaches it;
-- no fuel can run out, but for `decimal`, whose 20 digits write every number below 2 ^ 64, for
-- mineCPU, whose fuel is one more than the nonces of its range, and for connectWithRetry, whose fuel
-- is the longest time for retries in seconds, and two more: `Gpu.Range` and `Miner.Connect` show that
-- this is enough. Floats are bit patterns; the arithmetic on them is a parameter (`FloatOps`), and so
-- is the order in which a loop visits a Go map where the result could depend on it. A GPU kernel is a
-- parameter of which nothing is assumed: the client passes its answers on unchecked, and `IsHit` says
-- that a nonce and a hash are such an answer.
-- How long a search runs before it is stopped is chosen from outside. Goroutines that share an object
-- (a web connection, the client's Miner) are step functions on a record that says where each stands;
-- what the client does between its test of m.running and its call of SubmitWork is a step of its own.
-- A panic in a web connection meets the deferred send to the hub, which waits for good once the hub
-- has stopped; the goroutine does nothing between the two, so they are one step.
--
-- What the program asks of packages outside it is a parameter with its documented behaviour as a
-- hypothesis: `KeepsFileLaws` of WriteFile and Rename, `Permutes` of sort.Slice, and that encoding/json
-- refuses floats that are no numbers and decodes what it encoded.
--
-- Not modelled: diagnostics (log lines and prints); the text of pages and templates; listeners,
-- certificates, the making of the token, and signals; how viper finds, joins and watches
-- configuration files, and what the tools do that list the client's devices (their results are
-- arguments); the client's kernels in C, its estimate of the CPU use, and the script that removes its
-- executable on Windows; the callbacks of the browser's miner; the Java miners.
mod Base
pub mod Outcome
pub mod Chain
pub mod EventLog
pub mod Pool
pub mod PoolLog
pub mod Rpc
pub mod Api
pub mod WebHub
pub mod Gpu
pub mod Miner
pub mod Browser
pub mod Config
pub mod Client
pub mod AppLog
pub mod Report
mod Tests

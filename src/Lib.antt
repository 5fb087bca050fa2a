-- ===== src/Lib.antt =====
-- A task queue over RabbitMQ: a load balancer in front of gateways, which take tasks over HTTP and
-- publish each to an exchange, a retry queue or a shard queue; workers that consume, reply and
-- acknowledge; a monitor that replaces dead nodes of the RabbitMQ cluster; a rate limiter; a
-- server for logins with Google, and a client for the command line.
--
-- Which module models which part:
--   Monitor       monitor/metrics.go: the collectors, as a record of numbers and lists
--   Amqp          what the program hands to the AMQP client library, and `Env`, the answers;
--                 Amqp.Connect is the connection of each program
--   DeadLetter    dead_letter_queues/: SetupRetryQueues, SendToRetryQueue, PublishToResilientQueue;
--                 its children are StartDelayRetryWorker, StartResilientWorker, StartDLQConsumer
--   WorkQueue     work_queue_model/: StartTaskQueueWorker, StartAutoScaler, StartResilientConsumer;
--                 WorkQueue.Racing is the count of workers and its gauge, as a step relation
--   Exchanges     direct_exchange/, topic_exchange/, pubsub/, headers_exchange/: the producer and the
--                 consumer of each
--   Shards        gateway/server.go, pickShard
--   Gateway       gateway/server.go: autoDetectAndPublish (Publish), handleSubmitTask (Submit), the
--                 handler of returned messages in main (Returned), main (Start, and Pages for its
--                 handlers by path), metricsHandler (Scrape), registerWithLoadBalancer (Register);
--                 also gateway/gateway_consumer.go and gateway/rabbitmq_conn.go (Consumer).
--                 Gateway.Feedback follows the feedback from the workers to the waiting handler, and
--                 Gateway.Limited a sequence of submissions
--   Balancer      load_balancer.go; Balancer.Locking is its lock, as a step relation on goroutines
--   System        load_balancer.go over gateway/server.go and limiter/rate_limit.go: the network of the
--                 balancer is a cluster of gateways that share the store of the rate limiter
--   Limiter       limiter/rate_limit.go
--   Quorum        quorum_recovery/handler.go; Quorum.Older is tester.go, an older monitor
--   Loads         flood.go, testing_shards.go and resilient.go
--   Auth          google_authentication/: the handlers of auth_server.go (Server), its page (Page),
--                 the handlers by path (Routes), those of auth.go (Package), and auth_worker.go
--                 (Worker)
--   ApiKeys       database_connect/mongo_api_store.go
--   Client        main.go
--   Base          texts, HTTP responses, and the monad of Go code that returns, exits or panics
--   Examples      concrete brokers, networks and stores, and the theorems at them
--
-- How they interact. The gateway calls the producers of Exchanges and DeadLetter, and all of them,
-- the workers included, act on one `Process`: the calls that it made so far, newest first, the
-- metrics, and the counts of package work_queue_model. A producer returns an optional error; a
-- worker is a start (the declarations up to `Consume`, which exit the process on an error) and a
-- loop over the deliveries that the broker hands it. What was acknowledged or published is read
-- off the calls (Amqp.Trace). Balancer, Limiter, Quorum and Auth keep states of their own. A
-- gateway registers with the state of Balancer, over a network that loses posts and answers; what
-- the client submits is what handleSubmitTask of Gateway reads. System runs the requests that the
-- balancer has sent through the gateways, one after the other: what becomes of each, and how much
-- time passes before it, is any function of the requests before (`Cluster`). The workers of a
-- gateway do not run between them.
--
-- What is a parameter. The client library and the broker (`Env`), the network (`Net`), Redis
-- (`Redis` for the limiter, `KeyStore` for the logins), Google's OAuth servers with the JWT
-- library of the authentication server (`Google`), MongoDB (`Mongo`), the servers that the client
-- asks (`Web`), Docker with the management API, the clock and the random source (`Host`), and the
-- JWT library with the random source and the reply queue of a submission (`Outside`) answer each
-- call as any function of the calls before; so a theorem on all environments covers every pattern
-- of errors. A theorem that needs a law of theirs takes it by name: `IsFaithful` (a marshalled
-- feedback is read back with its status), `IsRedis` (INCR and EXPIRE), `IsKeyStore` (SET with an
-- expiry, GET and INCR), `IsSigner` (a signed token is valid until it expires), `IsFiltered`
-- (MongoDB finds what its filter asks for), `IsPassive` (the inspection of a queue that does
-- not exist is an error). The clock of `Host` is the sum of the pauses and of what the operations
-- took, any number for each (`now_ms`), as Go's monotonic clock does not go back. Whether the log of
-- the auto-scaler opens, and how many of its rounds fall into each pause of main, is `Machine`. A
-- text is the list of its bytes.
--
-- Bounds and fuel. WorkerCount wraps at 2^32, AckCount at 2^64, the round-robin counter at 2^64,
-- the retry count at 2^32 as an int32; the hash of pickShard is a uint32. The wait for a new node
-- has `wait_fuel` = 32 rounds: each pauses 3 seconds, and the deadline is 90 seconds off, which 31
-- rounds exceed; a wait without fuel would panic, and none does (Quorum.Waiting). The decimal text of a number has one more step of fuel than the number, and each
-- step divides by ten. A submission whose reply queue stays open without an answer is `none`, a
-- handler that waits on. The endless loops (the auto-scaler, the quorum monitor, the client's
-- polling) are modelled by their first n rounds.
--
-- Not modelled: log lines and console output, and the emoji in messages; the interleaving of
-- goroutines beyond the balancer's lock and the count of workers (elsewhere a worker's rounds run
-- one after the other, an operation of the balancer runs under its lock as a whole, and a worker
-- that main starts before a pause comes to the end of its start in it, as do the rounds that the
-- auto-scaler makes in it); the set-up of the clients
-- of Redis; the HTML body of a redirect; text outside ASCII where the client trims it or changes
-- its case; gateway/publish.go, which calls the producers with arguments that they do not take and
-- does not compile.
pub mod Base
pub mod Monitor
pub mod Amqp
pub mod DeadLetter
pub mod WorkQueue
pub mod Exchanges
pub mod Shards
pub mod Gateway
pub mod Loads
pub mod Balancer
pub mod Limiter
pub mod System
pub mod Quorum
pub mod ApiKeys
pub mod Auth
pub mod Client
pub mod Examples

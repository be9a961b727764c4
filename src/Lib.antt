-- ===== src/Lib.antt =====
-- Verification of controlDeck, an OpenAI-compatible gateway for self-hosted language models.
--
-- The gateway is one or more router processes over one PostgreSQL database. A request is routed to
-- a model by what it needs, enters the table `requests`, is placed on a replica of the model's
-- backend, streams, and ends by a completion, a failure or a sweep.
--
-- The files and the code that they model:
--   Types           server/src/types.ts, the values that the parts exchange
--   Database        server/src/db/migrations, the tables as lists of rows
--   Routing         server/src/routing: Capabilities, Complexity and Select, each after its file
--   Scheduler       server/src/scheduler: Queue (queue.ts), Placement (place-request.ts), Affinity
--                   (affinity.ts); Keda is server/src/adapters/keda.ts
--   Cost            server/src/cost: compute.ts and config.ts; Breakdown is breakdown.ts
--   Adapter         server/src/adapters/llama-swap.ts: the request body and the errors
--   Http            server/src/http: Errors (errors.ts), and of routes/v1.ts: Failure, Wait, ToolCalls,
--                   Deadline, Message (timeoutError), Turn (the loop over a stream and the statements
--                   after it), Chat and Embeddings (the two handlers); Stream is the parser of the
--                   event stream in server/src/adapters/llama-swap.ts
--   Routers         the transactions of several router processes over one database, in any order, and
--                   the pool of slots that they implement
--   Audit           server/src/audit: Scope, History and Entries
--   Registry        server/src/registry: merge.ts and index.ts; Gitops is gitops.ts and Upstream is
--                   verify-upstream.ts
--   Auth            server/src/auth/verify.ts and server/src/http/auth-middleware.ts
--   Logs            server/src/logs/redact.ts
--   Metrics         server/src/metrics/index.ts: the demand that the autoscaler reads
--   Replicas        server/src/replicas: reconcile.ts; Discovery is discovery.ts
--   Scaling         server/src/scaling/status.ts
--   Prelude         lists read as tables, keys, orders, fractions
--   Samples         data for the tests; each part's tests stand in its modules Tests and Examples
--
-- The correspondence:
-- * A function of the code has the definition of its name in snake case. A statement of SQL is a
--   function on the lists of rows: UPDATE is `update`, INSERT … ON CONFLICT is `upsert`, ORDER BY …
--   LIMIT 1 is `first_by`, SKIP LOCKED is a test of the rows that other transactions hold.
-- * The time is an argument. The statements of one call read one time.
-- * NUMERIC and JavaScript's numbers are exact fractions; their rounding is not modelled.
-- * A text that the code walks is the list of its UTF-16 code units. The regular expressions are
--   scans of that list, one unit at a time, and need no fuel.
-- * The wait for a replica is the one loop on fuel: queue_timeout_ms / 200 + 2 tries, since each try
--   that fails is followed by a sleep of at least 200 ms.
-- * SHA-256, the database's order of texts, JSON.parse on a frame of a stream, the text decoder and
--   the verification of tokens by jose are parameters.
-- * What the network answers (pods, probes, other processes during a wait) is a parameter.
-- * A turn of generation is the list of its chunks with their times. The statements of a chat request
--   around its wait and after its generation may be refused, one by one; those inside the wait and
--   inside the loop over the stream, and those of an embeddings request, succeed.
-- * One step of Routers is one transaction: failRequest is two. Handlers that a refused statement ends,
--   and failRequest after a completion, are steps too. A reconciliation is none, since it may lower a
--   ceiling below the use of a replica, and neither is the removal of a model or of old requests.
--
-- Not modelled: the listing of /v1/models and the Prometheus page; the sources of logs, the clients of
-- Kubernetes and of the network, the database pool, the traffic simulator, the dashboard in src/ and
-- its routes, which are access or presentation; mocks, tools and deployment files.
pub mod Prelude
pub mod Types
pub mod Routing
pub mod Database
pub mod Samples
pub mod Scheduler
pub mod Cost
pub mod Adapter
pub mod Http
pub mod Audit
pub mod Registry
pub mod Replicas
pub mod Routers
pub mod Auth
pub mod Logs
pub mod Metrics
pub mod Scaling

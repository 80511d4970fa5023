-- ===== src/Lib.antt =====
-- A library of theorems about the Go services of XScopeHub: the operations agent, which carries cases
-- through a workflow stored in PostgreSQL, the query gateway, which limits, translates and answers
-- queries of many tenants, and the MCP server, which lets a language model call the tools of its plugins.
--
-- The parts and how they interact:
--   llm-ops-agent/workflow decides what an event does to a case. Its table, its guards and Decide are
--     in Workflow.antt; Workflow/Safety.antt and Workflow/Graph.antt run a case through lists of events.
--   llm-ops-agent/internal/ports/postgres keeps the cases. CreateCase and Transition call Decide and
--     write the case, its timeline, its outbox and its idempotency key in one transaction. They are
--     CaseStore/Repository.antt (create, transition), over the statements of llm-ops-agent/db/sqlc in
--     CaseStore/Session.antt and the tables in CaseStore/Tables.antt. The proofs are in
--     CaseStore/Atomicity.antt, Creation.antt, Versions.antt and Idempotence.antt.
--     CaseStore/Progress.antt says what a call promises where nothing fails.
--   llm-ops-agent/api is the HTTP interface of the cases. createCase and transitionCase of handlers.go
--     are Agent/Cases.antt (create_case, transition_case), over the repository; the numbers of If-Match
--     and ETag are Agent/Numbers.antt, with the round trip in Numbers/Roundtrip.antt. The proofs are in
--     Agent/Cases/Replies.antt, Lock.antt and Gate.antt.
--   llm-ops-agent/internal/analysis asks the gateway for evidence about a service and makes a diagnosis.
--     Its types are Agent/Analysis.antt, normalizeRequest Analysis/Normalize.antt, the gateway's client
--     Analysis/Gateway.antt, collectEvidence Analysis/Collect.antt, countAny Analysis/Count.antt, the
--     health and the heuristic diagnosis Analysis/Health.antt, the Codex reasoner Analysis/Codex.antt
--     and Run Analysis/Run.antt. Normalize/Idempotent.antt, Codex/Extract.antt and, under Run,
--     Order.antt, Healthy.antt and Accepted.antt have the proofs; the last one joins the agent's
--     queries to the templates and the checks of the gateway. Analysis/Http.antt is the handler.
--   llm-ops-agent/api/a2a.go answers other agents and keeps the tasks that they hand over: Agent/A2a.antt
--     (negotiate, create_task, get_task), with the proofs in A2a/Words.antt and A2a/Table.antt.
--   llm-ops-agent/internal/outbox sends what the repository left in the outbox. flush is
--     CaseStore/Publisher.antt, over a connection with a buffer, its proofs CaseStore/Publisher/Marks.antt and Delivery.antt.
--   observe-gateway/internal/limiter admits the requests of a tenant. New, Allow and the Lua script are
--     Gateway/Limiter.antt; Limiter/Window.antt is about the script, Limiter/Tenants.antt about Allow.
--   observe-gateway/internal/backend turns LogQL and TraceQL into SQL. translateLogQL is
--     Gateway/Translate/Logql.antt, translateTraceQL Traceql.antt, and sanitizeSQLIdentifier and
--     escapeSQLValue are in Sql.antt. Literals.antt has a reader of SQL literals, Conditions.antt and Closed.antt
--     the literals of a LogQL query, and Fuel.antt is about the bounds of the loops.
--   observe-gateway/internal/server answers a query. handleQuery is Gateway/Query/Handler.antt, its
--     types, the cache and the audit log are Gateway/Query.antt, the templates Query/Template.antt and
--     buildCacheKey Query/Key.antt. Query/Owner.antt is about the key; the proofs about the handler are
--     Handler/Guards.antt, Isolation.antt, Tenants.antt and Log.antt. The handler takes the limiter as
--     a function that gives a verdict of Gateway/Limiter.antt, and the backends as an interface.
--   observe-gateway/internal/auth verifies who asks. Verify, getKeySet and refresh are
--     Gateway/Auth.antt; Auth/Keys.antt is about the cached key set, Auth/Tenant.antt about the tenant.
--     Its Verified is what the handler takes from it.
--   observe-gateway/internal/backend also chooses the backend. QueryPromQL, QueryLogQL, QueryTraceQL and
--     resolveTenantMetadata are Gateway/Client.antt, its proofs Client/Sources.antt; a client gives the
--     handler its Backend (backend_of). The HTTP clients of that package and New are
--     Gateway/OpenObserve.antt (client_of, new), the proof about the fallback OpenObserve/Support.antt,
--     and the metadata of tenants in PostgreSQL Gateway/Metadata.antt.
--   observe-gateway/internal/config has the settings of the gateway, their defaults and the templates of
--     its queries: Gateway/Config.antt.
--   mcp-server/internal/registry finds the resources and tools of the plugins of the MCP server. It is
--     Mcp/Registry.antt, with the proofs in Mcp/Registry/Lookup.antt.
--   mcp-server/internal/server serves that registry by JSON-RPC over HTTP. ServeHTTP and handleRequest
--     are Mcp/Server.antt (serve_http, handle_request), the proofs Mcp/Server/Calls.antt and Access.antt.
--   mcp-server/internal/plugins has the plugin whose tools ask the gateway and the agent. Its types are
--     Mcp/Observability.antt, parseSharedArgs Observability/Arguments.antt, postJSON and
--     queryObserveGateway Observability/Requests.antt and the tools Observability/Tools.antt; the proofs
--     are in Observability/Listed.antt, Accepted.antt, Parsed.antt and Guarded.antt.
--   Prelude.antt and its children hold the names of the standard library that the parts share, Boolean
--     tests, lists, maps, times and durations, integers, HTTP headers, and Go strings as lists of bytes.
--
-- What fails is an argument: a flag for each SQL statement, an outcome for COMMIT (it takes effect, it
-- does not, or its answer is lost), a flag for each message published and for the flush of the
-- connection, and what becomes of a call of Redis. Two columns of the keys take JSON only. A
-- failed statement aborts its transaction, as in PostgreSQL. A UUID and a time are natural numbers; a
-- JSON document is a value of any type, with the encoders as parameters. golang.org/x/time/rate is a
-- parameter of the limiter. A call over HTTP is a function that says what is answered to a request; what
-- happens at the same time in the code, such as the queries of an analysis, is a list in the order in
-- which it ends. Mutexes and row locks are not modelled: the calls of each part are a
-- sequence, which is what the locks enforce. Strings that the gateway takes apart are lists of bytes,
-- with the white space and the letter case of ASCII.
--
-- The scan for LogQL stages takes a number of steps, the length of the text, and so does the splitting
-- of a text at a separator. Each step takes at least one byte, so that the length is enough; the
-- lemmas about this are in Fuel.antt. The printer of a number has one step more than the number, and
-- each step prints a digit and divides by ten; Numbers/Roundtrip.antt is about it.
--
-- Not modelled: the bridge and the start of each program. The
-- remaining packages are wiring or placeholders.
pub mod Agent
pub mod CaseStore
pub mod Gateway
pub mod Mcp
pub mod Prelude
pub mod Workflow

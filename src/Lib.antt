-- ===== src/Lib.antt =====
-- The analysis task backend (backend/app): a user's message in a conversation becomes an analysis
-- task, which a worker takes from a Redis queue, runs, and moves through its statuses, while its
-- event log tells the user's client what happens.
--
-- The parts and their files:
--   Models, Settings, Exceptions: the rows of backend/app/models/entities.py with the types of
--     backend/app/schemas, the settings of backend/app/core/config.py, and the exceptions of
--     backend/app/core/exceptions.py.
--   Repository: backend/app/repositories/task_repository.py, its queries (Queries) and their laws.
--   Redis: the client's commands as an interface, and what Redis documents of them.
--   Queue: backend/app/workers/task_queue.py; Refinement gives each operation its meaning on lists
--     and markers, Failures and Raising what it leaves behind where it
--     raises; Order and AtMostOnce are about those.
--   Cancellation: backend/app/workers/cancellation.py.
--   Events: backend/app/services/event_service.py; Log: the laws of the log.
--   Tasks: backend/app/services/task_service.py: `transition` in Transition, `cancel`,
--     `submit_clarification` and `retry` in Requests, `create_from_message` in Create, the reads in
--     Reads. Emitter is backend/app/agent/events.py, and Results the service that stores a result,
--     backend/app/agent/stage_five_result_service.py.
--   Lifecycle: the invariant of tasks and logs, and what each operation does to it.
--   Conversations: backend/app/services/conversation_service.py and
--     backend/app/repositories/conversation_repository.py: creation, deletion and paging, and the
--     text of cursors (backend/app/core/pagination.py).
--   Tokens: backend/app/services/websocket_token_service.py.
--   Reports: backend/app/schemas/report.py, backend/app/agent/nodes/validate_report.py, and the nodes
--     that make evidence (Evidence, of nodes/build_evidence.py) and draw conclusions from it
--     (Attribution, of nodes/determine_attribution.py).
--   Worker: backend/app/workers/task_worker.py.
--   Agent: backend/app/agent: the graph's routes and its retry of a report (Graph, of graph.py and
--     nodes/validate_report.py), the wrapper of nodes and tools (Runtime), and the executor that the
--     worker calls (Executor).
--   Outcome: code that may raise, for Agent and DataAgent, and what is said of its end.
--   DataAgent: backend/app/data_agent, a service of its own, and the check of its statements in
--     backend/app/agent/tools/db_query.py: what is parsed (Sql), the service's checks (Candidate),
--     the controlled statement (Period, Controlled), execution (Execution), attempts (Service), and
--     a request (Names, Query). Client is the HTTP client of that service and the tool
--     `DbQueryTool.run`, ToolResults what the tool passes on, Requests how
--     often the client asks. Trace is a step relation on the world outside, and Conduct says of each
--     piece of code which steps it makes and how it ends.
--   System: the interleavings of all of these.
--   Scenarios: runs on small databases and a Redis server in memory.
--
-- The model. A database is a record of tables, each a list of rows; a query is a function by
-- clauses, with the order of `ORDER BY` and the cut of `LIMIT`. UUIDs, client message ids and times
-- are natural numbers, since the code only compares them; the time of a call and the keys of its
-- new rows are arguments. An operation of `TaskService` takes the committed database and the Redis
-- server's state to a result or an exception and the state after it. It locks the row that it
-- changes until it commits, so an operation is one step, and an interleaving of requests and
-- workers is a sequence of steps (System/Steps). A Redis command may fail at any point with any
-- state after it; Queue/Raising assumes of it only that the server has executed the command or has
-- not. Between the commands of one operation of the queue no other client acts, but BRPOPLPUSH
-- blocks on an empty list while others go on. `commit` of `create_from_message` succeeds or fails with an `IntegrityError`,
-- after which the session reads a given database; other database failures roll back and are not
-- modelled in `TaskService`. The payload of an event is a constructor with its fields. The executor
-- of the worker is a parameter of it. Every function is total without fuel, since the loops are over
-- lists, but the run of the graph, which has LangGraph's limit of 25 nodes: 13 are enough.
--
-- The data agent calls a model and a database; both are functions of a state outside, of a type
-- parameter, and each call may raise. Its statements are native texts. The parser of SQL, regular
-- expressions and the case of letters are parameters.
--
-- Floats are a type parameter, and so are `math.isfinite`, the digest of a token and `str.strip`.
--
-- Not modelled here: the update of conversations, the writing of JSON, attachments, the other
-- nodes of the analysis graph, its other tools, the repair of rejected reports, rendering,
-- authentication, and the HTTP and WebSocket endpoints. The expiry of Redis keys is no step of the
-- queue. Rows of `task_logs`, which nothing reads, are left out, and so is the class of
-- backend/app/agent/result_service.py, which nothing uses.
pub mod Base
pub mod Models
pub mod Settings
pub mod Repository
pub mod Redis
pub mod Queue
pub mod Cancellation
pub mod Events
pub mod Exceptions
pub mod Outcome
pub mod Tasks
pub mod Conversations
pub mod DataAgent
pub mod Agent
pub mod Tokens
pub mod Reports
pub mod Log
pub mod Lifecycle
pub mod System
pub mod Worker
mod Scenarios

-- ===== src/Lib.antt =====
-- A model of the gateway between MCP clients and tools. A tool call is validated, checked by a
-- policy, perhaps approved by a person, run with bounded repair and retry, and recorded in a state
-- store and in an audit log. Each file opens with the code that it is about.
--
-- The program's parts, and the modules that model them:
--   gateway/models.py             Models: records and enums as records and data types
--   gateway/errors.py             Errors: one constructor for each subclass of GatewayError
--   gateway/repair                Repair: Diagnose, Backoff, and Loop for RepairLoop.run
--   gateway/state/redis_store.py  Store: Updates for the changes of a record, Memory, and Redis
--   gateway/audit                 Audit: Record for the dump, Log for AuditLogger, Verify
--   gateway/hitl/queue.py         Approval: Memory and Redis, one for each queue
--   gateway/registry.py           Registry: Tool for ToolDefinition
--   gateway/policy                Policy: OpaPolicyClient.evaluate
--   gateway/auth.py               Auth: OIDCAuthenticator
--   gateway/repair/advisor.py     Repair.Advisor: the two advisors
--   gateway/http_server.py        Http: AuthenticationMiddleware
--   gateway/workers               Worker: Circuit, Jobs and Service for WorkerService, Signature for the
--                                 signing of jobs, Remote and Http for the two ends of the remote
--                                 service, and Proxy for the registry of proxies
--   gateway/control_plane         ControlPlane: Rows for the tables, and Repository
--   gateway/sandbox               Sandbox: Command for Docker's command line, and Runner
--   gateway/tools                 Tools: DbQuery and ShellExec, and Contained for sandbox/worker.py
--   gateway/server.py             Pipeline: execute_tool_call by its phases, over the services that
--                                 the other parts provide, and Runtime for the runtime of each mode
--   eval                          Evaluation: Gate for gate.py, Breakdown for counts of realistic.py
-- Base has the shared types, tests, dictionaries and JSON values. Effect has the control flow: a
-- coroutine takes a state to a result and a state, and a result is a value, an exception, or the sign
-- that it ended in neither, as with a loop cut short or a CancelledError, which is no Exception.
-- Tests has runs on concrete inputs.
--
-- Numbers are natural numbers: instants in microseconds or nanoseconds, delays in nanoseconds, where
-- the source has floats. Readings of the clock, random draws, identifiers, and what Redis, OPA, PyJWT
-- and pydantic answer are parameters, as are SQLite, Docker, the SQL engine, the HTTP exchanges, the
-- hash function and the JSON texts of the audit log and of the workers' wire.
--
-- The loop of RepairLoop.run has fuel: one more than max_attempts, which is enough, since an attempt
-- numbered max_attempts is not retried. The loops of the Redis store and of the waiters take the list
-- of the rounds that the environment grants them, and all other recursion is structural.
--
-- Transactions of the control plane run one after the other, except that a resolution is also given by
-- its two steps, the read of the row and the update, between which others may commit.
--
-- Not modelled: tracing and logging, the HTTP and stdio transports, the construction of the services
-- from the settings, the command lines, the evaluation runs, and most health checks, which are I/O
-- around the parts above or calls of other systems; and the policies, which OPA evaluates.
pub mod Base
pub mod Models
pub mod Errors
pub mod Effect
pub mod Repair
pub mod Store
pub mod Audit
pub mod Approval
pub mod Registry
pub mod Policy
pub mod Auth
pub mod Http
pub mod ControlPlane
pub mod Sandbox
pub mod Tools
pub mod Worker
pub mod Evaluation
pub mod Pipeline
pub mod Tests

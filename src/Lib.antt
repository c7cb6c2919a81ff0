-- ===== src/Lib.antt =====
-- The governance core of SyndicateClaw (src/syndicateclaw/), a platform that runs agent workflows
-- under policies, approvals and access control.
--
-- A workflow run executes the nodes of a graph. Before a tool or a model is used, the policy engine
-- decides by its rules; what a rule does not allow at once waits for an approval, which only assigned
-- approvers may give; every route of the API is checked against role and deny assignments; and a
-- request to a model is routed to a provider that is healthy, allowed and fit for the data.
--
-- Base           shared names, tests, lists, exceptions as values, Python's `==` and `in`
-- Order          Python's `sorted`, as a stable insertion sort with its laws
-- Text           Python's strings: order, `in`, `split`, `startswith`, `+`
-- Json           JSON values and what `==`, `<`, `in` and dict updates do on them
-- Storage        the database sessions that services use (SQLAlchemy), as operations with laws, and a
--                table that is a list, which has them
-- Approval       src/syndicateclaw/approval/: authority.py (who may decide on a request) and
--                service.py (request_approval, approve, reject, expire_stale, get_pending)
-- Authz          src/syndicateclaw/authz/evaluator.py: scopes, the role tables with the SQL queries over
--                them, the Redis cache and the evaluation of a permission
-- Boundary       src/syndicateclaw/runtime_boundary/: the gate of boundary.py with its hash chain, the
--                chain in a file of durable_audit.py, and the validator in memory and the answers of
--                controlplane_client.py
-- Condition      the parser of edge conditions, `_ConditionParser` of
--                src/syndicateclaw/orchestrator/engine.py, and the grammar of its docstring
-- DeadLetter     src/syndicateclaw/audit/: the queue of dead_letter.py, with the failures of emit in
--                service.py
-- Inference      src/syndicateclaw/inference/: the policy cache of policy_gates.py, the circuit breaker
--                of registry.py, route of router.py, and the store of idempotency.py
-- Memory         src/syndicateclaw/memory/service.py: read, delete and get_lineage, with the access
--                policies, the rows, the audit events and Redis
--                and the trust in records, of trust.py
-- Messages       src/syndicateclaw/services/message_service.py and src/syndicateclaw/messaging/router.py:
--                send, ack, reply, relay and the limit of hops
-- Policy         src/syndicateclaw/policy/engine.py: conditions over JSON, the choice of a rule,
--                evaluate, add_rule, update_rule, delete_rule
-- RateLimit      src/syndicateclaw/api/rate_limit.py: the sliding windows in Redis
-- Skills         src/syndicateclaw/runtime/router/: the scoring of scoring.py and route_task of router.py
-- Tools          src/syndicateclaw/tools/: registry.py and executor.py, whose steps before a side
--                effect end in the gate of Boundary
-- Workflow       src/syndicateclaw/orchestrator/engine.py: the graph, the attempts at a node, the loop of
--                execute, pause, cancel, resume
--
-- A method that writes is a function from a state to a result and a state; what it raises is a
-- value, and what it wrote before it raised stays written unless a transaction rolls it back. Times
-- are whole microseconds and read once per call. JSON numbers are integers; the floats of the router
-- are any ordered type with operations, and those of trust are exact numbers. Whether an audit
-- service or a state cache raises is part of the state or a parameter, and what was committed before
-- it is called stays.
--
-- Parameters stand for code of others: the database (Storage.Sessions), Redis
-- (Authz.Cache, Memory.Service, RateLimit.Sets), `str`, `re.search` and `fnmatch`, the handlers of a
-- workflow and the answers of its conditions, and the policy port with the hash of its keys; SHA-256
-- (Boundary.Chain.Hashing), the services of the tool executor, `urlparse`, `encode`, `json.dumps`,
-- the Unicode functions of the skill router, and for messages the agents by name, the subscribers,
-- the permission to broadcast and the ids of the new rows, which each call has its own. The tests give each of them as a concrete function.
--
-- Fuel: the recursive query for a role's permissions runs for as many rounds as there are roles, and
-- the loop of `execute` for one step more than `max_steps`. The condition parser has 8 units for each
-- token, and Condition.Ends shows that it always ends within them. The walk over the lineage of a
-- record goes one step deeper than there are rows, and Memory.Closure shows that it ends.
--
-- Not modelled: logging, metrics, latencies, the texts of messages, the notification of approvers;
-- the HTTP layer, connectors and clients, which do input and output; and, so far, the writing,
-- the update and the search of memory, the audit ledger, schedules, the execution of skills, the
-- tokeniser of conditions.
pub mod Base
pub mod Storage
pub mod Approval
pub mod Authz
pub mod Boundary
pub mod Condition
pub mod DeadLetter
pub mod Inference
pub mod Json
pub mod Memory
pub mod Messages
pub mod Order
pub mod Policy
pub mod RateLimit
pub mod Skills
pub mod Text
pub mod Tools
pub mod Workflow

-- ===== src/Lib.antt =====
-- auto-assist: the coordination core of AssistX, the control plane that hands work to agents.
--
-- The program keeps a graph of tasks, agents and events in Neo4j, a Redis for its limits and a
-- SQLite table of events that wait for delivery. Agents send heartbeats and get a plan; a plan may
-- recommend a passive, review-only task, which the agent then claims, renews and releases, all
-- under a control that an operator sets. Services post events, which are recorded once, dispatched
-- to handlers and traced by their correlation id. A client that cannot reach the server queues its
-- events. Agents poll the queue of tasks, claim one, send heartbeats and complete it. The fleet
-- module keeps a registry of the nodes and models behind a router, learns from each call, and
-- chooses a model for a task; the adapter fills idle nodes with self-tasks.
--
-- Which file models which part:
--
--   Prelude (Tests, Lists, Text, Int), Dict: what the code takes of Python's texts, lists and
--     dicts.
--   Redis: the zset operations of `InMemoryRedis` in src/assistx/compat.py.
--   RateLimiter: src/assistx/rate_limiter.py. `check` is `RateLimiter.check`; `serve` runs a
--     sequence of calls and notes which were accepted.
--   Outbox: src/assistx/outbox_client.py. `enqueue`, `flush`, `get_pending`, `get_stats` are the
--     methods of `OutboxClient`; a table is the list of its rows. Outbox.Drain has the flusher's
--     loop.
--   Passive.Graph: the nodes and the clauses of the queries that the passive modules share.
--   Passive.Candidate: `_normalize_idle_candidate`, `_is_passive_safe`, `_capabilities_match`,
--     `_rank_candidate` and `_suggest_idle_work` of src/assistx/passive_agents.py.
--   Passive.Plan: `_plan_for_status`, `_advisory_lease`, `_record_agent_heartbeat` and the handler
--     `heartbeat_plan` of the same file.
--   Passive.Claims: src/assistx/passive_claims.py, with `record_passive_event` of
--     src/assistx/passive_events.py. Create, Renew, Release and Expire hold one operation each, its
--     transaction and its reply; Grant, Rollback, Lease, Holder, Expiry, Sweep, Coherent and
--     Reachable hold their proofs.
--   Passive.Control: src/assistx/passive_control.py.
--   Passive.Status: src/assistx/passive_status.py, with the heartbeats' list and counts.
--   Swarm.Json: the values of events. Swarm.Envelope: `validate_event_envelope`, `record_event`,
--     `reconcile_event`, `record_auto_ingest_event` of src/assistx/swarm_core.py. Swarm.Approval:
--     `action_requires_approval`. Swarm.Assignment: `project_assignment_event`, `fail_task`,
--     `set_task_lease`, `release_expired_task_leases`. Swarm.Trace: `record_trace_event`,
--     `get_trace` and the states of a trace. Swarm.Registry: `upsert_model_endpoint` and
--     `delete_model_endpoint`, by the ids of nodes, endpoints and models.
--   Tasks: the queue of tasks in src/assistx/neo4j_client.py. Graph: the nodes. Create:
--     `upsert_ticket` and `create_tasks_batch`. Claim: `claim_task`, its queries and its answers.
--     Progress: `heartbeat_task`, `complete_task`, `update_task_status`. Listing:
--     `list_agent_tasks` and the counts of `fleet_status`. Their children, and Exclusive, which
--     lets many agents act in turn, hold the proofs; Taken says which calls leave a task to its
--     holder.
--   Fleet: src/assistx/fleet.py. Names and Params read the names of models (`_node_of`,
--     `_params_of`, `_is_moe`, `_is_toolish`, `quality_score`). State: the module's variables.
--     Discover: `discover`. Value: `_task_family`, `_value_factor`. Outcome: `record_outcome` and
--     the `_mark_…` functions. Health: `node_health`, `wake_node`, `_watchdog_sweep`, `_node_cap`.
--     Score: `_score`. Select: `_apply_pressure`, `_pick`, `select`, `select_any`. Report: the calls that
--     take the lock, with the lock itself as a flag. Selftasks: `_launch_selftasks` and the slots
--     of `process_self_task` in src/assistx/agents/hermes_agent_adapter.py.
--   Intents: src/assistx/intent_orchestrator.py on the queue of tasks. Format: Python's
--     `str.format`. State: the intents, their policy and the route that `_process_intent` takes.
--     Gate: the prompt of `_complexity_gate`, and `_handle_task` up to the kind of work that it
--     creates. Review: `_queue_intent_review` and `_handle_cancel`; Again has the proof.
--   Examples: runs at concrete inputs, and each result at such an input.
--
-- State is passed explicitly: an operation takes the graph, table or store and returns it with its
-- reply. The clock, UUIDs, hashes and whether a session or a request fails are arguments. A query's
-- MATCH … SET is an update of the list of nodes, a MERGE an update or an appended node. No
-- definition needs fuel: the loops run over lists, and the flusher's loop over a list of networks,
-- of which Outbox.Drain says how many are enough. Floats are a parameter of the fleet's
-- definitions, a record of literals, arithmetic and comparisons; a theorem that needs a fact about
-- them has it as a hypothesis. The fleet's times are in milliseconds, and Python reads one clock
-- several times where the model takes one.
--
-- Not modelled: the routers and HTTP models around these functions (FastAPI and pydantic check the
-- types and bounds of requests), the threads and locks of the outbox, texts of messages, the
-- fields of events that are only stored, relationships that no query reads back, letters beyond
-- ASCII in `lower` and `upper`. Where Neo4j leaves the order of equal keys open, a sort keeps one
-- of the possible orders. Of swarm_core.py the registries of nodes, voice decisions and ingest
-- batches are left out; so are the other modules of src/assistx (fleet_executor, the router,
-- pipelines, the API and its clients), the rest of neo4j_client.py and of intent_orchestrator.py,
-- and of fleet.py the probing, the files of benchmarks and metrics, the log of decisions and the
-- metrics server.
pub mod Prelude
pub mod Dict
pub mod Redis
pub mod RateLimiter
pub mod Outbox
pub mod Passive
pub mod Swarm
pub mod Tasks
pub mod Fleet
pub mod Intents
pub mod Examples

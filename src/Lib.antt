-- ===== src/Lib.antt =====
-- TACKTCIX: the orchestrator backend, which registers agents and routes tasks to them, and the
-- execution worker, which takes jobs from a queue and runs them in sandboxed containers.
--
-- The backend (backend/app):
--   Agents       models/agent.py: the agent row and the messages; Agents.Roles has the role tables of
--                services/agent_registry_service.py.
--   Registry     services/agent_registry_service.py: the agent table as a list of rows, one function for
--                each method of AgentRegistryService. A method of one row is `on_agent`.
--   Routing      services/task_orchestrator_service.py: Routing.Scores has the scores of one agent,
--                Routing.Select the selection (`_select_best`, `_select_best_with_load`), Routing.Single
--                route_task, route_task_to_role and route_workflow_step, Routing.Batch
--                batch_route_tasks, Routing.Assign assign_tasks and the sub-task calls. The routing reads the
--                registry's table through `list_agents`.
--   Events       services/event_service.py: the bus with its queues, Events.Service the rows of the events;
--                Events.Stream has the endpoints of api/events.py and
--                Events.Response the validation of what they answer. A stream is a sequence of the events
--                that are published and of the turns of its loop.
--   Metrics      core/metrics.py and core/health.py: the health history, Metrics.Middleware the counting of
--                requests, Metrics.Quantiles and Metrics.Summary the JSON summary.
-- The worker (src):
--   Consumer     src/consumer.py: a tick of the job queue, with a log of what it does to the stream.
--   Workers      src/worker_manager.py: dispatch, monitor pass, waiting, shutdown. The containers are behind
--                the interface `Sandbox`; an exception of it in a pass ends the monitor.
--   Orchestrator src/orchestrator.py: the client that reports to the orchestration engine.
--   Entry        src/main.py: the consumer's handler, which takes a job from its announcement to the report
--                of its result, through the manager and the client. The monitor's passes between two
--                looks of the wait are given.
--   Heartbeat    src/heartbeat_metrics.py: the collector, and Heartbeat.Export its Prometheus text.
--   RateLimit    src/ratelimit/token_bucket.py: the buckets, and the limiter of three scopes.
--   Permissions  src/permissions.py: capabilities, commands and network targets.
--   Egress       src/network_egress.py: policy, iptables script, and the packets that it lets out.
--   Seccomp      src/sandbox/seccomp.py: the profiles and their documents.
--   AppArmor     src/sandbox/apparmor.py: the profiles of the agent types and their text, and the security
--                options of src/container_runtime.py.
--   Audit        src/audit/audit_logger.py: the events, redaction, and the destinations.
--   Containers   src/container_runtime.py: the options of a container, Containers.Sandboxes the methods,
--                Containers.Implements the runtime as the manager's `Sandbox`.
--   Secrets      src/secrets/encrypted_store.py: the secrets and their documents, and Secrets.Vault the
--                methods of the store.
-- Prelude has what the parts share: dicts as association lists, signed integers, texts, sorting,
-- outcomes of calls that may raise. Tests has concrete runs.
--
-- A Python float is an element of a parameter (`Prelude.Float`), its laws are those of IEEE 754
-- without NaN (`Prelude.FloatLaws`); an int is a ℤ of any size, as in Python; a UUID is a number. The
-- database session, Redis, Docker, the clock, JSON texts and compiled regular expressions are
-- parameters. The order in which the database returns the rows of a query by role is one too.
-- `sorted` is a stable insertion sort. A call that raises ends in `Outcome`, or in a result type of its
-- own where the state after the exception matters. Loops over lists are structural. The only fuel is
-- that of the wait for a job, `Workers.wait_for_job` and `Entry.watch`, which polls until the job is
-- over: the looks up to the one that finds it so are enough.
--
-- Not modelled: the HTTP routes but those of the events and the health, ORM tables and migrations, the
-- frontend, logging, the SQL of src/db.py, the loading of the configuration, src/health_check.py, and
-- the services of the onboarding, which make texts and rows of a company from an interview. Characters are
-- handled as Python does for ASCII texts.
pub mod Prelude
pub mod Agents
pub mod Registry
pub mod Routing
pub mod RateLimit
pub mod Consumer
pub mod Workers
pub mod Permissions
pub mod Egress
pub mod Seccomp
pub mod AppArmor
pub mod Audit
pub mod Secrets
pub mod Containers
pub mod Events
pub mod Orchestrator
pub mod Entry
pub mod Heartbeat
pub mod Metrics
pub mod Tests

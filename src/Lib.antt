-- ===== src/Lib.antt =====
-- Verification of samdi: a control plane that turns events of channels into tasks, hands each task to
-- one worker and keeps an audit log; and the worker on a user's device, which asks its user, starts an
-- agent and reports.
--
-- The program and its model
-- - Domain (packages/task-domain/src/state-machine.ts, packages/protocol/src): the eight statuses of
--   a task, `TRANSITIONS`, `canTransition`, `isTerminal`, and the reports of a worker.
--   Domain/Lifecycle has the allowed moves and the diagram of README.md as indexed data types.
-- - ControlPlane/Db (apps/control-plane/src/db.ts): the tables as lists of rows in insertion order,
--   with the primary keys, the foreign keys and the partial unique index on open threads checked at
--   each insertion. The record has the clock and the count of identifiers drawn.
-- - ControlPlane/Audit and ControlPlane/Tasks (apps/control-plane/src/task-store.ts): `TaskStore` and
--   `SqlitePayloadStore`. A method is an action `Query`: it takes the tables to a result or a failure
--   and the tables. `createTask`, `claimNext`, `applyReport`, `setAgent`, `resolveStalled`,
--   `recoverWorkerTasks`, `extendWaitingLeases` and `sweepExpiredLeases` are `create_task`,
--   `claim_next`, `apply_report`, `set_agent`, `resolve_stalled`, `recover_worker_tasks`,
--   `extend_waiting_leases` and `sweep_expired_leases`.
--   Steps is the abstract specification, a relation of allowed changes; Refinement puts the
--   methods beside it; Invariant, History, Paths, Exclusion, Leases and Heartbeat build on that.
-- - ControlPlane/Threads (apps/control-plane/src/thread-store.ts): `ThreadStore`, the conversations
--   that wait for an interpretation.
-- - ControlPlane/Workers (apps/control-plane/src/worker-registry.ts): `WorkerRegistry`.
-- - Gateway (packages/policy-gateway/src/index.ts): the gates that decide on a device whether a task
--   may start.
-- - ControlPlane/Memory, ControlPlane/Channels (apps/control-plane/src/channel-registry.ts):
--   `ChannelRegistry`, its map of runtimes beside the tables. Removal has `remove`; Effects has what
--   the methods do; Sync, Calls, Keys, Loading and Purge what follows. ControlPlane/Deletion is
--   `DELETE` with the foreign keys.
-- - ControlPlane/Pipeline (apps/control-plane/src/pipeline.ts): `Pipeline`, over the two stores and
--   the runtimes. `interpretThread` is split at its `await`: `settle` is what follows the answer.
-- - ControlPlane/Routes (apps/control-plane/src/server.ts): the requests, who may make them, the
--   handlers and the codes of the errors. ControlPlane/Tasks/Listing and Routes/Totals have the
--   reads, and Tasks/Pages the pages of the task list.
-- - Worker (apps/worker/src/worker-state.ts, activity-log.ts): the settings changed on the device,
--   with the file they are kept in and the errors of the file system, and the activity log.
-- - Interpreter (packages/interpreter/src): the three built-in interpreters, on any reply of the
--   endpoint or the model.
-- - Worker/Process (apps/worker/src/worker.ts): the class `Worker`, its maps and its report queues.
--   Process/Steps has `processOne`, split at each `await`: `claimed` is what follows the answer to the
--   claim, `judge` the verdict of the gate, `go_on` what follows a report that was taken, and `step`
--   what an event does. Protocol has the automaton of what one call may do; Soundness,
--   Following and Guarantees are on its steps, and Acceptance delivers the reports to the task store.
--   Registered, Entries, Registration, Current, Upkeep and Ongoing are on the entries of the maps.
-- - Worker/Daemon (apps/worker/src/index.ts): the polling loops (`applyConcurrency` is
--   `apply_concurrency`), the local API (Requests, Serving: `serve`) and the heartbeat, which
--   Heartbeats puts together with the sweep of the control plane. A loop is an entry with a number;
--   `next_round` is its return to the test of `pollLoop`, and Rounds is on a round of each loop.
-- - Config (packages/config/src/load.ts, schema.ts): `deepMerge` and `compact` are `deep_merge` and `compact`;
--   Loading has the sources and the variables, Entries, Merging and Precedence what is found where,
--   and Values the texts that the schemas turn into paths and labels.
-- - Agent (packages/agent-adapter/src): the mock adapter, and the script that starts Claude Code.
--   Shell is an independent reader of the words of a shell line, for Escaping and Quoting.
-- - Common: SQL tables, sorting, the monad of failing actions, tests on numbers and texts.
-- - Samples: small databases on which the definitions run and the theorems are applied.
--
-- Conventions and bounds
-- - Times are milliseconds as numbers; the source compares the texts of `toISOString`, whose order is
--   that of the times. A comparison with `now - d` is written with `+ d` on the other side.
-- - `randomUUID` is a function from the count of identifiers drawn; theorems that need it assume that
--   it never repeats.
-- - All loops are structural, so there is no fuel. The loop of `processOne` is taken one event at a
--   time, so that a worker that waits for ever is a run of events like any other.
-- - Within one call the clock does not move. Rows that tie in an `ORDER BY` stay in insertion order.
-- - A JavaScript text is a text of whole characters: where the source cuts a text inside a surrogate
--   pair, the model leaves the character out.
--
-- Not modelled: the client that the worker calls the control plane with (its answers are an
-- argument), the schemas of the settings; and for good the user interfaces, process start, the prompts
-- and the libraries (SQLite, Fastify, zod, YAML, the model behind an interpreter).
pub mod Common
pub mod Domain
pub mod ControlPlane
pub mod Gateway
pub mod Interpreter
pub mod Worker
pub mod Agent
pub mod Config
pub mod Samples

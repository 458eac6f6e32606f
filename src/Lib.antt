-- ===== src/Lib.antt =====
-- Cognitive Runtime: the API's runs, the worker, the DAG executor and the helpers around them.
--
-- The program runs chat requests as DAGs of nodes. A worker takes a run from a queue, plans a DAG,
-- and executes it; all that happens is an event in an append-only log, and every status is derived
-- from the log, so that a job that is delivered again goes on where it stopped.
--
-- - Contracts/EventTypes, Dag, Events, Json: packages/contracts/src/event-types.ts, dag.ts,
--   events.ts and phase7.ts. An event's `data` is a record of optional members.
-- - Executor: packages/runtime/src/dag-executor.ts.
--   Order: stableTopologicalOrder. Validate: validateDagSpecOrThrow. Derive: eventsForDag,
--   deriveNodeState, chooseAttemptForResume. Prompt: buildPromptFromDb, llamaCompletion. Reply:
--   enforceReplyConstraints. Fingerprint: fingerprintDag of
--   packages/runtime/src/meta-planner/task-features.ts. Emit: the closure `emit`. Nodes: runNode.
--   Progress, Attempts, Run: executeDag, its maps, the attempts at a node, and the rest.
--   Outcome and Effects are the types of results and of `async` functions: such a function takes
--   the state (the log, the keys seen, the world outside) and gives a value or an error, and the
--   new state, which an error does not undo.
--   Respects, Ensures and Returns are what a call does to the state, what holds of its value, and
--   that it returns. Appended: one append, and the events of a run.
-- - Runs: apps/api/src/routes/runs.ts, and Runs/Cancel of apps/api/src/routes/phase7.ts. Routes
--   holds the handlers, which take the state as the executor does.
-- - DagState: packages/runtime/src/derive-dag-run-state.ts. Draft holds the nodes and attempts.
-- - Worker: apps/worker/src/index.ts. Job is the handler of the queue's jobs, and Reward its block
--   for the reward. What the API and the heartbeat timer append while the handler runs is a field
--   of Worker.Job.Runtime, `arrivals`, and comes just before the handler reads the log.
-- - Memory: packages/runtime/src/memory/m1-episodic-service.ts, and Memory/Orchestrator
--   memory-orchestrator.ts beside it, which calls Memory/Semantic, m2-semantic-service.ts. The
--   search of the third tier is a field of Memory.Orchestrator.Tiers, the episodes' rows are the
--   fields of Memory.M1Store, and vectors are of any type.
-- - Reward: packages/runtime/src/reward-agent.ts, and Reward/Trust derive-agent-trust.ts beside it.
--   Contracts/Numbers is the interface for floating-point numbers.
-- - Uuid: parseUuidToBytes, bytesToUuidString and uuidV5 of dag-executor.ts.
-- - Planner: planDagForRun, and packages/runtime/src/code-change.ts.
-- - Lifecycle: packages/runtime/src/lifecycle.ts.
-- - Policy: packages/runtime/src/policy-gate.ts.
--
-- What is outside of the repository is a parameter: the database, the network, the clock, zod's
-- string formats, the regular expressions, SHA-1 and SHA-256, `parseInt`, `toLowerCase`,
-- `localeCompare`, the parse of timestamps and the embedding of a text. The executor's are the
-- fields of Executor.Effects.Services; a state of the world, of any type, passes through them, and
-- whether the store refuses an event may depend on it. The numbers of the modelled code are whole,
-- but for scores and trust; times are natural numbers of milliseconds, and their differences
-- integers, but for the latencies of nodes, for which the clock must not run backwards. Strings are
-- lists of UTF-16 code units. The rows of a run are listed in the order of their appends; the
-- storage orders those of one millisecond by a random id.
--
-- Loops are structural recursions. The one that orders the nodes has fuel: the number of ready ids
-- and of unmet dependencies, which each round lowers. The attempts at a node are at most as many as
-- remain up to its limit.
--
-- The worker's calls of the memory and of the meta-planner are fields of Worker.Job.Runtime;
-- Memory.Quiet.with_memory fills in those of the memory. The copy of its type that an event has in
-- `data` is left out.
--
-- Not modelled: the worker's stores and startup, the other HTTP routes, the memory's retrieval for
-- the planner, third tier, cache and embeddings, the meta-planner and the web client; the stack
-- trace among the details of a NODE_EXCEPTION; the legacy forms of DAG specifications; the messages
-- of validation errors.
pub mod Prelude
pub mod Contracts
pub mod Executor
pub mod Uuid
pub mod Worker
pub mod Lifecycle
pub mod Planner
pub mod Policy
pub mod DagState
pub mod Memory
pub mod Reward
pub mod Runs
pub mod Samples

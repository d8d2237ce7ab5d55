-- ===== src/Lib.antt =====
-- nest-batch: the core of a batch framework (packages/core/src). A job is a graph of steps. The
-- launcher creates an execution of a job in the repository, the job executor walks the graph and
-- runs each step through the tasklet or the chunk step executor, and the flow evaluator picks the
-- next step from the exit status. The chunk executor reads, processes and writes items in chunks
-- under a skip and a retry policy and saves a checkpoint behind each chunk, from which a restart
-- goes on.
--
-- Asynchronous code is a function from a state to a result and a state (Prelude/Effects): what it
-- wrote before an error stays written. Calls out of the modelled code (readers, writers,
-- listeners, streams, transactions, observers, the clock) are parameters that act on a world `W`
-- and may throw.
--
-- Parts, with paths below packages/core/src:
-- - Errors, Status: core/errors.ts and core/status.ts.
-- - Flow: flow/flow-evaluator.ts. Strings are lists of UTF-16 code units there. Flow/Matching,
--   Choice and Exactness hold the proofs.
-- - Policies (Skip, Retry): policies/skip-policy.ts and policies/retry-policy.ts. A function value
--   is a record of what the policies ask of it.
-- - Partitions: partition-helpers.ts.
-- - Context: the JSON value of an execution context, the checkpoint field (withLastChunkIndex of
--   execution/chunk-step-executor.ts, readLastCheckpoint of execution/job-executor.ts) and
--   core/execution-context/validator.ts on JSON trees, whose checks of values that are no JSON
--   have nothing to do there.
-- - Repository: the rows of core/repository/types.ts; State, Store, Steps and Contexts are
--   repository/in-memory/in-memory-job-repository.ts, one function per method. Running, Reading
--   and Updating hold the proofs. An operation runs as a whole, which the promise lock and the
--   single thread see to.
-- - Operator: execution/job-operator.ts (stop, abandon, restart) and getJobExecutionDetails of
--   execution/job-explorer.ts. Lifecycle is about the moves of an execution, Commands about
--   commands in a row.
-- - Validator: core/validation/definition-validator.ts. Graph has paths and circles; Reachable and
--   Acyclic (with Loop) are about the two searches, whose fuel is the number of transitions and
--   one or two more; Checks and Deciders about the single checks, Verdict about the whole and
--   Routes about what the executor gets from it.
-- - Launcher: execution/job-launcher.ts and startNextInstance of execution/job-operator.ts;
--   Registry is registry/job-registry.ts, Key is execution/job-key.ts (Order and Same hold its
--   proofs), Again is about two launches, and Worker is the run of
--   execution/batch-worker-runner.ts.
-- - Builder: builder/step-builder.ts, builder/flow-builder.ts and builder/job-builder.ts, one
--   function per method, and compiler/definition-compiler.ts (Compiler); Fluent has what holds of
--   a job that is built so.
-- - Listeners: execution/listener-invoker.ts. Resolvers has the maps that
--   execution/job-executor.ts builds; Dispatch says which failure ends a dispatch; Rekey, Legacy
--   and Critical are about the way through the legacy keys.
-- - Webhook: webhook-signing.ts (Signing), module-options.ts (Options) and
--   webhook-batch.observer.ts (Observer) of packages/webhook/src. Strings are lists of code units
--   in the signature. The deliveries to several addresses, which run at the same time, run one
--   after the other. Header is about the signature, Delivering and Endings about the retries.
-- - Explorer: explorer/batch-explorer.ts with the options of decorators; Discovered is
--   compileFromDiscovered of compiler/definition-compiler.ts; Binding says what its references and
--   steps stand for, Handlers what a job has that it compiles.
-- - Schedule: execution/in-process-schedule.ts, the state of one schedule as a step relation over
--   ticks, ends of launches and the shutdown; Overlap is about its policy, and Registry is
--   module/batch-schedule-registry.ts.
-- - Tasklet: execution/tasklet-step-executor.ts and execution/ref-resolver.ts. The variable
--   `result` is part of the state, since listeners can write into it. Outcome is about its result.
-- - Chunk: execution/chunk-step-executor.ts. Handlers has its context and variables, Decision and
--   Phase are runPhase, Loop the chunk loop, Plan and Step the rest of execute. Budget, Attempts,
--   Bounds and Termination state what holds, with Frames, Shrinking, Measure and Consumption below
--   them.
-- - Executor: execution/job-executor.ts. Definitions has the job definition of core/ir and the
--   collaborators, Routing the choice of the next step, Patches what is written, Flow the loop and
--   execute; Frames, Rows, Settled and Progress hold the proofs, and Resume is about the way from
--   a checkpoint to a restart.
--
-- Loops that the source does not bound run on fuel, and an outcome `none` says that the fuel ran
-- out. The chunk loop needs one unit more than there are items left. The attempts of a phase are
-- bounded by the source (999 with a retry policy, else 1). The flow loop of the job executor
-- follows the transitions of a definition, which the source does not bound: fuel above the rank of
-- the first step is enough where the steps can be ranked.
--
-- Numbers are natural numbers: negative limits, delays and sizes, fractions and the precision of
-- floating point are not modelled. Dates are numbers of milliseconds. A stream that writes into
-- the context that it is handed is one that returns the context. Object keys keep their insertion
-- order, which JavaScript does for keys that are no array indices. An object has the keys that its
-- table has: what it inherits (a step id such as toString, which the executor would find in the
-- steps) and a key __proto__ (which the deep clone of the repository would lose) are left out, but
-- for the test with `in` of the validator. A key with the value undefined is an absent key, though
-- the spread of an update writes an undefined status, exit code or message. Not modelled: module
-- wiring, timers, the queues of other schedulers, transports, database repositories, and input and
-- output.
pub mod Prelude
pub mod Errors
pub mod Status
pub mod Policies
pub mod Partitions
pub mod Flow
pub mod Context
pub mod Repository
pub mod Operator
pub mod Chunk
pub mod Executor
pub mod Validator
pub mod Launcher
pub mod Builder
pub mod Listeners
pub mod Tasklet
pub mod Webhook
pub mod Explorer
pub mod Schedule

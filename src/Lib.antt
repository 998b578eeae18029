-- ===== src/Lib.antt =====
-- Verification of the durable kernel of asynchronnous-agent-os.
--
-- The program is an agent operating system: goals are acyclic graphs of tasks, kept with all other state in
-- a SQLite store (src/infra/store.js). A scheduler (src/runtime/scheduler.js) claims ready tasks
-- under leases and runs them in quanta; operators, timers, events and interrupts change them
-- between quanta; tools with side effects run under the operation manager, in bounded pools; one
-- kernel process at a time holds the kernel's lease.
--
-- Files:
--   Prelude      shared names, Boolean tests, SQL comparisons with NULL, lists.
--   Domain       src/domain/states.js.
--   Json         the JSON values of columns and messages.
--   Table        tables with a primary key; `Laws` and `Keys` have the laws of updates, `Loops`
--                those of a loop that handles the selected rows one by one.
--   Store        src/infra/store.js: rows, and access by key; `Sample` has rows for examples.
--   Lifecycle    src/infra/store.js: the operations on `tasks`. `Turn` has what a worker calls
--                (claimTask to renewLease), `Control` what an operator or interrupt calls,
--                `Sweep` what the scheduler's tick and start call, `Notice` injectCognitiveNotice and
--                purgeSession, `Goals` reconcileBlocked and reconcileGoal. The other children prove:
--                `Evolve`, `Writes`, `Settle`, `Turns`, `Controls`, `Sweeps`, `Expiry`, `Notices`
--                that rows change only as they may, `Machine` the state machine of the calls,
--                `History` the same with purges of sessions, `Swept` what the sweeps make of a
--                task, `Fencing` leases, `Failure` retries, `Dependents`, `Verdict`, `Fixpoint`,
--                `OnePass` and `Stuck` the reconciliation of dependents.
--   Operation    src/infra/store.js (prepareOperation, transitionOperation) and
--                src/kernel/operation-manager.js: `Manager` has the first phase of executeOnce,
--                `Execute` the rest and reconcile, `Due` reconcileDue and compensate. `KeyRows`,
--                `Invocation`, `Once` and `History` are about repeated calls, `Wedged` about
--                interrupted reconciliations.
--   Pools        src/kernel/resource-pools.js; `Machine` has the runs of a pool.
--   KernelLease  src/infra/store.js: acquireKernelLease, renewKernelLease, releaseKernelLease.
--   Claims       src/infra/store.js: acquireResourceClaims, releaseResourceClaims and
--                releaseStaleResourceClaims; `Exclusion` has the runs, `Stale` the sweep.
--   GoalGraph    src/infra/store.js, createGoalWithTasks: the checks of a new goal's tasks and of the
--                graph of their dependencies; `Creation` has the whole call. `Search` and `Decision`
--                are about the search for cycles, `Checks` about all checks, `Rows` about the rows
--                that are inserted.
--   Events       src/infra/store.js: publishEvent; `Consume` has consumeQueuedEvent and
--                consumeEventAndCheckpoint, `Replay` is about repeated publications, `Growth`
--                about what becomes of the rows of `tasks`.
--   Workflow     src/runtime/workflow-engine.js: `Values` has resolveValue and the checkpoints,
--                `Types` the steps, `Turn` executeTurn; `Path` relates a turn to the calls of
--                the store, `Release` and `Ends` are about the lease at a turn's end, `Rounds` about
--                what a round does next.
--   Usage        src/infra/store.js (goal_contracts, resource_usage_ledger) and
--                src/kernel/resource-kernel.js: `Books` has the rows, `Ledger` the recording of
--                usage, `Budget` buildBudget and reviseBudget, `Quota` admitTask and the daily
--                quotas, `Kernel` tool and model calls. `Balance`, `Batch` and `Runs` are about
--                contracts and ledger, `Narrowing` about budgets, `Limits` about calls.
--   Capability   src/kernel/capability-kernel.js: `Rules` has lists, domains and paths, `Freeze`
--                narrowList and freeze, `Authorize` authorizeTool; `Paths`, `Lists`, `Narrowing` and
--                `Refinement` compare a child's capabilities with its parent's, `Wildcards` is
--                about credentials.
--   Scheduler    src/runtime/scheduler.js: `Queue` has getReadyTasks of the store, `Drain` drain, tick
--                and start, `Quantum` runTask; `Capacity` is about the number of running tasks,
--                `Ends` about the lease at a quantum's end.
--   Monitors     src/infra/store.js: the monitors, from createMonitor to triggerMonitor; `Calls`,
--                `Completion` and `Exclusion` are about leases, `Backoff` about failures.
--   Delivery     src/infra/store.js (outbox) and src/platform/channels.js (the loop that drains
--                it): `Outbox` has the operations, `Sends` is about keys and attempts.
--
-- Correspondence. An operation takes the store and returns the new one with its result. A statement
-- `UPDATE ... WHERE id = ? AND c` is `Table.update`: a key selects at most one row. The clock is an
-- argument, read once for each call; a UUID that a call draws is an argument. Keys, tokens and
-- owners are texts that are only compared: they are numbers. Times are milliseconds, as natural
-- numbers. SQLite is called synchronously and JavaScript runs a method of the store to its end, so
-- the calls of one process do not interleave: a sequence of them, createGoalWithTasks and
-- injectCognitiveNotice included, is a path of `Lifecycle.Machine.Reach`, and one with purges of sessions
-- a `Lifecycle.History.History`. A path calls failTask without a token only for a task that has not
-- ended, as the program does. A method that waits for a callback is a function of what the callback
-- comes to, which includes that the process dies. Every loop is over a list of rows or calls;
-- only `GoalGraph.visit` takes fuel, one more than the number of tasks, which is enough since no path
-- of visits meets a task twice. `Workflow.Turn.run_rounds` counts the rounds that the engine's own
-- limit of steps leaves.
--
-- Not modelled: the constraints of capabilities (narrowPolicy and the bindings of arguments), the
-- schedules, approvals, interrupts and processes of the store, columns that no operation here reads
-- or writes, the texts and details of audit rows, the messages of sessions, the results of list
-- queries, and the components that the manifest lists as such. How a notice rewrites a snapshot is a
-- parameter. Amounts of usage are natural numbers: the rounding of doubles is
-- left out. What runs outside the repository is a parameter: SQLite's uniqueness of drawn ids, the
-- answers of tools, channels and models, posix.normalize, toLowerCase and the parsing of URLs.
pub mod Prelude
pub mod Domain
pub mod Json
pub mod Table
pub mod Store
pub mod Lifecycle
pub mod Operation
pub mod KernelLease
pub mod Pools
pub mod Claims
pub mod GoalGraph
pub mod Events
pub mod Workflow
pub mod Usage
pub mod Capability
pub mod Scheduler
pub mod Monitors
pub mod Delivery

-- ===== src/Lib.antt =====
-- Generic AI: the core of an agent runtime, as pure functions on explicit states, with the
-- theorems that make it correct.
--
-- The parts, and how they meet. A plugin host (packages/core/src/plugin-host) registers plugins,
-- puts them into dependency order and runs their lifecycle hooks in it; its registries are those
-- of packages/core/src/registries. A run works in sessions: the orchestrator
-- (packages/core/src/session) keeps them as a forest and ends what is below a session that fails
-- or is cancelled, and the delegation coordinator ends the child session of every delegated task.
-- Jobs and records go to the plugins of the host: the in-memory queue
-- (packages/plugin-queue-memory) and the in-memory storage (packages/plugin-storage-memory).
--
-- Base holds the shared notions: JavaScript's `Map` as an association list in insertion order
-- (Base/Dict), `trim` on texts (Base/Text), numbers as texts (Base/Numbers), and calls that write
-- to an object and may throw, which return the object also beside an error (Base/Exec).
--
-- Registry models registries/registry.ts: `createRegistry` is create_registry, and `register`,
-- `get`, `require`, `delete`, `clear`, `entries`, `keys`, `values` are functions on a Registry.
--
-- PluginHost models plugin-host.ts, dependency-order.ts and errors.ts. Types holds the manifests
-- and their checks (validatePluginManifest), Cycle the depth-first search findCycle, Order the
-- choice of the next plugin and resolvePluginOrder; PluginHost itself holds the host. The search
-- takes fuel, one more than the number of plugins: a path of it repeats no plugin, and Cycle/Total
-- shows that the fuel is never used up. The loop of resolvePluginOrder takes one round for each
-- plugin.
--
-- Session models session/orchestrator.ts: the record Orchestrator is the map of session records,
-- with counters of the calls of `now` and of the id factory, whose results are parameters. Session
-- holds the private methods, Session/Methods the public ones. The recursions over children
-- (toSnapshot, collectTerminalStates, findFirstActiveDescendant, cancelActiveDescendants) take the
-- number of sessions for fuel: in a forest a path has at most that many sessions, and
-- Session/Cascade and Session/Reading show that it is enough. Forest states what the forest
-- satisfies, Linked how parents and children refer to each other, Frame what a cascade cannot
-- reach, and Ending, Completing, Created and History the theorems on the methods.
--
-- Queue models plugin-queue-memory/src/index.ts. The record Queue has the private fields, and
-- beside them what the event loop holds: running handlers, settled jobs whose `finally` is to come
-- and the continuation of `close`. Queue holds `arm`, `pump` and what they use, Queue/Calls the
-- methods and the callbacks, and Queue/Steps any interleaving of them, which Queue/Valid shows to
-- keep the invariant. The loop of `pump` is recursion on the pending jobs. A listener that calls
-- the queue from inside an `emit`, or throws from one, is not modelled, nor are numbers with
-- fractions.
--
-- Storage models plugin-storage-memory/src/index.ts: Storage the reading functions and snapshots,
-- Storage/Methods what reads the clock, Storage/Objects the plain objects that snapshots are, with
-- the order of Object.entries. `structuredClone` is a parameter that tells which values can be
-- cloned; a clone is equal to the value, and values are immutable, so that nothing shows what a
-- caller does to an object that it shares with the storage. `transaction`, which is about such
-- sharing, is not modelled.
--
-- Delegation models core/src/session/delegation.ts. `delegate` runs an executor, which is a
-- parameter, for a new child session. The executor is a function on the orchestrator, so whatever
-- happens while it is awaited is part of it. Delegation/Executors shows that an executor made of
-- calls of the orchestrator meets the hypothesis of Delegation/Settling. Delegation/Ended says how
-- the child of each outcome ends. Delegation/Many models `delegateMany`: the calls of the
-- orchestrator that the executors make and the settling of each are a list of steps in any order.
--
-- Scope models core/src/scope/index.ts: a scope knows the line of its ancestors' ids.
--
-- Scheduler models core/src/scheduler/manual-scheduler.ts, a queue of tasks that can be cancelled.
-- `flushAll` takes fuel, since tasks may go on scheduling tasks for ever; for tasks that leave the
-- scheduler alone, one round more than the queue is long is enough.
--
-- Events models core/src/events (sdk/src/events is the same code): Events/Taxonomy the names and
-- `createCanonicalEvent`, Events/Stream the stream. `emit` and `subscribe` are suspended at each
-- call of a listener, as a Task; that a listener has settled is a step of its own, so that any
-- interleaving is a list of steps, calls from inside a listener included. The random id and the
-- clock are parameters.
--
-- Web models plugin-tools-web/src/index.ts: Web/Address the tests of IP addresses, Web/Policy the
-- checks of hosts and URLs, Web/Fetch `web_fetch` up to the response, with its redirects. The
-- parser of URLs, `isIP`, `toLowerCase`, the resolver and the fetcher are parameters. The loop
-- over redirects recurs on the redirects that are left.
--
-- RunModes models core/src/run-modes: RunModes/Machine the session machine of session-machine.ts,
-- RunModes/Sync and RunModes/Async the two modes of run-modes.ts. An observer may throw, but
-- leaves the machine alone; a task is a function on the machine, which stands for all that happens
-- until it has settled. RunModes/Plan is the table of states that the machine refines.
--
-- StopLoop models core/src/runtime/stop-tool-loop.ts, the loop that prompts an agent until it
-- calls the stop tool. A loop with a limit takes that many rounds at most; only one without takes
-- fuel.
--
-- Hooks models core/src/harness/lifecycle-hooks.ts with its contract in sdk/src/contracts: Hooks
-- the declarations and what matches, Hooks/Records and Hooks/Executor the executor, Hooks/Tool the
-- wrapping of a tool. The hooks of a run are taken one after another. Processes, handlers, the
-- event stream, the clock and the parser of JSON are parameters; an error is its message.
--
-- Messaging models plugin-messaging/src/index.ts, but for `search`. Its store is an interface;
-- Messaging/Store says what the service relies on, and shows that a map with trimmed keys does it.
--
-- Elsewhere error texts are constructors of an error type. Not modelled: the adapters to model
-- providers, HTTP, SQLite, OpenTelemetry, terminals and YAML, which call third-party code; the
-- examples and the web interface; the immediate and microtask schedulers, the search of messages
-- and the rest of the harness.
pub mod Base
pub mod Registry
pub mod PluginHost
pub mod Session
pub mod Queue
pub mod Storage
pub mod Delegation
pub mod Scope
pub mod Scheduler
pub mod Events
pub mod Web
pub mod RunModes
pub mod StopLoop
pub mod Hooks
pub mod Messaging
mod Examples

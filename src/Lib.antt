-- ===== src/Lib.antt =====
-- Newbro runs tasks for a user who talks to it: a conversation puts tasks on a blackboard, workers
-- claim them and report what their executors do, and the user is told when a task is done, blocked
-- or needs an answer. This library models the Python core of it, the state and the decisions, and
-- leaves out the transport, the language models and the executors' processes.
--
-- The parts and their files:
--   * Prelude: texts with `strip`, dicts in insertion order, JSON values, integers, stable sorts,
--     and the interface to `datetime.isoformat` (Clock).
--   * Protocol (src/newbro/protocol): the enumerations and the records, with every field. Fields are
--     named as in the source; ids and time stamps are texts, revisions are numbers.
--   * Blackboard (src/newbro/blackboard): `InMemoryBlackboard` is the record Blackboard of State, a
--     dict and its order list being one Table. Each method is a function of that name in Tasks,
--     Runs, Sessions, Ordered and Personas; Payloads has what a write announces, Subscriptions the
--     queues of the subscribers, Queries the query service. History has the writes as data, so
--     that invariants go by induction over sequences of writes.
--   * Execution (src/newbro/execution): Assignment has the leases of `assignment.py`, Modes the
--     `mode_manager.py`, Scheduler the `scheduler.py`, Runs the `run_manager.py`, Summaries the
--     `summary_manager.py`, Events the reports of src/newbro/executors/core/events.py. Sessions has the
--     `session_manager.py`, Reconcile the `_execute_task` of `reconcile.py`, Failures its failure paths and
--     the release of personas.
--   * Nodes (src/newbro/executors/node/registry.py): Records, the checks of names, executors and
--     agents (Checks), the registry file (Rendering) and the operations (Registry).
--   * Notification (src/newbro/notification): Builder, Policy and Manager for `candidate_builder.py`,
--     `policy.py` and `manager.py`.
--   * Interaction (src/newbro/interaction): Requests and Outbound have the requests of `manager.py` that
--     blocked runs, summaries and turns lead to, Prompts their kinds and titles, Details what a
--     request carries, Sanitization the `sanitization.py`; Manager has the actions, the marking of attention items and the cancellation
--     of a task's requests, Proposals the answers to a proposed plan, Resolution `resolve_request`.
--   * Runtime (src/newbro/runtime/drafts.py): Wording has the functions on texts, Dispatch the task spec, the
--     plan and the gate, Drafts the `DraftSessionManager`, Revising the next revision of a session,
--     Rewriters the rewriters but for the call of the language model. The records are in Protocol/Drafts.
--   * Communication (src/newbro/communication/persona_pool.py): Quoting has how a text of the personas file is
--     quoted and read back.
--   * Examples: the theorems on sample data.
--
-- How they interact: a run manager applies a report to the task and the run in the store; the puts
-- are announced to the subscribers; the notification manager handles an announced write by reading
-- run, task and summary back and putting a candidate; later it plans what to tell and marks it. The
-- reconciliation composes the execution side: a claimed task gets its session and its run, the events
-- of the executor are applied one by one, and the end of the run, or the exception, settles the task.
-- What a user says becomes a draft with a plan; the gate decides whether the plan is dispatched.
--
-- State is passed explicitly: an operation takes the blackboard, or the registry, and returns it
-- with its result. A coroutine that holds the lock is one step. Python objects in the store are
-- shared with the caller where the source relies on it: the bump of a revision by a mutation and
-- the changes of a run by a report are writes to the stored object (`bump_stored`, `reflect`), while
-- the snapshot that later puts compare with is a copy. Fresh ids, tokens and the time are
-- arguments. Instants and durations are natural numbers of clock ticks. All recursion is
-- structural, so there is no fuel. An exception is a value: of `Attempt`, or, in the sessions, the
-- reconciliation and the drafts, the right side of a sum, with its message.
--
-- Not modelled: the diagnostics (they change no state), floating point, the parsing of the
-- registry file, the claiming of a whole schedule by `tick` and the interleaving of runs and of
-- draft calls, an exception of the wording of a notification or of the callback after it, the
-- `TypeError` on a `source_kind` that is a list or an object, prompts and streams of language
-- models, and the parts of the repository that are transport, user interface or a call of another
-- service. `str.lower` and the SHA-256 digest are arguments of the registry, `str` of a value
-- that is no text one of Proposals, `str` of a number, `str.title` and `chr` those of Requests,
-- `str.upper` one of the drafts, the validation of a resume handle and the executors' streams are
-- arguments of the reconciliation, the wording of a notification is an argument of the
-- notification manager.
pub mod Prelude
pub mod Protocol
pub mod Blackboard
pub mod Execution
pub mod Nodes
pub mod Notification
pub mod Interaction
pub mod Runtime
pub mod Communication
pub mod Examples

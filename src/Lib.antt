-- ===== src/Lib.antt =====
-- Verification of the run-state core of AlphaOrchestration, of the worker that carries out one task
-- of a fixed workflow and of the tool registry. AlphaOrchestration is a local research orchestrator
-- whose runs are append-only streams of events. All paths below are under src/alpha_orchestration.
--
-- The parts and how they interact. A runtime proposes drafts of events; the run controller
-- (controller.py) gives each its sequence number, reduces it into the run state (reducer.py),
-- appends it to the journal (journal.py) and hands it to the subscribers. Replay reads the journal
-- back, checks the hashes that its events carry and reduces them again. Local models propose
-- actions as text (actions.py); workflow authors declare tasks (dag.py) with output schemas
-- (tools/schema.py). A worker (fixed_dag.py) asks a model for actions, makes the tool calls among
-- them through the registry (tools/registry.py) and yields the drafts of what happened.
--
-- Which file models which part:
--   Prelude, Result   library names, native numbers, dictionaries as association lists in the
--                     order of insertion, texts; exceptions as values, without their messages.
--   Json              JsonValue of domain.py. Json/Python is what the code uses of str, int, bool
--                     and datetime, Json/Equality is `==`, Json/Sorted is `sort_keys`.
--   Domain            domain.py: the enums, RunSpec, Candidate, RunEvent, RunState, their
--                     __post_init__ checks (make_...) and their to_dict and from_dict.
--   Reducer           reducer.py. Payload holds the payload readers, Plan is _planned_tasks, Tasks,
--                     Agents and Step are the branches of reduce_event (dispatch is its ladder of
--                     event kinds), Run is the loop that reduces a list of events. The other files
--                     under Reducer are proofs: Lifecycle has the step relation of a task, Wiring
--                     and Acyclic the shape of a plan, Board the candidates, Endings the end of a
--                     run.
--   Journal           journal.py: Verifier is _IntegrityVerifier, whose state is the planned
--                     identity; Store the two journals; Load is load_events and replay.
--   Controller        controller.py and EventDraft of ports.py. Each method and each part of _drive
--                     between two awaits is a function of the controller and the clock; an
--                     operation that raises keeps what it had changed by then. A subscriber is a
--                     function that returns or raises at an event, with the events that it was
--                     handed; new ones subscribe between any two steps. The interleavings of the
--                     asyncio tasks are the sequences of Controller/Steps; Replays, Told and
--                     Ends are proofs over them.
--   Actions           actions.py: parse_action and its helpers, with error code and the flag
--                     `repairable`. The hook of json.loads is an argument of the decoder; Keys says
--                     how json.loads uses it, Says what a JSON value says as an action, and Accepted
--                     and Repair are proofs.
--   Schema            tools/schema.py: validate_schema, and in Schema/Validate validate_json.
--   Dag               dag.py: TaskDefinition and its helpers.
--   FixedDag          fixed_dag.py: the worker of one task, _stream_task. Records and Drafts are its
--                     data and the drafts that it yields, Sources the source identifiers,
--                     ModelResult the checks on a model's answer, Preflight those on tool calls and
--                     their results; Worker is how a turn or a task ends, Calls the loop over tool
--                     calls, Turns the loop over turns. The yielded drafts are a list in the state
--                     of the worker. The other files are proofs: Tracking and Own compare the drafts
--                     with what reducer.py makes of them, Working is the invariant, Calling, Ended
--                     and Over keep it, Taken puts a worker's drafts into a run.
--   Tools             tools/registry.py: the registry, whose cache is part of the state that execute
--                     returns, and in Scope the executor of one task. Replay and Valid are proofs.
--   Tests             small inputs and what the program does on them.
--
-- Parameters, for code outside the repository: Python (text of a value, int of a text, float of an
-- int, ISO timestamps), Hashing (SHA-256 of a canonical JSON text), Codec (one line of JSON with
-- the hooks that journal.py passes), Decoder (json.loads as actions.py calls it, and the UTF-8
-- size), repr, the size of a canonical JSON text, the texts of error messages, the model that
-- answers requests. The worker takes the executor of tool calls as a function from calls to
-- replies, and bind_finance_arguments of fixed_dag.py, whose observations are not modelled, as
-- another. The handlers of tools are functions of their arguments. The hypotheses on them are the
-- records IsReadable and IsHooked, where they are used; the latter has as a parameter the value
-- that a text of JSON writes, with the pairs of its objects as they stand there.
--
-- Bounds and fuel. The loop `while pending` of _planned_tasks is `drain` on as much fuel as there
-- are tasks: every round that does not fail removes one. validate_schema runs on as much fuel as
-- its argument has values, each of its calls being on a smaller part, and so does validate_json on
-- its schema. The turns of a worker are counted down from max_turns. All other loops are
-- structural. The error off_model marks a part of a schema that has a type which validate_schema
-- refuses, where Python would go on in its own way. Python's integers have no bound, and neither
-- has the model's ℤ.
--
-- Not modelled: messages of exceptions, the wall clock, fresh run identifiers, files and
-- directories, asyncio's own scheduling; WorkflowDefinition of dag.py, the scheduler of
-- fixed_dag.py, the other runtimes, harnesses, data providers, calculations, adapters, the
-- terminal interface and the command line.
pub mod Prelude
pub mod Result
pub mod Json
pub mod Domain
pub mod Reducer
pub mod Journal
pub mod Controller
pub mod Actions
pub mod Schema
pub mod Dag
pub mod FixedDag
pub mod Tools
pub mod Tests

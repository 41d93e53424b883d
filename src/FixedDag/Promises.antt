-- ===== src/FixedDag/Promises.antt =====
-- fixed_dag.py: what the worker of a task promises, `_stream_task` as a whole.
use alpha_orchestration.Prelude.{◌≡◌, refl, arith, ◌∙◌, ℕ, ◌≤◌, true, none, some, [], sym}
use alpha_orchestration.Prelude.Dict.{lookup}
use alpha_orchestration.Result.{ok}
use alpha_orchestration.Json.{null}
use alpha_orchestration.Domain.Enums.{TaskStatus}
use alpha_orchestration.Domain.State.{RunState, TaskState}
use alpha_orchestration.Reducer.Tasks.{is_terminal, is_success}
use alpha_orchestration.Dag.{is_name}
use alpha_orchestration.FixedDag.{Surroundings}
use alpha_orchestration.FixedDag.Sources.{all_in}
use alpha_orchestration.FixedDag.Records.{ToolCall, ModelRequest}
use alpha_orchestration.FixedDag.ModelResult.{ModelReply}
use alpha_orchestration.FixedDag.Worker.{Assignment, ToolReply, Worker}
use alpha_orchestration.FixedDag.Turns.{stream_task}
use alpha_orchestration.FixedDag.Taken.{Runs, take_drafts, take_drafts-follow}
use alpha_orchestration.FixedDag.Working.{IsDelivered, IsSettled}
use alpha_orchestration.FixedDag.Over.{stream_task-IsOver}

-- The reducer's task agrees with the worker's outcome.
pub record Agrees (u : TaskState) (w : Worker) : Type 0 where
  pub status : u.status ≡ w.outcome.status
  pub error : u.error ≡ w.outcome.error
  pub turns : u.turns ≡ w.outcome.turns
  pub tool_calls : u.tool_calls ≡ w.outcome.tool_calls

-- The limits of the task's policy.
pub record IsBounded (a : Assignment) (w : Worker) : Type 0 where
  pub turns : w.outcome.turns ≤ a.task.max_turns
  pub tool_calls : w.outcome.tool_calls ≤ a.task.max_tool_calls
  pub repairs : w.repairs_used ≤ a.task.repair_budget
  pub sources : all_in a.allowed_sources w.outcome.source_ids ≡ true

-- A task as it is when its worker begins.
abbrev pub IsFresh : TaskState → Type 0
IsFresh t = (t.status ≡ TaskStatus.running) × (t.turns ≡ 0) × (t.tool_calls ≡ 0)

module _ (around : Surroundings) (complete : ModelRequest → ModelReply)
    (execute : ToolCall → ToolReply) (a : Assignment) where
  abbrev some_task : TaskState
  some_task = record {
    task_id = a.task.task_id;
    agent_id = a.task.agent_id;
    depends_on = [];
    required = true;
    allow_failed_dependencies = true;
    status = TaskStatus.running;
    turns = 0;
    tool_calls = 0;
    output = null;
    error = none;
  }

  settled :
      (t : TaskState)
      → IsFresh t
      → (stream_task around complete execute a).0 ≡ none
      → (turns : ℕ) × (turns ≤ a.task.max_turns)
        × IsSettled around a [] t turns ((stream_task around complete execute a).1)
  settled t (running, no_turns, no_calls) h =
      (stream_task-IsOver around complete execute a [] t running no_turns no_calls).over h

  -- For every model, executor of tools and assignment, and for a run that is not over and holds the
  -- task of the assignment, running and with no turn or tool call yet, where the task's identifier
  -- passes the check on names: when no exception leaves the worker, the reducer takes all the events
  -- of its drafts, in order, and the run then holds a state of the task with the status, the error
  -- and the numbers of turns and tool calls of the worker's outcome.
  pub stream_task-Agrees :
      (now : ℕ) (s : RunState) (t : TaskState)
      → is_name 200 a.task.task_id ≡ true
      → Runs around.py now a.task s t
      → IsFresh t
      → (stream_task around complete execute a).0 ≡ none
      → (final : RunState) × (u : TaskState) × (take_drafts around.py now s
            ((stream_task around complete execute a).1.emitted)
          ≡ ok final)
        × (lookup a.task.task_id final.tasks ≡ some u)
        × Agrees u ((stream_task around complete execute a).1)
  stream_task-Agrees now s t named p fresh h =
      let (turns, below, q) = settled t fresh h in
      let (final, taken, r) =
        take_drafts-follow around.py now a.task [] s t q.holds.task _ named p q.holds.own
          q.holds.followed in
      (
        final,
        q.holds.task,
        taken,
        r.held,
        record {
          status = q.holds.has_status;
          error = q.same_error;
          turns = q.holds.same_turns ∙ sym q.within.turns_taken;
          tool_calls = q.holds.same_calls;
        },
      )

  -- For every model, executor of tools and assignment, and for a run that is not over and holds the
  -- task of the assignment, running and with no turn or tool call yet, where the task's identifier
  -- passes the check on names: the reducer takes the events of all the drafts that the worker has
  -- yielded, in order, also where an exception leaves the worker.
  pub stream_task-IsTaken :
      (now : ℕ) (s : RunState) (t : TaskState)
      → is_name 200 a.task.task_id ≡ true
      → Runs around.py now a.task s t
      → IsFresh t
      → (final : RunState) × (take_drafts around.py now s
            ((stream_task around complete execute a).1.emitted)
          ≡ ok final)
  stream_task-IsTaken now s t named p (running, no_turns, no_calls) =
      let q =
        (stream_task-IsOver around complete execute a [] t running no_turns no_calls).broken_off in
      let (final, taken, r) =
        take_drafts-follow around.py now a.task [] s t q.task _ named p q.own q.followed in
      (final, taken)

  -- When no exception leaves the worker, its turns, tool calls and repairs are within the limits of
  -- the task, and every source of its outcome is one of the allowed sources.
  pub stream_task-IsBounded :
      (stream_task around complete execute a).0 ≡ none
      → IsBounded a ((stream_task around complete execute a).1)
  stream_task-IsBounded h =
      let (turns, below, q) = settled some_task (refl, refl, refl) h in
      record {
        turns = omega (arith, q.within.turns_taken);
        tool_calls = omega (arith, q.within.calls);
        repairs = q.within.repairs;
        sources = q.within.sources;
      }

  -- For every model and executor, a worker that no exception leaves ends with a terminal status.
  pub stream_task-IsTerminal :
      (stream_task around complete execute a).0 ≡ none
      → is_terminal (stream_task around complete execute a).1.outcome.status ≡ true
  stream_task-IsTerminal h =
      let (turns, below, q) = settled some_task (refl, refl, refl) h in q.settled

  -- When no exception leaves the worker and its status is complete or partial, the output of its
  -- outcome is an object that `validate_json` accepts for the task's output schema, and the sources
  -- that it cites are among the allowed sources.
  pub stream_task-IsDelivered :
      (stream_task around complete execute a).0 ≡ none
      → is_success (stream_task around complete execute a).1.outcome.status ≡ true
      → IsDelivered around a (stream_task around complete execute a).1.outcome
  stream_task-IsDelivered h good =
      let (turns, below, q) = settled some_task (refl, refl, refl) h in q.delivered good

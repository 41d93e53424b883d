-- ===== src/Reducer/Tasks.antt =====
-- The task lifecycle branch of `reduce_event` in reducer.py.
use alpha_orchestration.Prelude.{
  ◌+◌, String, Bool, true, false, not, Option, none, some, List, [], ◌∷◌, ◌==◌, ◌||◌, if◌then◌else◌,
}
use alpha_orchestration.Prelude.Dict.{Dict, lookup, insert}
use alpha_orchestration.Result.{
  Result, ok, err, guard, or_raise, ◌>>=◌, ◌>>◌, state_invariant, key_error,
}
use alpha_orchestration.Json.{Json, bool, str}
use alpha_orchestration.Json.Python.{Python, to_text}
use alpha_orchestration.Domain.Enums.{
  AgentStatus, TaskStatus, EventKind, task_started, model_turn_started, model_turn_completed,
  action_rejected, tool_started, tool_completed, tool_rejected, tool_failed, task_completed,
  task_failed,
}
use alpha_orchestration.Domain.Event.{RunEvent}
use alpha_orchestration.Domain.State.{AgentState, TaskState, RunState}
use alpha_orchestration.Reducer.Payload.{get_or, nonempty_string}

-- The sets `_TASK_SUCCESS`, `_TASK_TERMINAL` and `_TASK_ACTIVE`.
abbrev pub is_success : TaskStatus → Bool
is_success TaskStatus.complete = true
is_success TaskStatus.partial = true
is_success _ = false

abbrev pub is_terminal : TaskStatus → Bool
is_terminal TaskStatus.complete = true
is_terminal TaskStatus.partial = true
is_terminal TaskStatus.failed = true
is_terminal TaskStatus.skipped = true
is_terminal _ = false

abbrev pub is_active : TaskStatus → Bool
is_active TaskStatus.running = true
is_active TaskStatus.waiting_model = true
is_active TaskStatus.waiting_tool = true
is_active _ = false

abbrev pub is_queued : TaskStatus → Bool
is_queued TaskStatus.queued = true
is_queued _ = false

abbrev pub is_running : TaskStatus → Bool
is_running TaskStatus.running = true
is_running _ = false

abbrev is_waiting_model : TaskStatus → Bool
is_waiting_model TaskStatus.waiting_model = true
is_waiting_model _ = false

abbrev is_waiting_tool : TaskStatus → Bool
is_waiting_tool TaskStatus.waiting_tool = true
is_waiting_tool _ = false

-- The test of `_task` on the event's agent.
abbrev owns : Option String → TaskState → Bool
owns none t = true
owns (some a) t = a == t.agent_id

-- `_task`
unfoldable pub find_task : RunState → RunEvent → Result TaskState
unfolding nonempty_string
find_task state event = do
  task_id ← nonempty_string event.payload "task_id"
  task ← or_raise (lookup task_id state.tasks) state_invariant
  guard (owns event.agent_id task) state_invariant
  ok task

-- `_transition`
abbrev pub transition : TaskState → (TaskStatus → Bool) → Result (Unit {0})
transition task allowed = guard (allowed task.status) state_invariant

abbrev pub allowed_dependency : TaskState → TaskStatus → Bool
allowed_dependency task s = if task.allow_failed_dependencies then is_terminal s else is_success s

-- `blocked`: whether a dependency has a status outside the allowed ones.
unfoldable pub blocked : Dict TaskState → (TaskStatus → Bool) → List String → Result Bool
blocked tasks allowed [] = ok false
blocked tasks allowed (d ∷ ds) = do
  dependency ← or_raise (lookup d tasks) key_error
  rest ← blocked tasks allowed ds
  ok (not (allowed dependency.status) || rest)

abbrev pub as_partial : Json → Result Bool
as_partial (bool b) = ok b
as_partial v = err state_invariant

module _ (py : Python) (event : RunEvent) where
  -- `_task_error`
  unfoldable pub task_error : String
  task_error =
      to_text py (get_or event.payload "error" (get_or event.payload "reason" (str event.message)))

  abbrev completed_error : Bool → Option String → Option String
  completed_error partial old = elim (lookup "error" event.payload) [
    | none ↦ if partial then old else none
    | some v ↦ some (to_text py v)
  ]

  -- The ladder that computes `updated`; the last clause is its `else`, for task_skipped.
  unfoldable pub update_task : Dict TaskState → EventKind → TaskState → Result TaskState
  unfolding task_error
  update_task tasks task_started task = do
    transition task is_queued
    stopped ← blocked tasks (allowed_dependency task) task.depends_on
    guard (not stopped) state_invariant
    ok (record task { status = TaskStatus.running; error = none })
  update_task tasks model_turn_started task = do
    transition task is_running
    ok (record task { status = TaskStatus.waiting_model; turns = task.turns + 1; error = none })
  update_task tasks model_turn_completed task = do
    transition task is_waiting_model
    ok (record task {
      status = TaskStatus.running;
      output = get_or event.payload "output" task.output;
      error = none;
    })
  update_task tasks action_rejected task = do
    transition task is_running
    ok (record task { output = get_or event.payload "output" task.output; error = some task_error })
  update_task tasks tool_started task = do
    transition task is_running
    ok (record task {
      status = TaskStatus.waiting_tool;
      tool_calls = task.tool_calls + 1;
      error = none;
    })
  update_task tasks tool_completed task = do
    transition task is_waiting_tool
    ok (record task { status = TaskStatus.running; error = none })
  update_task tasks tool_rejected task = do
    transition task is_waiting_tool
    ok (record task { status = TaskStatus.running; error = some task_error })
  update_task tasks tool_failed task = do
    transition task is_waiting_tool
    ok (record task { status = TaskStatus.running; error = some task_error })
  update_task tasks task_completed task = do
    transition task is_running
    partial ← as_partial (get_or event.payload "partial" (bool false))
    ok (record task {
      status = if partial then TaskStatus.partial else TaskStatus.complete;
      output = get_or event.payload "output" task.output;
      error = completed_error partial task.error;
    })
  update_task tasks task_failed task = do
    transition task is_active
    ok (record task {
      status = TaskStatus.failed;
      output = get_or event.payload "output" task.output;
      error = some task_error;
    })
  update_task tasks _ task = do
    transition task is_queued
    ok (record task { status = TaskStatus.skipped; error = some task_error })

  abbrev waiting_for_tool : EventKind → Bool
  waiting_for_tool tool_started = true
  waiting_for_tool _ = false

  -- The update of the task's agent, when it is registered.
  unfoldable pub touch_agent : EventKind → String → Dict AgentState → Dict AgentState
  touch_agent kind agent_id agents = elim (lookup agent_id agents) [
    | none ↦ agents
    | some a ↦
        insert agent_id
          (record a {
            status =
                if waiting_for_tool kind then AgentStatus.waiting_tool else AgentStatus.running;
            current_task = event.message;
            tool_calls = if waiting_for_tool kind then a.tool_calls + 1 else a.tool_calls;
          })
          agents
  ]

  -- The whole branch, on the state whose sequence has been advanced.
  unfoldable pub task_event : EventKind → RunState → Result RunState
  unfolding find_task touch_agent
  task_event kind state = do
    task ← find_task state event
    updated ← update_task state.tasks kind task
    ok (record state {
      tasks = insert task.task_id updated state.tasks;
      agents = touch_agent kind task.agent_id state.agents;
    })

-- ===== src/Reducer/Change.antt =====
-- How one accepted event changes the tasks of a run: not at all, by planning them, or by moving one.
use alpha_orchestration.Prelude.{
  ◌≡◌, ◌&&◌, String, none, some, [], arith, Option-cases, Bool-cases, inl, inr,
}
use alpha_orchestration.Prelude.Dict.{Dict, lookup, insert, has_key}
use alpha_orchestration.Result.{Result, ok, state_invariant, ◌>>=◌, >>=-eq-ok, guard-eq-ok}
use alpha_orchestration.Json.Python.{Python}
use alpha_orchestration.Domain.Enums.{
  EventKind, workflow_planned, task_started, model_turn_started, model_turn_completed,
  action_rejected, task_completed, task_failed, task_skipped, tool_started, tool_completed,
  tool_rejected, tool_failed,
}
use alpha_orchestration.Domain.Event.{RunEvent}
use alpha_orchestration.Domain.State.{RunState, TaskState}
use alpha_orchestration.Reducer.Payload.{nonempty_string}
use alpha_orchestration.Reducer.Plan.{planned_tasks}
use alpha_orchestration.Reducer.Tasks.{task_event, find_task, update_task}
use alpha_orchestration.Reducer.Agents.{
  register_agent, agent_event, evidence_event, candidate_event,
}
use alpha_orchestration.Reducer.Step.{
  dispatch, plan_workflow, complete_workflow, reduce_event, advance, is_none, no_entries,
  tool_event,
}
use alpha_orchestration.Reducer.Envelope.{reduce_event-inverts}

pub data TasksChange (py : Python) (event : RunEvent) (s t : RunState) : Type 0 where
  same : t.tasks ≡ s.tasks → t.workflow_id ≡ s.workflow_id → TasksChange py event s t
  planned :
      (w : String)
      → s.tasks ≡ []
      → s.workflow_id ≡ none
      → t.workflow_id ≡ some w
      → planned_tasks event.payload ≡ ok t.tasks
      → TasksChange py event s t
  moved :
      (kind : EventKind) (id : String) (task updated : TaskState)
      → lookup id s.tasks ≡ some task
      → update_task py event s.tasks kind task ≡ ok updated
      → t.tasks ≡ insert task.task_id updated s.tasks
      → t.workflow_id ≡ s.workflow_id
      → TasksChange py event s t

-- The task that `_task` finds is in the map.
pub find_task-lookup :
    (state : RunState) (event : RunEvent) (task : TaskState)
    → find_task state event ≡ ok task
    → (id : String) × (lookup id state.tasks ≡ some task)
unfolding find_task
find_task-lookup state event task h =
    let (id, read, rest) = >>=-eq-ok (nonempty_string event.payload "task_id") _ h in
    elim (Option-cases (lookup id state.tasks)) [
      | inl absent ↦ absurd (ground arith)
      | inr (found, e) ↦ (id, ground arith)
    ]

module _ (py : Python) (event : RunEvent) where
  task_event-change :
      (kind : EventKind) (s t : RunState)
      → task_event py event kind s ≡ ok t
      → TasksChange py event s t
  unfolding task_event
  task_event-change kind s t h =
      let (task, found, rest) = >>=-eq-ok (find_task s event) _ h in
      let (updated, moves, done) = >>=-eq-ok (update_task py event s.tasks kind task) _ rest in
      let (id, at) = find_task-lookup s event task found in
      moved kind id task updated at moves (ground arith) (ground arith)

  agent_event-change :
      (kind : EventKind) (s t : RunState)
      → agent_event py event kind s ≡ ok t
      → (t.tasks ≡ s.tasks) × (t.workflow_id ≡ s.workflow_id)
  unfolding agent_event
  agent_event-change kind s t h = ground arith

  evidence_event-change :
      (s t : RunState)
      → evidence_event py event s ≡ ok t
      → (t.tasks ≡ s.tasks) × (t.workflow_id ≡ s.workflow_id)
  unfolding evidence_event
  evidence_event-change s t h = ground arith

  candidate_event-change :
      (s t : RunState)
      → candidate_event py event s ≡ ok t
      → (t.tasks ≡ s.tasks) × (t.workflow_id ≡ s.workflow_id)
  unfolding candidate_event
  candidate_event-change s t h = ground arith

  register_agent-change :
      (s t : RunState)
      → register_agent py event s ≡ ok t
      → (t.tasks ≡ s.tasks) × (t.workflow_id ≡ s.workflow_id)
  unfolding register_agent
  register_agent-change s t h = ground arith

  complete_workflow-change :
      (s t : RunState)
      → complete_workflow py event s ≡ ok t
      → (t.tasks ≡ s.tasks) × (t.workflow_id ≡ s.workflow_id)
  unfolding complete_workflow
  complete_workflow-change s t h = ground arith

  plan_workflow-change :
      (s t : RunState) → plan_workflow py event s ≡ ok t → TasksChange py event s t
  unfolding plan_workflow
  plan_workflow-change s t h =
      let (fresh, more) =
        guard-eq-ok (is_none s.workflow_id && no_entries s.tasks) state_invariant
          (nonempty_string event.payload "workflow_id" >>= after) h in
      let (w, read, rest) = >>=-eq-ok (nonempty_string event.payload "workflow_id") after more in
      let (v, read', rest') =
        >>=-eq-ok (nonempty_string event.payload "workflow_version") (last w) rest in
      let (tasks, plan, done) = >>=-eq-ok (planned_tasks event.payload) (final w v) rest' in
      planned w (ground arith) (ground arith) (ground arith) (ground arith)
    where
      final : String → String → Dict TaskState → Result RunState
      final w v tasks =
          ok (record s { workflow_id = some w; workflow_version = some v; tasks = tasks })

      last : String → String → Result RunState
      last w v = planned_tasks event.payload >>= final w v

      after : String → Result RunState
      after w = nonempty_string event.payload "workflow_version" >>= last w

  same_of :
      (s t : RunState)
      → (t.tasks ≡ s.tasks) × (t.workflow_id ≡ s.workflow_id)
      → TasksChange py event s t
  same_of s t (a, b) = same a b

  tool_event-change :
      (kind : EventKind) (s t : RunState)
      → tool_event py event kind s ≡ ok t
      → TasksChange py event s t
  tool_event-change kind s t h = elim (Bool-cases (has_key "task_id" event.payload)) [
    | inl e ↦ task_event-change kind s t (ground arith)
    | inr e ↦ same_of s t (agent_event-change kind s t (ground arith))
  ]

  dispatch-change :
      (kind : EventKind) (s t : RunState)
      → dispatch py event kind s ≡ ok t
      → TasksChange py event s t
  unfolding dispatch
  dispatch-change task_started s t h = task_event-change task_started s t h
  dispatch-change model_turn_started s t h = task_event-change model_turn_started s t h
  dispatch-change model_turn_completed s t h = task_event-change model_turn_completed s t h
  dispatch-change action_rejected s t h = task_event-change action_rejected s t h
  dispatch-change task_completed s t h = task_event-change task_completed s t h
  dispatch-change task_failed s t h = task_event-change task_failed s t h
  dispatch-change task_skipped s t h = task_event-change task_skipped s t h
  dispatch-change tool_started s t h = tool_event-change tool_started s t h
  dispatch-change tool_completed s t h = tool_event-change tool_completed s t h
  dispatch-change tool_rejected s t h = tool_event-change tool_rejected s t h
  dispatch-change tool_failed s t h = tool_event-change tool_failed s t h
  dispatch-change workflow_planned s t h = plan_workflow-change s t h
  dispatch-change kind s t h = same_of s t (
      ground (
        arith,
        agent_event-change kind s t,
        evidence_event-change s t,
        candidate_event-change s t,
        register_agent-change s t,
        complete_workflow-change s t,
      ))

-- Every accepted event leaves the tasks as they are, plans them, or moves one of them.
pub reduce_event-change :
    (py : Python) (event : RunEvent) (s t : RunState)
    → reduce_event py s event ≡ ok t
    → TasksChange py event (advance s event) t
reduce_event-change py event s t h =
    dispatch-change py event event.kind (advance s event) t (reduce_event-inverts py s event t h).1

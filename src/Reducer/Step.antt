-- ===== src/Reducer/Step.antt =====
-- `reduce_event` of reducer.py: the checks on the envelope, and the ladder over the event kinds.
use alpha_orchestration.Prelude.{
  Bool, true, false, not, Option, none, some, List, [], ◌∷◌, ◌++◌, ◌==◌, ◌&&◌, all, keep, take_last,
  if◌then◌else◌,
}
use alpha_orchestration.Prelude.Int.{ℤ, pos, next_ℤ, eqb_ℤ, max_ℤ}
use alpha_orchestration.Prelude.Dict.{Dict, values, has_key}
use alpha_orchestration.Result.{
  Result, ok, guard, or_raise, ◌>>=◌, ◌>>◌, state_invariant, value_error,
}
use alpha_orchestration.Json.{int, str}
use alpha_orchestration.Json.Python.{Python, to_int, to_text}
use alpha_orchestration.Domain.Enums.{
  RunStatus, AgentStatus, Stage, synthesis, review, stage_text, stages, member_of, EventKind,
  run_created, run_started, run_paused, run_resumed, run_synthesizing, run_completed, run_cancelled,
  run_failed, stage_started, stage_completed, agent_registered, agent_started, agent_progress,
  agent_completed, agent_failed, workflow_planned, task_started, model_turn_started,
  model_turn_completed, action_rejected, tool_started, tool_completed, tool_rejected, tool_failed,
  task_completed, task_failed, task_skipped, workflow_completed, evidence_added, candidate_updated,
}
use alpha_orchestration.Domain.Event.{RunEvent}
use alpha_orchestration.Domain.State.{AgentState, RunState, terminal}
use alpha_orchestration.Reducer.Payload.{get_or, require, nonempty_string}
use alpha_orchestration.Reducer.Plan.{planned_tasks}
use alpha_orchestration.Reducer.Tasks.{is_terminal, task_event}
use alpha_orchestration.Reducer.Agents.{
  clamp, register_agent, agent_event, evidence_event, candidate_event,
}

-- Members of a string enumeration are equal when their values are.
abbrev pub same_stage : Stage → Stage → Bool
same_stage a b = stage_text a == stage_text b

-- `tuple(dict.fromkeys(stages))`: the first of each.
unfoldable pub distinct : List Stage → List Stage
distinct [] = []
distinct (s ∷ rest) = s ∷ keep (λ t. not (same_stage s t)) (distinct rest)

abbrev pub cancelled_status : AgentStatus → AgentStatus
cancelled_status AgentStatus.queued = AgentStatus.cancelled
cancelled_status AgentStatus.running = AgentStatus.cancelled
cancelled_status AgentStatus.waiting_tool = AgentStatus.cancelled
cancelled_status s = s

unfoldable pub cancel_agents : Dict AgentState → Dict AgentState
cancel_agents [] = []
cancel_agents ((k, a) ∷ m) = (k, record a { status = cancelled_status a.status }) ∷ cancel_agents m

abbrev pub is_none {ℓ} : {A : Type ℓ} → Option A → Bool
is_none none = true
is_none (some a) = false

abbrev pub no_entries {ℓ} : {A : Type ℓ} → Dict A → Bool
no_entries [] = true
no_entries (x ∷ m) = false

-- The envelope is accepted: schema, run, sequence and status.
abbrev pub accepts : RunState → RunEvent → Bool
accepts state event =
    eqb_ℤ event.schema_version (pos 1)
    && event.run_id == state.spec.run_id
    && eqb_ℤ event.sequence (next_ℤ state.last_sequence)
    && not (terminal state)

-- `next_state`: the sequence and the window of recent events.
abbrev pub advance : RunState → RunEvent → RunState
advance state event = record state {
  recent_events = take_last 79 state.recent_events ++ event ∷ [];
  last_sequence = event.sequence;
}

module _ (py : Python) (event : RunEvent) where
  abbrev pub read_stage : Result Stage
  read_stage = do
    v ← require event.payload "stage"
    or_raise (member_of stage_text stages (to_text py v)) value_error

  abbrev pub read_progress : ℤ → Result ℤ
  read_progress default = to_int py (get_or event.payload "progress" (int default))

  unfoldable pub plan_workflow : RunState → Result RunState
  plan_workflow state = do
    guard (is_none state.workflow_id && no_entries state.tasks) state_invariant
    workflow_id ← nonempty_string event.payload "workflow_id"
    workflow_version ← nonempty_string event.payload "workflow_version"
    tasks ← planned_tasks event.payload
    ok (record state {
      workflow_id = some workflow_id;
      workflow_version = some workflow_version;
      tasks = tasks;
    })

  unfoldable pub complete_workflow : RunState → Result RunState
  complete_workflow state = do
    guard (not (is_none state.workflow_id)) state_invariant
    guard (all (λ t. is_terminal t.status) (values state.tasks)) state_invariant
    ok state

  -- A tool event belongs to a task when its payload names one.
  abbrev pub tool_event : EventKind → RunState → Result RunState
  tool_event kind state =
      if has_key "task_id" event.payload
      then task_event py event kind state
      else agent_event py event kind state

  -- The ladder, on `next_state`: the fields that it reads from `state` are the same there.
  unfoldable pub dispatch : EventKind → RunState → Result RunState
  unfolding require distinct cancel_agents
  dispatch run_created s = ok (record s { status = RunStatus.planning })
  dispatch run_started s = ok (record s { status = RunStatus.running })
  dispatch run_paused s = ok (record s { status = RunStatus.paused })
  dispatch run_resumed s = ok (record s { status = RunStatus.running })
  dispatch run_synthesizing s = do
    n ← read_progress (pos 82)
    ok (record s {
      status = RunStatus.synthesizing;
      current_stage = some synthesis;
      progress = max_ℤ s.progress n;
    })
  dispatch run_completed s = ok (record s {
    status = RunStatus.complete;
    current_stage = some review;
    completed_stages = distinct (s.completed_stages ++ synthesis ∷ []);
    progress = pos 100;
  })
  dispatch run_cancelled s =
      ok (record s { status = RunStatus.cancelled; agents = cancel_agents s.agents })
  dispatch run_failed s = ok (record s {
    status = RunStatus.failed;
    failure = some (to_text py (get_or event.payload "error" (str event.message)));
  })
  dispatch stage_started s = do
    stage ← read_stage
    n ← read_progress s.progress
    ok (record s { current_stage = some stage; progress = clamp n })
  dispatch stage_completed s = do
    stage ← read_stage
    n ← read_progress s.progress
    ok (record s {
      completed_stages = distinct (s.completed_stages ++ stage ∷ []);
      progress = clamp n;
    })
  dispatch workflow_planned s = plan_workflow s
  dispatch workflow_completed s = complete_workflow s
  dispatch task_started s = task_event py event task_started s
  dispatch model_turn_started s = task_event py event model_turn_started s
  dispatch model_turn_completed s = task_event py event model_turn_completed s
  dispatch action_rejected s = task_event py event action_rejected s
  dispatch task_completed s = task_event py event task_completed s
  dispatch task_failed s = task_event py event task_failed s
  dispatch task_skipped s = task_event py event task_skipped s
  dispatch tool_started s = tool_event tool_started s
  dispatch tool_completed s = tool_event tool_completed s
  dispatch tool_rejected s = tool_event tool_rejected s
  dispatch tool_failed s = tool_event tool_failed s
  dispatch agent_registered s = register_agent py event s
  dispatch agent_started s = agent_event py event agent_started s
  dispatch agent_progress s = agent_event py event agent_progress s
  dispatch agent_completed s = agent_event py event agent_completed s
  dispatch agent_failed s = agent_event py event agent_failed s
  dispatch evidence_added s = evidence_event py event s
  dispatch candidate_updated s = candidate_event py event s

unfoldable pub reduce_event : Python → RunState → RunEvent → Result RunState
reduce_event py state event = do
  guard (accepts state event) state_invariant
  dispatch py event event.kind (advance state event)

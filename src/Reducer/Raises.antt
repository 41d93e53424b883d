-- ===== src/Reducer/Raises.antt =====
-- The exceptions of `reduce_event`, branch by branch.
use alpha_orchestration.Prelude.{◌≡◌, ◌≢◌, String, true, List, [], ◌∷◌, arith, length, all}
use alpha_orchestration.Prelude.Dict.{Dict, insert, values, has_key}
use alpha_orchestration.Result.{Error, Result, ok, err, guard, ◌>>=◌, ◌>>◌, state_invariant}
use alpha_orchestration.Json.{Json}
use alpha_orchestration.Json.Python.{Python}
use alpha_orchestration.Domain.Enums.{
  EventKind, task_started, model_turn_started, model_turn_completed, action_rejected,
  task_completed, task_failed, task_skipped, tool_started, tool_completed, tool_rejected,
  tool_failed, agent_started, agent_progress, agent_completed, agent_failed, workflow_planned,
  workflow_completed, agent_registered, evidence_added, candidate_updated,
}
use alpha_orchestration.Domain.Candidate.{Candidate, make_candidate}
use alpha_orchestration.Domain.Event.{RunEvent}
use alpha_orchestration.Domain.State.{AgentState, TaskState, RunState}
use alpha_orchestration.Reducer.Plan.{
  read_task, plan_task, plan_from, check_plan, planned_tasks, drain, as_bool, dependencies_known,
}
use alpha_orchestration.Reducer.Tasks.{
  find_task, blocked, allowed_dependency, update_task, task_event, as_partial, touch_agent,
}
use alpha_orchestration.Reducer.Agents.{
  find_agent, register_agent, read_evidence, update_agent, agent_event, evidence_event,
  read_candidate, candidate_event, except_type_value,
}
use alpha_orchestration.Reducer.Step.{
  plan_workflow, complete_workflow, tool_event, dispatch, reduce_event, advance, accepts,
}
use alpha_orchestration.Reducer.Errors.{
  OnlyRaises, OnlyRaises-bind, OnlyRaises-bind_eq, OnlyRaises-ok, by_payload, raise_rules,
  require-raises, nonempty_string-raises, stripped-raises, optional_nonempty_string-raises,
  optional_string-raises, as_list-raises, as_dict-raises, map_result-raises, string_tuple-raises,
  to_int-raises, candidate_financials-raises,
}
use alpha_orchestration.Reducer.Wiring.{IsWired}
use alpha_orchestration.Reducer.Acyclic.{drain-error}
use alpha_orchestration.Reducer.Change.{find_task-lookup}

ruleset reader_rules = (
  raise_rules, require-raises, nonempty_string-raises, stripped-raises,
  optional_nonempty_string-raises, optional_string-raises, as_list-raises, as_dict-raises,
  map_result-raises, string_tuple-raises, to_int-raises, candidate_financials-raises,
)

as_bool-raises : (v : Json) → OnlyRaises by_payload (as_bool v)
as_bool-raises v = record { at = λ e h. ground arith }

as_partial-raises : (v : Json) → OnlyRaises by_payload (as_partial v)
as_partial-raises v = record { at = λ e h. ground arith }

read_task-raises :
    (tasks : Dict TaskState) (raw : Json) → OnlyRaises by_payload (read_task tasks raw)
unfolding read_task
read_task-raises tasks raw = search (reader_rules, as_bool-raises) depth 40

plan_task-raises :
    (tasks : Dict TaskState) (raw : Json) → OnlyRaises by_payload (plan_task tasks raw)
unfolding plan_task
plan_task-raises tasks raw = search (raise_rules, read_task-raises)

plan_from-raises :
    (tasks : Dict TaskState) (raws : List Json) → OnlyRaises by_payload (plan_from tasks raws)
unfolding plan_from
plan_from-raises tasks [] = search raise_rules
plan_from-raises tasks (raw ∷ raws) =
    OnlyRaises-bind (plan_task tasks raw) (λ m. plan_from m raws) (plan_task-raises tasks raw)
      (λ m. plan_from-raises m raws)

drain-raises : (ts : List TaskState) → OnlyRaises by_payload (drain (length ts) ts)
drain-raises ts = record {
  at = λ e h. ground (arith, drain-error (length ts) ts e (omega arith) h);
}

check_plan-raises : (tasks : Dict TaskState) → OnlyRaises by_payload (check_plan tasks)
unfolding check_plan
check_plan-raises tasks =
    OnlyRaises-bind (guard (dependencies_known tasks) state_invariant)
      (λ _. drain (length (values tasks)) (values tasks) >> ok tasks) (search raise_rules)
      (λ _.
        OnlyRaises-bind (drain (length (values tasks)) (values tasks)) (λ _. ok tasks)
          (drain-raises (values tasks)) (λ _. OnlyRaises-ok tasks))

planned_tasks-raises : (payload : Dict Json) → OnlyRaises by_payload (planned_tasks payload)
unfolding planned_tasks
planned_tasks-raises payload =
    search (reader_rules, plan_from-raises [], check_plan-raises) depth 20

blocked-error :
    (tasks : Dict TaskState) (t : TaskState) (ds : List String) (e : Error)
    → all (λ d. has_key d tasks) ds ≡ true
    → blocked tasks (allowed_dependency t) ds ≢ err e
unfolding blocked
blocked-error tasks t [] e h q = cc
blocked-error tasks t (d ∷ ds) e h q = ground (arith, blocked-error tasks t ds e)

blocked-raises :
    (tasks : Dict TaskState) (t : TaskState) (ds : List String)
    → all (λ d. has_key d tasks) ds ≡ true
    → OnlyRaises by_payload (blocked tasks (allowed_dependency t) ds)
blocked-raises tasks t ds h = record { at = λ e q. absurd (blocked-error tasks t ds e h q) }

module _ (py : Python) (event : RunEvent) where
  read_evidence-raises : OnlyRaises by_payload (read_evidence py event)
  unfolding read_evidence
  read_evidence-raises = search reader_rules depth 40

  make_candidate-raises : (c : Candidate) → OnlyRaises by_payload (make_candidate c)
  unfolding make_candidate
  make_candidate-raises c = search raise_rules depth 20

  read_candidate-raises : OnlyRaises by_payload (read_candidate py event)
  unfolding read_candidate
  read_candidate-raises = search (reader_rules, make_candidate-raises) depth 60

  except_type_value-raises :
      (r : Result Candidate) → OnlyRaises by_payload r → OnlyRaises by_payload (except_type_value r)
  except_type_value-raises r h = record { at = λ e q. ground (arith, h.at e) }

  candidate_event-raises : (s : RunState) → OnlyRaises by_payload (candidate_event py event s)
  unfolding candidate_event
  candidate_event-raises s = search (raise_rules, read_candidate-raises, except_type_value-raises)

  find_agent-raises : (s : RunState) → OnlyRaises by_payload (find_agent s event)
  unfolding find_agent
  find_agent-raises s = search raise_rules

  evidence_event-raises : (s : RunState) → OnlyRaises by_payload (evidence_event py event s)
  unfolding evidence_event
  evidence_event-raises s = search (raise_rules, find_agent-raises, read_evidence-raises)

  update_agent-raises :
      (kind : EventKind) (a : AgentState) → OnlyRaises by_payload (update_agent py event kind a)
  unfolding update_agent
  update_agent-raises agent_started a = search (raise_rules, to_int-raises)
  update_agent-raises agent_progress a = search (raise_rules, to_int-raises)
  update_agent-raises _ a = search raise_rules

  agent_event-raises :
      (kind : EventKind) (s : RunState) → OnlyRaises by_payload (agent_event py event kind s)
  unfolding agent_event
  agent_event-raises kind s = search (raise_rules, find_agent-raises, update_agent-raises)

  register_agent-raises : (s : RunState) → OnlyRaises by_payload (register_agent py event s)
  unfolding register_agent
  register_agent-raises s = search reader_rules depth 20

  find_task-raises : (s : RunState) → OnlyRaises by_payload (find_task s event)
  unfolding find_task
  find_task-raises s = search reader_rules depth 20

  update_task-raises :
      (kind : EventKind) (tasks : Dict TaskState) (task : TaskState)
      → all (λ d. has_key d tasks) task.depends_on ≡ true
      → OnlyRaises by_payload (update_task py event tasks kind task)
  unfolding update_task
  update_task-raises task_started tasks task h = search (raise_rules, blocked-raises) depth 12
  update_task-raises task_completed tasks task h = search (raise_rules, as_partial-raises) depth 12
  update_task-raises _ tasks task h = search raise_rules depth 12

  task_event-raises :
      (kind : EventKind) (s : RunState)
      → IsWired s.tasks
      → OnlyRaises by_payload (task_event py event kind s)
  unfolding task_event
  task_event-raises kind s w =
      OnlyRaises-bind_eq (find_task s event) after (find_task-raises s) λ task found.
        let (id, at) = find_task-lookup s event task found in
        OnlyRaises-bind (update_task py event s.tasks kind task) (finished task)
          (update_task-raises kind s.tasks task (w.known id task at)) (λ updated. OnlyRaises-ok _)
    where
      finished : TaskState → TaskState → Result RunState
      finished task updated = ok (record s {
        tasks = insert task.task_id updated s.tasks;
        agents = touch_agent py event kind task.agent_id s.agents;
      })

      after : TaskState → Result RunState
      after task = update_task py event s.tasks kind task >>= finished task

  tool_event-raises :
      (kind : EventKind) (s : RunState)
      → IsWired s.tasks
      → OnlyRaises by_payload (tool_event py event kind s)
  tool_event-raises kind s w = record {
    at = λ e h. ground (arith, (task_event-raises kind s w).at e, (agent_event-raises kind s).at e);
  }

  plan_workflow-raises : (s : RunState) → OnlyRaises by_payload (plan_workflow py event s)
  unfolding plan_workflow
  plan_workflow-raises s = search (reader_rules, planned_tasks-raises) depth 20

  complete_workflow-raises : (s : RunState) → OnlyRaises by_payload (complete_workflow py event s)
  unfolding complete_workflow
  complete_workflow-raises s = search raise_rules

  dispatch-raises :
      (kind : EventKind) (s : RunState)
      → IsWired s.tasks
      → OnlyRaises by_payload (dispatch py event kind s)
  unfolding dispatch
  dispatch-raises task_started s w = task_event-raises task_started s w
  dispatch-raises model_turn_started s w = task_event-raises model_turn_started s w
  dispatch-raises model_turn_completed s w = task_event-raises model_turn_completed s w
  dispatch-raises action_rejected s w = task_event-raises action_rejected s w
  dispatch-raises task_completed s w = task_event-raises task_completed s w
  dispatch-raises task_failed s w = task_event-raises task_failed s w
  dispatch-raises task_skipped s w = task_event-raises task_skipped s w
  dispatch-raises tool_started s w = tool_event-raises tool_started s w
  dispatch-raises tool_completed s w = tool_event-raises tool_completed s w
  dispatch-raises tool_rejected s w = tool_event-raises tool_rejected s w
  dispatch-raises tool_failed s w = tool_event-raises tool_failed s w
  dispatch-raises agent_started s w = agent_event-raises agent_started s
  dispatch-raises agent_progress s w = agent_event-raises agent_progress s
  dispatch-raises agent_completed s w = agent_event-raises agent_completed s
  dispatch-raises agent_failed s w = agent_event-raises agent_failed s
  dispatch-raises workflow_planned s w = plan_workflow-raises s
  dispatch-raises workflow_completed s w = complete_workflow-raises s
  dispatch-raises agent_registered s w = register_agent-raises s
  dispatch-raises evidence_added s w = evidence_event-raises s
  dispatch-raises candidate_updated s w = candidate_event-raises s
  dispatch-raises _ s w = search reader_rules depth 12

-- In a wired state an event that is refused is refused with StateInvariantError, ValueError,
-- TypeError or OverflowError: never with KeyError, and the loop over the dependencies of a plan
-- always ends.
pub reduce_event-raises :
    (py : Python) (s : RunState) (event : RunEvent) (e : Error)
    → IsWired s.tasks
    → reduce_event py s event ≡ err e
    → by_payload e ≡ true
unfolding reduce_event
reduce_event-raises py s event e w h =
    (OnlyRaises-bind (guard (accepts s event) state_invariant)
        (λ _. dispatch py event event.kind (advance s event)) (search raise_rules)
        (λ _.
          dispatch-raises py event event.kind (advance s event)
            (record { keyed = w.keyed; known = w.known; met = w.met }))).at
      e h

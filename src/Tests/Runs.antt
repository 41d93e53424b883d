-- ===== src/Tests/Runs.antt =====
-- Runs of the reducer.
use alpha_orchestration.Prelude.{◌≡◌, ◌↔◌, refl, true, false, none, some, List, [], ◌∷◌, ◌++◌, any}
use alpha_orchestration.Prelude.Dict.{lookup, values}
use alpha_orchestration.Result.{ok, err, state_invariant, value_error}
use alpha_orchestration.Domain.Enums.{
  TaskStatus, workflow_completed, stage_started, task_started, task_failed,
}
use alpha_orchestration.Domain.Event.{RunEvent}
use alpha_orchestration.Domain.State.{TaskState, RunState, fresh_state, terminal}
use alpha_orchestration.Json.{null, str}
use alpha_orchestration.Reducer.Step.{reduce_event}
use alpha_orchestration.Reducer.Plan.{check_plan, dependencies_known}
use alpha_orchestration.Reducer.Run.{reduce_all}
use alpha_orchestration.Reducer.Wiring.{IsWired}
use alpha_orchestration.Reducer.Tracking.{
  reduce_all-IsWired, Traced, reduce_event-Traced, terminal_task_frozen,
}
use alpha_orchestration.Reducer.Acyclic.{IsAcyclic, check_plan_iff}
use alpha_orchestration.Reducer.History.{Remembers, IsNumbered, reduce_all-history}
use alpha_orchestration.Reducer.Endings.{ends, ends_only_last, reduce_all-endings}
use alpha_orchestration.Reducer.Sealed.{all_over, completion_seals_tasks}
use alpha_orchestration.Reducer.Errors.{by_payload}
use alpha_orchestration.Reducer.Raises.{reduce_event-raises}
use alpha_orchestration.Reducer.Board.{IsBoard, reduce_all-IsBoard}
use alpha_orchestration.Tests.Samples.{
  plain_python, mandate, at, of_task, opening, planned_only, middle, closing, state_of, program,
}

abbrev opened : RunState
opened = state_of (reduce_all plain_python (fresh_state mandate) opening)

opened_runs : reduce_all plain_python (fresh_state mandate) opening ≡ ok opened
unfolding program
opened_runs = refl

reduce_all-IsWired_example : IsWired opened.tasks
reduce_all-IsWired_example = reduce_all-IsWired plain_python mandate opening opened opened_runs

reduce_all-history_example : Remembers mandate opening opened × IsNumbered mandate 0 opening
reduce_all-history_example = reduce_all-history plain_python mandate opening opened opened_runs

-- The task that was completed.
abbrev screened : TaskState
screened = record {
  task_id = "screen";
  agent_id = "agent-1";
  depends_on = [];
  required = true;
  allow_failed_dependencies = false;
  status = TaskStatus.complete;
  turns = 0;
  tool_calls = 0;
  output = null;
  error = none;
}

screened_found : lookup "screen" opened.tasks ≡ some screened
unfolding program
screened_found = refl

abbrev worked : RunState
worked = state_of (reduce_all plain_python opened middle)

worked_runs : reduce_all plain_python opened middle ≡ ok worked
unfolding program
worked_runs = refl

terminal_task_frozen_example : lookup "screen" worked.tasks ≡ some screened
terminal_task_frozen_example =
    terminal_task_frozen plain_python opened worked middle "screen" screened
      (reduce_all-IsWired plain_python mandate opening opened opened_runs) screened_found refl
      worked_runs

abbrev first_move : RunEvent
first_move = at 4 task_started (of_task "rank")

abbrev moved_on : RunState
moved_on = state_of (reduce_event plain_python opened first_move)

moved_runs : reduce_event plain_python opened first_move ≡ ok moved_on
unfolding program
moved_runs = refl

reduce_event-Traced_example : Traced moved_on.tasks "screen" screened
reduce_event-Traced_example =
    reduce_event-Traced plain_python opened moved_on first_move "screen" screened
      (reduce_all-IsWired plain_python mandate opening opened opened_runs) screened_found moved_runs

-- A task whose dependency has not completed does not start, and a queued one does not fail.
abbrev too_early : List RunEvent
too_early = at 2 task_started (of_task "rank") ∷ []

too_early_refused :
    (reduce_all plain_python (fresh_state mandate) (planned_only ++ too_early)
      ≡ err state_invariant)
    × (reduce_all plain_python opened (at 4 task_failed (of_task "rank") ∷ [])
        ≡ err state_invariant)
unfolding program
too_early_refused = (refl, refl)

abbrev declared : RunEvent
declared = at 6 workflow_completed []

abbrev sealed : RunState
sealed = state_of (reduce_event plain_python worked declared)

sealed_runs : reduce_event plain_python worked declared ≡ ok sealed
unfolding program
sealed_runs = refl

abbrev ended : RunState
ended = state_of (reduce_all plain_python sealed closing)

ended_runs : reduce_all plain_python sealed closing ≡ ok ended
unfolding program
ended_runs = refl

completion_seals_tasks_example : (all_over worked.tasks ≡ true) × (ended.tasks ≡ worked.tasks)
completion_seals_tasks_example =
    completion_seals_tasks plain_python worked sealed ended declared closing refl sealed_runs
      ended_runs

abbrev whole : List RunEvent
whole = opening ++ middle ++ declared ∷ closing

whole_runs : reduce_all plain_python (fresh_state mandate) whole ≡ ok ended
unfolding program
whole_runs = refl

reduce_all-IsBoard_example : IsBoard ended.candidates
reduce_all-IsBoard_example = reduce_all-IsBoard plain_python mandate whole ended whole_runs

abbrev bad_stage : RunEvent
bad_stage = at 4 stage_started (("stage", str "lunch") ∷ [])

bad_stage_refused : reduce_event plain_python opened bad_stage ≡ err value_error
unfolding program
bad_stage_refused = refl

reduce_event-raises_example : by_payload value_error ≡ true
reduce_event-raises_example =
    reduce_event-raises plain_python opened bad_stage value_error
      (reduce_all-IsWired plain_python mandate opening opened opened_runs) bad_stage_refused

reduce_all-endings_example : (terminal ended ≡ any ends whole) × (ends_only_last whole ≡ true)
reduce_all-endings_example = reduce_all-endings plain_python mandate whole ended whole_runs

check_plan_iff_example :
    (check_plan opened.tasks ≡ ok opened.tasks)
    ↔ ((dependencies_known opened.tasks ≡ true) × IsAcyclic (values opened.tasks))
check_plan_iff_example = check_plan_iff opened.tasks

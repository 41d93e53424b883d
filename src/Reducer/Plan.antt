-- ===== src/Reducer/Plan.antt =====
-- `_planned_tasks` of reducer.py: the tasks of a workflow_planned payload.
use alpha_orchestration.Prelude.{
  ℕ, zero, suc, String, Bool, true, false, not, none, List, [], ◌∷◌, length, all, all_unique,
  contains, keep,
}
use alpha_orchestration.Prelude.Dict.{Dict, insert, keys, values, has_key}
use alpha_orchestration.Result.{
  Result, ok, err, guard, map_result, ◌>>=◌, ◌>>◌, state_invariant, no_fuel,
}
use alpha_orchestration.Json.{Json, null, bool}
use alpha_orchestration.Domain.Enums.{TaskStatus}
use alpha_orchestration.Domain.State.{TaskState}
use alpha_orchestration.Reducer.Payload.{
  get_or, require, stripped, nonempty_string, as_list, as_dict,
}

abbrev pub as_bool : Json → Result Bool
as_bool (bool b) = ok b
as_bool v = err state_invariant

abbrev pub nonempty_list : List Json → Bool
nonempty_list [] = false
nonempty_list (x ∷ xs) = true

-- The task that one object of the list describes, if its id is new.
unfoldable pub read_task : Dict TaskState → Json → Result TaskState
unfolding nonempty_string require
read_task tasks raw = do
  raw_task ← as_dict raw
  task_id ← nonempty_string raw_task "task_id"
  guard (not (has_key task_id tasks)) state_invariant
  agent_id ← nonempty_string raw_task "agent_id"
  any_dependencies ← require raw_task "depends_on"
  raw_dependencies ← as_list any_dependencies
  dependencies ← map_result stripped raw_dependencies
  guard (all_unique dependencies) state_invariant
  any_required ← require raw_task "required"
  required ← as_bool any_required
  allow_failed_dependencies ← as_bool (get_or raw_task "allow_failed_dependencies" (bool false))
  ok (record {
    task_id = task_id;
    agent_id = agent_id;
    depends_on = dependencies;
    required = required;
    allow_failed_dependencies = allow_failed_dependencies;
    status = TaskStatus.queued;
    turns = 0;
    tool_calls = 0;
    output = null;
    error = none;
  })

-- One round of the loop over `raw_tasks`.
unfoldable pub plan_task : Dict TaskState → Json → Result (Dict TaskState)
plan_task tasks raw = read_task tasks raw >>= λ t. ok (insert t.task_id t tasks)

unfoldable pub plan_from : Dict TaskState → List Json → Result (Dict TaskState)
plan_from tasks [] = ok tasks
plan_from tasks (raw ∷ rest) = plan_task tasks raw >>= λ more. plan_from more rest

-- `set(task.depends_on) - tasks.keys()` is empty for every task.
abbrev pub dependencies_known : Dict TaskState → Bool
dependencies_known tasks = all (λ t. all (contains (keys tasks)) t.depends_on) (values tasks)

abbrev pub names : List TaskState → List String
names [] = []
names (t ∷ ts) = t.task_id ∷ names ts

-- No dependency of the task is still pending.
abbrev pub is_ready : List String → TaskState → Bool
is_ready pending t = all (λ d. not (contains pending d)) t.depends_on

-- `pending.difference_update(ready)`, where `ready` is what `is_ready` selects.
abbrev pub waiting : List TaskState → List TaskState
waiting pending = keep (λ t. not (is_ready (names pending) t)) pending

abbrev pub ready : List TaskState → List TaskState
ready pending = keep (is_ready (names pending)) pending

-- The loop `while pending`, over the tasks whose ids the set `pending` holds.
unfoldable pub drain : ℕ → List TaskState → Result (Unit {0})
drain fuel [] = ok tt
drain zero (t ∷ ts) = err no_fuel
drain (suc fuel) (t ∷ ts) = elim (ready (t ∷ ts)) [
  | [] ↦ err state_invariant
  | r ∷ rs ↦ drain fuel (waiting (t ∷ ts))
]

-- The checks on the finished map: dependencies known, no cycle.
unfoldable pub check_plan : Dict TaskState → Result (Dict TaskState)
check_plan tasks = do
  guard (dependencies_known tasks) state_invariant
  drain (length (values tasks)) (values tasks)
  ok tasks

unfoldable pub planned_tasks : Dict Json → Result (Dict TaskState)
planned_tasks payload = do
  any_tasks ← require payload "tasks"
  raw_tasks ← as_list any_tasks
  guard (nonempty_list raw_tasks) state_invariant
  tasks ← plan_from [] raw_tasks
  check_plan tasks

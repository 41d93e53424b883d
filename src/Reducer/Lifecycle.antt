-- ===== src/Reducer/Lifecycle.antt =====
-- The life of a task: the transition diagram, and what one update keeps.
use alpha_orchestration.Prelude.{
  ◌≡◌, refl, String, Bool, true, false, none, some, List, [], ◌∷◌, all, arith, ◌⊎◌,
}
use alpha_orchestration.Prelude.Dict.{Dict, lookup}
use alpha_orchestration.Result.{ok}
use alpha_orchestration.Json.Python.{Python}
use alpha_orchestration.Domain.Enums.{TaskStatus, EventKind, task_started}
use alpha_orchestration.Domain.Event.{RunEvent}
use alpha_orchestration.Domain.State.{TaskState}
use alpha_orchestration.Reducer.Tasks.{
  is_terminal, is_active, allowed_dependency, blocked, update_task,
}

infix 40 ◌⟶◌
pub data ◌⟶◌ : TaskStatus → TaskStatus → Type 0 where
  start : TaskStatus.queued ⟶ TaskStatus.running
  skip : TaskStatus.queued ⟶ TaskStatus.skipped
  ask_model : TaskStatus.running ⟶ TaskStatus.waiting_model
  model_answer : TaskStatus.waiting_model ⟶ TaskStatus.running
  call_tool : TaskStatus.running ⟶ TaskStatus.waiting_tool
  tool_answer : TaskStatus.waiting_tool ⟶ TaskStatus.running
  reject : TaskStatus.running ⟶ TaskStatus.running
  finish : TaskStatus.running ⟶ TaskStatus.complete
  finish_partly : TaskStatus.running ⟶ TaskStatus.partial
  fail : (s : TaskStatus) → is_active s ≡ true → s ⟶ TaskStatus.failed

ruleset edges = (
  start, skip, ask_model, model_answer, call_tool, tool_answer, reject, finish, finish_partly, fail,
)

-- A task that is at work or was: neither queued nor skipped.
abbrev pub is_started : TaskStatus → Bool
is_started TaskStatus.queued = false
is_started TaskStatus.skipped = false
is_started _ = true

-- The dependency is in the map with a status that lets the task start.
abbrev pub dependency_met : Dict TaskState → TaskState → String → Bool
dependency_met tasks t d = elim (lookup d tasks) [
  | none ↦ false
  | some u ↦ allowed_dependency t u.status
]

-- The plan of a task, which no event changes.
pub record SamePlan (old new : TaskState) : Type 0 where
  pub task_id : new.task_id ≡ old.task_id
  pub agent_id : new.agent_id ≡ old.agent_id
  pub depends_on : new.depends_on ≡ old.depends_on
  pub required : new.required ≡ old.required
  pub allow : new.allow_failed_dependencies ≡ old.allow_failed_dependencies

blocked-eq-false :
    (tasks : Dict TaskState) (t : TaskState) (ds : List String)
    → blocked tasks (allowed_dependency t) ds ≡ ok false
    → all (dependency_met tasks t) ds ≡ true
unfolding blocked
blocked-eq-false tasks t [] h = refl
blocked-eq-false tasks t (d ∷ ds) h = ground (arith, blocked-eq-false tasks t ds)

module _ (py : Python) (event : RunEvent) (tasks : Dict TaskState) where
  pub update_task-plan :
      (kind : EventKind) (old new : TaskState)
      → update_task py event tasks kind old ≡ ok new
      → SamePlan old new
  unfolding update_task
  update_task-plan task_started old new h = ground arith
  update_task-plan kind old new h = ground arith

  pub update_task-edge :
      (kind : EventKind) (old new : TaskState)
      → update_task py event tasks kind old ≡ ok new
      → old.status ⟶ new.status
  unfolding update_task
  update_task-edge task_started old new h = grind (arith, edges)
  update_task-edge kind old new h = grind (arith, edges)

  -- A task starts only when its dependencies allow it.
  pub update_task-starts :
      (kind : EventKind) (old new : TaskState)
      → update_task py event tasks kind old ≡ ok new
      → is_started new.status ≡ true
      → (is_started old.status ≡ true) ⊎ (all (dependency_met tasks old) old.depends_on ≡ true)
  unfolding update_task
  update_task-starts task_started old new h started =
      ground (arith, blocked-eq-false tasks old old.depends_on)
  update_task-starts kind old new h started = ground arith

pub edge-not_terminal : {s t : TaskStatus} → s ⟶ t → is_terminal s ≡ false
edge-not_terminal start = refl
edge-not_terminal skip = refl
edge-not_terminal ask_model = refl
edge-not_terminal model_answer = refl
edge-not_terminal call_tool = refl
edge-not_terminal tool_answer = refl
edge-not_terminal reject = refl
edge-not_terminal finish = refl
edge-not_terminal finish_partly = refl
edge-not_terminal (fail s active) = ground arith

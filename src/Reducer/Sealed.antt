-- ===== src/Reducer/Sealed.antt =====
-- A workflow that has been declared complete keeps its tasks.
use alpha_orchestration.Prelude.{
  ◌≡◌, refl, sym, ap, subst, ◌∙◌, Bool, true, false, List, all, arith,
}
use alpha_orchestration.Prelude.Dict.{Dict, values}
use alpha_orchestration.Result.{ok}
use alpha_orchestration.Json.Python.{Python}
use alpha_orchestration.Domain.Enums.{workflow_completed}
use alpha_orchestration.Domain.Event.{RunEvent}
use alpha_orchestration.Domain.State.{TaskState, RunState}
use alpha_orchestration.Reducer.Tasks.{is_terminal}
use alpha_orchestration.Reducer.Step.{reduce_event, advance, dispatch, complete_workflow, is_none}
use alpha_orchestration.Reducer.Envelope.{reduce_event-inverts}
use alpha_orchestration.Reducer.Change.{TasksChange, same, planned, moved, reduce_event-change}
use alpha_orchestration.Reducer.Lifecycle.{edge-not_terminal, update_task-edge}
use alpha_orchestration.Reducer.Planned.{all-values}
use alpha_orchestration.Reducer.Run.{reduce_all, reduce_all-keeps}

abbrev pub all_over : Dict TaskState → Bool
all_over tasks = all (λ t. is_terminal t.status) (values tasks)

-- A workflow is planned and each of its tasks, which are `tasks`, has ended.
pub record IsSealed (tasks : Dict TaskState) (s : RunState) : Type 0 where
  pub is_planned : is_none s.workflow_id ≡ false
  pub over : all_over s.tasks ≡ true
  pub held : s.tasks ≡ tasks

change-IsSealed :
    (py : Python) (e : RunEvent) (tasks : Dict TaskState) (s t : RunState)
    → IsSealed tasks s
    → TasksChange py e s t
    → IsSealed tasks t
change-IsSealed py e tasks s t i (same kept id) = record {
  is_planned = ap is_none id ∙ i.is_planned;
  over = ap all_over kept ∙ i.over;
  held = kept ∙ i.held;
}
change-IsSealed py e tasks s t i (planned w _ unplanned _ _) = absurd (ground arith)
change-IsSealed py e tasks s t i (moved kind id task updated at moves _ _) = absurd (
    ground (
      arith,
      all-values (λ u. is_terminal u.status) id task s.tasks i.over at,
      edge-not_terminal (update_task-edge py e s.tasks kind task updated moves),
    ))

seals :
    (py : Python) (s t : RunState) (e : RunEvent)
    → complete_workflow py e s ≡ ok t
    → (is_none s.workflow_id ≡ false) × (all_over s.tasks ≡ true) × (t ≡ s)
unfolding complete_workflow
seals py s t e h = ground arith

complete_of :
    (py : Python) (e : RunEvent) (s t : RunState)
    → dispatch py e workflow_completed s ≡ ok t
    → complete_workflow py e s ≡ ok t
unfolding dispatch
complete_of py e s t h = h

completion-IsSealed :
    (py : Python) (s t : RunState) (e : RunEvent)
    → e.kind ≡ workflow_completed
    → reduce_event py s e ≡ ok t
    → IsSealed s.tasks t
completion-IsSealed py s t e k h =
    let done = (reduce_event-inverts py s e t h).1 in
    let (is_planned, over, same_state) = seals py (advance s e) t e (
      complete_of py e (advance s e) t
        (subst (λ kind. dispatch py e kind (advance s e) ≡ ok t) k done)) in
    subst (IsSealed s.tasks) (sym same_state)
      (record { is_planned = is_planned; over = over; held = refl })

-- workflow_completed is accepted only when every task has ended, and no event after it changes the
-- map of tasks, a new plan included.
pub completion_seals_tasks :
    (py : Python) (s t u : RunState) (e : RunEvent) (es : List RunEvent)
    → e.kind ≡ workflow_completed
    → reduce_event py s e ≡ ok t
    → reduce_all py t es ≡ ok u
    → (all_over s.tasks ≡ true) × (u.tasks ≡ s.tasks)
completion_seals_tasks py s t u e es k one rest =
    let start = completion-IsSealed py s t e k one in
    let end_state =
      reduce_all-keeps py (IsSealed s.tasks)
        (λ m n f i h.
          change-IsSealed py f s.tasks (advance m f) n
            (record { is_planned = i.is_planned; over = i.over; held = i.held })
            (reduce_event-change py f m n h))
        t u es start rest in
    (ap all_over (sym start.held) ∙ start.over, end_state.held)

-- ===== src/Reducer/Tracking.antt =====
-- The tasks of a run under every sequence of accepted events.
use alpha_orchestration.Prelude.{
  ◌≡◌, refl, sym, ap, subst, ◌∙◌, String, true, some, List, arith, eq_iff, ◌⊎◌, inl, inr, ◌==◌,
  Bool-cases,
}
use alpha_orchestration.Prelude.Dict.{Dict, lookup, insert, lookup-insert}
use alpha_orchestration.Result.{ok}
use alpha_orchestration.Json.Python.{Python}
use alpha_orchestration.Domain.Spec.{RunSpec}
use alpha_orchestration.Domain.Event.{RunEvent}
use alpha_orchestration.Domain.State.{TaskState, RunState, fresh_state}
use alpha_orchestration.Reducer.Tasks.{is_terminal}
use alpha_orchestration.Reducer.Step.{reduce_event, advance}
use alpha_orchestration.Reducer.Change.{TasksChange, same, planned, moved, reduce_event-change}
use alpha_orchestration.Reducer.Lifecycle.{
  ◌⟶◌, edge-not_terminal, SamePlan, update_task-plan, update_task-edge, update_task-starts,
}
use alpha_orchestration.Reducer.Wiring.{IsWired, insert-IsWired}
use alpha_orchestration.Reducer.Planned.{planned_tasks-IsWired}
use alpha_orchestration.Reducer.Run.{reduce_all, reduce_all-keeps}

change-IsWired :
    (py : Python) (e : RunEvent) (s t : RunState)
    → IsWired s.tasks
    → TasksChange py e s t
    → IsWired t.tasks
change-IsWired py e s t w (same kept _) = subst IsWired (sym kept) w
change-IsWired py e s t w (planned _ _ _ _ plan) = planned_tasks-IsWired e.payload t.tasks plan
change-IsWired py e s t w (moved kind id task updated at moves becomes _) =
    subst IsWired (ap (λ k. insert k updated s.tasks) (sym (w.keyed id task at)) ∙ sym becomes) (
      insert-IsWired s.tasks id task updated w at
        (update_task-plan py e s.tasks kind task updated moves)
        (update_task-edge py e s.tasks kind task updated moves)
        (update_task-starts py e s.tasks kind task updated moves))

-- One accepted event keeps the tasks wired.
pub reduce_event-IsWired :
    (py : Python) (s t : RunState) (e : RunEvent)
    → IsWired s.tasks
    → reduce_event py s e ≡ ok t
    → IsWired t.tasks
reduce_event-IsWired py s t e w h =
    change-IsWired py e (advance s e) t w (reduce_event-change py e s t h)

fresh-IsWired : (spec : RunSpec) → IsWired (fresh_state spec).tasks
unfolding lookup
fresh-IsWired spec = record { keyed = λ k t h. cc; known = λ k t h. cc; met = λ k t h. cc }

-- In the state that any accepted events lead to from a fresh one, each task stands under its own id,
-- every dependency is a task of the run, and every task that is neither queued nor skipped has only
-- dependencies that completed, in part perhaps, or, if it tolerates failed dependencies, that ended
-- in any way.
pub reduce_all-IsWired :
    (py : Python) (spec : RunSpec) (es : List RunEvent) (s : RunState)
    → reduce_all py (fresh_state spec) es ≡ ok s
    → IsWired s.tasks
reduce_all-IsWired py spec es s h =
    reduce_all-keeps py (λ m. IsWired m.tasks) (reduce_event-IsWired py) (fresh_state spec) s es
      (fresh-IsWired spec) h

-- What has become of a task.
pub record Traced (tasks : Dict TaskState) (k : String) (old : TaskState) : Type 0 where
  pub new : TaskState
  pub at : lookup k tasks ≡ some new
  pub plan : SamePlan old new
  pub status : (new ≡ old) ⊎ (old.status ⟶ new.status)

SamePlan-refl : (t : TaskState) → SamePlan t t
SamePlan-refl t = record {
  task_id = refl;
  agent_id = refl;
  depends_on = refl;
  required = refl;
  allow = refl;
}

unchanged :
    (tasks : Dict TaskState) (k : String) (t : TaskState)
    → lookup k tasks ≡ some t
    → Traced tasks k t
unchanged tasks k t at = record { new = t; at = at; plan = SamePlan-refl t; status = inl refl }

change-Traced :
    (py : Python) (e : RunEvent) (s t : RunState) (k : String) (old : TaskState)
    → IsWired s.tasks
    → lookup k s.tasks ≡ some old
    → TasksChange py e s t
    → Traced t.tasks k old
change-Traced py e s t k old w at (same kept _) = unchanged t.tasks k old (rw kept at)
change-Traced py e s t k old w at (planned _ empty _ _ _) =
    absurd (unfold lookup in ground (arith, ap (lookup k) empty))
change-Traced py e s t k old w at (moved kind id task updated found moves becomes _) =
    elim (Bool-cases (id == k)) [
      | inl e' ↦
          let o : task ≡ old = ground (arith, eq_iff id k) in
          record {
            new = updated;
            at = ground (
              arith,
              ap (lookup k) becomes,
              lookup-insert task.task_id k updated s.tasks,
              w.keyed id task found,
              eq_iff id k,
              eq_iff task.task_id k,
            );
            plan =
                subst (λ o. SamePlan o updated) o
                  (update_task-plan py e s.tasks kind task updated moves);
            status = inr (
                subst (λ o. o.status ⟶ updated.status) o
                  (update_task-edge py e s.tasks kind task updated moves));
          }
      | inr e' ↦ unchanged t.tasks k old (
          ground (
            arith,
            ap (lookup k) becomes,
            lookup-insert task.task_id k updated s.tasks,
            w.keyed id task found,
            eq_iff id k,
            eq_iff task.task_id k,
          ))
    ]

-- Every accepted event leaves each planned task in the map with the same plan, and either untouched
-- or moved along one edge of the transition diagram.
pub reduce_event-Traced :
    (py : Python) (s t : RunState) (e : RunEvent) (k : String) (old : TaskState)
    → IsWired s.tasks
    → lookup k s.tasks ≡ some old
    → reduce_event py s e ≡ ok t
    → Traced t.tasks k old
reduce_event-Traced py s t e k old w at h =
    change-Traced py e (advance s e) t k old w at (reduce_event-change py e s t h)

frozen-step :
    (py : Python) (s t : RunState) (e : RunEvent) (k : String) (old : TaskState)
    → IsWired s.tasks
    → lookup k s.tasks ≡ some old
    → is_terminal old.status ≡ true
    → reduce_event py s e ≡ ok t
    → lookup k t.tasks ≡ some old
frozen-step py s t e k old w at over h =
    let traced = reduce_event-Traced py s t e k old w at h in
    elim traced.status [
      | inl kept ↦ traced.at ∙ ap some kept
      | inr edge ↦ absurd (ground (arith, edge-not_terminal edge))
    ]

-- A task that is complete, partial, failed or skipped is not changed by any later events.
pub terminal_task_frozen :
    (py : Python) (s t : RunState) (es : List RunEvent) (k : String) (old : TaskState)
    → IsWired s.tasks
    → lookup k s.tasks ≡ some old
    → is_terminal old.status ≡ true
    → reduce_all py s es ≡ ok t
    → lookup k t.tasks ≡ some old
terminal_task_frozen py s t es k old w at over h =
    (reduce_all-keeps py (λ m. IsWired m.tasks × (lookup k m.tasks ≡ some old))
      (λ m n e (v, found) one.
        (reduce_event-IsWired py m n e v one, frozen-step py m n e k old v found over one))
      s t es (w, at) h).1

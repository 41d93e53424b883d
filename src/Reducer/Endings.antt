-- ===== src/Reducer/Endings.antt =====
-- Which events end a run, and where they stand among its events.
use alpha_orchestration.Prelude.{
  ◌≡◌, refl, sym, ap, Bool, true, false, not, ◌&&◌, List, [], ◌∷◌, any, arith,
}
use alpha_orchestration.Result.{ok}
use alpha_orchestration.Json.Python.{Python}
use alpha_orchestration.Domain.Enums.{
  EventKind, run_created, run_completed, run_cancelled, run_failed,
}
use alpha_orchestration.Domain.Spec.{RunSpec}
use alpha_orchestration.Domain.Event.{RunEvent}
use alpha_orchestration.Domain.State.{RunState, fresh_state, terminal}
use alpha_orchestration.Reducer.Tasks.{task_event}
use alpha_orchestration.Reducer.Agents.{
  register_agent, agent_event, evidence_event, candidate_event,
}
use alpha_orchestration.Reducer.Step.{
  dispatch, plan_workflow, complete_workflow, reduce_event, advance,
}
use alpha_orchestration.Reducer.Envelope.{reduce_event-inverts, reduce_event-Accepted}
use alpha_orchestration.Reducer.Run.{reduce_all, reduce_all-nil, reduce_all-cons}

-- The three events that end a run.
abbrev pub is_ending : EventKind → Bool
is_ending run_completed = true
is_ending run_cancelled = true
is_ending run_failed = true
is_ending _ = false

abbrev pub ends : RunEvent → Bool
ends e = is_ending e.kind

-- No event that ends a run has another after it.
abbrev pub ends_only_last : List RunEvent → Bool
ends_only_last [] = true
ends_only_last (e ∷ []) = true
ends_only_last (e ∷ d ∷ rest) = not (ends e) && ends_only_last (d ∷ rest)

module _ (py : Python) (event : RunEvent) where
  task_event-status :
      (kind : EventKind) (s t : RunState) → task_event py event kind s ≡ ok t → t.status ≡ s.status
  unfolding task_event
  task_event-status kind s t h = ground arith

  agent_event-status :
      (kind : EventKind) (s t : RunState) → agent_event py event kind s ≡ ok t → t.status ≡ s.status
  unfolding agent_event
  agent_event-status kind s t h = ground arith

  evidence_event-status : (s t : RunState) → evidence_event py event s ≡ ok t → t.status ≡ s.status
  unfolding evidence_event
  evidence_event-status s t h = ground arith

  candidate_event-status :
      (s t : RunState) → candidate_event py event s ≡ ok t → t.status ≡ s.status
  unfolding candidate_event
  candidate_event-status s t h = ground arith

  register_agent-status : (s t : RunState) → register_agent py event s ≡ ok t → t.status ≡ s.status
  unfolding register_agent
  register_agent-status s t h = ground arith

  plan_workflow-status : (s t : RunState) → plan_workflow py event s ≡ ok t → t.status ≡ s.status
  unfolding plan_workflow
  plan_workflow-status s t h = ground arith

  complete_workflow-status :
      (s t : RunState) → complete_workflow py event s ≡ ok t → t.status ≡ s.status
  unfolding complete_workflow
  complete_workflow-status s t h = ground arith

  dispatch-terminal :
      (kind : EventKind) (s t : RunState)
      → terminal s ≡ false
      → dispatch py event kind s ≡ ok t
      → terminal t ≡ is_ending kind
  unfolding dispatch
  dispatch-terminal run_created s t o h = ground arith
  dispatch-terminal kind s t o h = ground (
    arith,
    task_event-status kind s t,
    agent_event-status kind s t,
    evidence_event-status s t,
    candidate_event-status s t,
    register_agent-status s t,
    plan_workflow-status s t,
    complete_workflow-status s t,
  )

reduce_event-ends :
    (py : Python) (s t : RunState) (e : RunEvent) → reduce_event py s e ≡ ok t → terminal t ≡ ends e
reduce_event-ends py s t e h =
    dispatch-terminal py e e.kind (advance s e) t (reduce_event-Accepted py s e t h).open_run
      (reduce_event-inverts py s e t h).1

ends_later :
    (py : Python) (es : List RunEvent) (e : RunEvent) (s t : RunState)
    → terminal s ≡ ends e
    → reduce_all py s es ≡ ok t
    → (terminal t ≡ any ends (e ∷ es)) × (ends_only_last (e ∷ es) ≡ true)
ends_later py [] e s t q h =
    let same : terminal s ≡ terminal t = ap terminal (reduce_all-nil py s t h) in
    (ground arith, refl)
ends_later py (d ∷ es) e s t q h =
    let (m, one, rest) = reduce_all-cons py s t d es h in
    let open_run = (reduce_event-Accepted py s d m one).open_run in
    let (over, last) = ends_later py es d m t (reduce_event-ends py s m d one) rest in
    (ground arith, ground arith)

-- When a list of events is reduced from a fresh state, the run is over exactly when one of the
-- events is run_completed, run_cancelled or run_failed, and such an event is the last of the list.
pub reduce_all-endings :
    (py : Python) (spec : RunSpec) (es : List RunEvent) (s : RunState)
    → reduce_all py (fresh_state spec) es ≡ ok s
    → (terminal s ≡ any ends es) × (ends_only_last es ≡ true)
reduce_all-endings py spec [] s h =
    (sym (ap terminal (reduce_all-nil py (fresh_state spec) s h)), refl)
reduce_all-endings py spec (e ∷ es) s h =
    let (m, one, rest) = reduce_all-cons py (fresh_state spec) s e es h in
    ends_later py es e m s (reduce_event-ends py (fresh_state spec) m e one) rest

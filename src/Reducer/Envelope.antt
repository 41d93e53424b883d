-- ===== src/Reducer/Envelope.antt =====
-- What every accepted event does to the envelope of the run state.
use alpha_orchestration.Prelude.{◌≡◌, true, false, [], ◌∷◌, ◌++◌, take_last, arith, eq_iff}
use alpha_orchestration.Prelude.Int.{next_ℤ, pos, eqb_ℤ-sound}
use alpha_orchestration.Result.{ok, state_invariant, guard-eq-ok}
use alpha_orchestration.Json.Python.{Python}
use alpha_orchestration.Domain.Enums.{EventKind, run_created}
use alpha_orchestration.Domain.Event.{RunEvent}
use alpha_orchestration.Domain.State.{RunState, terminal}
use alpha_orchestration.Reducer.Tasks.{task_event}
use alpha_orchestration.Reducer.Agents.{
  register_agent, agent_event, evidence_event, candidate_event,
}
use alpha_orchestration.Reducer.Step.{
  dispatch, plan_workflow, complete_workflow, reduce_event, advance, accepts,
}

-- The fields that only `advance` writes.
pub record SameEnvelope (s t : RunState) : Type 0 where
  pub spec : t.spec ≡ s.spec
  pub recent : t.recent_events ≡ s.recent_events
  pub sequence : t.last_sequence ≡ s.last_sequence

module _ (py : Python) (event : RunEvent) where
  task_event-envelope :
      (kind : EventKind) (s t : RunState) → task_event py event kind s ≡ ok t → SameEnvelope s t
  unfolding task_event
  task_event-envelope kind s t h = ground arith

  agent_event-envelope :
      (kind : EventKind) (s t : RunState) → agent_event py event kind s ≡ ok t → SameEnvelope s t
  unfolding agent_event
  agent_event-envelope kind s t h = ground arith

  evidence_event-envelope : (s t : RunState) → evidence_event py event s ≡ ok t → SameEnvelope s t
  unfolding evidence_event
  evidence_event-envelope s t h = ground arith

  candidate_event-envelope : (s t : RunState) → candidate_event py event s ≡ ok t → SameEnvelope s t
  unfolding candidate_event
  candidate_event-envelope s t h = ground arith

  register_agent-envelope : (s t : RunState) → register_agent py event s ≡ ok t → SameEnvelope s t
  unfolding register_agent
  register_agent-envelope s t h = ground arith

  workflow-envelope : (s t : RunState) → plan_workflow py event s ≡ ok t → SameEnvelope s t
  unfolding plan_workflow
  workflow-envelope s t h = ground arith

  complete-envelope : (s t : RunState) → complete_workflow py event s ≡ ok t → SameEnvelope s t
  unfolding complete_workflow
  complete-envelope s t h = ground arith

  dispatch-envelope :
      (kind : EventKind) (s t : RunState) → dispatch py event kind s ≡ ok t → SameEnvelope s t
  unfolding dispatch
  dispatch-envelope run_created s t h = ground arith
  dispatch-envelope kind s t h = ground (
    arith,
    task_event-envelope kind s t,
    agent_event-envelope kind s t,
    evidence_event-envelope s t,
    candidate_event-envelope s t,
    register_agent-envelope s t,
    workflow-envelope s t,
    complete-envelope s t,
  )

-- An accepted event and the envelope that it leaves.
pub record Accepted (s : RunState) (event : RunEvent) (t : RunState) : Type 0 where
  pub schema : event.schema_version ≡ pos 1
  pub same_run : event.run_id ≡ s.spec.run_id
  pub in_order : event.sequence ≡ next_ℤ s.last_sequence
  pub open_run : terminal s ≡ false
  pub spec : t.spec ≡ s.spec
  pub recent : t.recent_events ≡ take_last 79 s.recent_events ++ event ∷ []
  pub sequence : t.last_sequence ≡ event.sequence

accepts_sound :
    (s : RunState) (event : RunEvent)
    → accepts s event ≡ true
    → (event.schema_version ≡ pos 1)
      × (event.run_id ≡ s.spec.run_id)
      × (event.sequence ≡ next_ℤ s.last_sequence)
      × (terminal s ≡ false)
accepts_sound s event h = ground (
  arith,
  eqb_ℤ-sound event.schema_version (pos 1),
  eq_iff event.run_id s.spec.run_id,
  eqb_ℤ-sound event.sequence (next_ℤ s.last_sequence),
)

-- `reduce_event` succeeds only past its checks, by the branch of the event's kind.
pub reduce_event-inverts :
    (py : Python) (s : RunState) (event : RunEvent) (t : RunState)
    → reduce_event py s event ≡ ok t
    → (accepts s event ≡ true) × (dispatch py event event.kind (advance s event) ≡ ok t)
unfolding reduce_event
reduce_event-inverts py s event t h =
    guard-eq-ok (accepts s event) state_invariant (dispatch py event event.kind (advance s event)) h

-- An event that `reduce_event` accepts has schema 1, the run's id and the next sequence number, and
-- the run was not over; the new state keeps the mandate, holds the event's sequence number and the
-- last 79 recent events followed by this one.
pub reduce_event-Accepted :
    (py : Python) (s : RunState) (event : RunEvent) (t : RunState)
    → reduce_event py s event ≡ ok t
    → Accepted s event t
reduce_event-Accepted py s event t h =
    let (passed, done) = reduce_event-inverts py s event t h in
    let (schema, same_run, in_order, open_run) = accepts_sound s event passed in
    let kept = dispatch-envelope py event event.kind (advance s event) t done in
    record {
      schema = schema;
      same_run = same_run;
      in_order = in_order;
      open_run = open_run;
      spec = kept.spec;
      recent = kept.recent;
      sequence = kept.sequence;
    }

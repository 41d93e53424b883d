-- ===== src/FixedDag/Tracking.antt =====
-- fixed_dag.py against reducer.py: what the reducer makes of the drafts that a worker yields.
use alpha_orchestration.Prelude.{
  ◌≡◌, ℕ, ◌+◌, String, Bool, true, false, Option, none, some, Bool-cases, inl, inr, List, [], ◌∷◌,
  ◌++◌, arith,
}
use alpha_orchestration.Prelude.Int.{pos}
use alpha_orchestration.Prelude.Dict.{Dict, lookup}
use alpha_orchestration.Result.{Result, ok, ◌>>=◌, >>=-eq-ok}
use alpha_orchestration.Json.{Json}
use alpha_orchestration.Json.Python.{Python, to_text}
use alpha_orchestration.Domain.Enums.{TaskStatus}
use alpha_orchestration.Domain.Event.{RunEvent}
use alpha_orchestration.Domain.State.{TaskState}
use alpha_orchestration.Reducer.Tasks.{update_task, task_error}
use alpha_orchestration.Controller.{EventDraft}
use alpha_orchestration.Journal.Verifier.{get}
use alpha_orchestration.FixedDag.Worker.{Assignment, completed, draft_completed, no_texts}
use alpha_orchestration.Dag.{TaskDefinition}
use alpha_orchestration.FixedDag.{Surroundings}
use alpha_orchestration.FixedDag.Records.{PreparedCall, ModelRequest, TaskOutcome}
use alpha_orchestration.FixedDag.Drafts.{
  draft_rejected, draft_failed, draft_turn, draft_answer, draft_call, draft_broken_call,
  draft_result,
}

-- An event with the kind, the message, the agent and the payload of a draft. `update_task` reads
-- nothing else of it.
abbrev pub event_of : EventDraft → RunEvent
event_of draft = record {
  schema_version = pos 1;
  run_id = "";
  sequence = pos 0;
  kind = draft.kind;
  timestamp = 0;
  message = draft.message;
  agent_id = draft.agent_id;
  payload = draft.payload;
}

module _ (py : Python) (tasks : Dict TaskState) where
  abbrev pub update : EventDraft → TaskState → Result TaskState
  update draft t = update_task py (event_of draft) tasks draft.kind t

  -- The reducer's updates of a task by a list of drafts, one after the other.
  unfoldable pub follow : TaskState → List EventDraft → Result TaskState
  follow t [] = ok t
  follow t (draft ∷ rest) = update draft t >>= λ u. follow u rest

  pub follow-snoc :
      (t u v : TaskState) (drafts : List EventDraft) (draft : EventDraft)
      → follow t drafts ≡ ok u
      → update draft u ≡ ok v
      → follow t (drafts ++ draft ∷ []) ≡ ok v
  unfolding follow
  follow-snoc t u v [] draft h k = ground arith
  follow-snoc t u v (d ∷ rest) draft h k =
      let (m, first, later) = >>=-eq-ok (update d t) (λ m. follow m rest) h in
      rw first (follow-snoc m u v rest draft later k)

  module _ (task : TaskDefinition) (turn : ℕ) (t : TaskState) where
    pub update-rejected :
        (code message : String) (output : Json) (allowed : Bool) (remaining : ℕ)
        → t.status ≡ TaskStatus.running
        → update (draft_rejected task turn code message output allowed remaining) t
          ≡ ok (record t { output = output; error = some message })
    unfolding update_task draft_rejected task_error lookup to_text
    update-rejected code message output allowed remaining h = ground arith

    pub update-failed :
        (outcome : TaskOutcome) (code message : String)
        → t.status ≡ TaskStatus.running
        → update (draft_failed task outcome code message) t
          ≡ ok (record t { status = TaskStatus.failed; error = some message })
    unfolding update_task draft_failed task_error lookup to_text
    update-failed outcome code message h = ground arith

    pub update-turn :
        (around : Surroundings) (request : ModelRequest)
        → t.status ≡ TaskStatus.running
        → update (draft_turn around task turn request) t
          ≡ ok (record t { status = TaskStatus.waiting_model; turns = t.turns + 1; error = none })
    unfolding update_task draft_turn
    update-turn around request h = ground arith

    pub update-answer :
        (around : Surroundings) (session_id : String) (trace : Dict Json)
        → t.status ≡ TaskStatus.waiting_model
        → update (draft_answer around task turn session_id trace) t
          ≡ ok (record t {
            status = TaskStatus.running;
            output = get trace "output_text";
            error = none;
          })
    unfolding update_task draft_answer lookup
    update-answer around session_id trace h = ground arith

    pub update-call :
        (around : Surroundings) (index : ℕ) (call_id : String) (contract : Dict Json)
        (prepared : PreparedCall)
        → t.status ≡ TaskStatus.running
        → update (draft_call around task turn index call_id contract prepared) t
          ≡ ok (record t {
            status = TaskStatus.waiting_tool;
            tool_calls = t.tool_calls + 1;
            error = none;
          })
    unfolding update_task draft_call
    update-call around index call_id contract prepared h = ground arith

    pub update-broken_call :
        (around : Surroundings) (index : ℕ) (call_id tool message : String)
        → t.status ≡ TaskStatus.waiting_tool
        → (failure : Option String) × (update
              (draft_broken_call around task turn index call_id tool message)
              t
            ≡ ok (record t { status = TaskStatus.running; error = failure }))
    unfolding update_task draft_broken_call
    update-broken_call around index call_id tool message h =
        let draft = draft_broken_call around task turn index call_id tool message in
        (some (task_error py (event_of draft)), ground arith)

    pub update-result :
        (around : Surroundings) (index : ℕ) (call_id tool : String) (result : Dict Json)
        (error : Json) (succeeded : Bool)
        → t.status ≡ TaskStatus.waiting_tool
        → (failure : Option String) × (update
              (draft_result around task turn index call_id tool result error succeeded)
              t
            ≡ ok (record t { status = TaskStatus.running; error = failure }))
    unfolding update_task draft_result
    update-result around index call_id tool result error true h = (none, ground arith)
    update-result around index call_id tool result error false h =
        let draft = draft_result around task turn index call_id tool result error false in
        (some (task_error py (event_of draft)), ground arith)

  pub update-completed :
      (around : Surroundings) (a : Assignment) (t : TaskState) (outcome : TaskOutcome)
      (output : Dict Json) (cited : List String)
      → t.status ≡ TaskStatus.running
      → let done = completed around a output cited outcome in
        update (draft_completed around a done output cited) t
        ≡ ok (record t { status = done.status; output = done.output; error = done.error })
  unfolding update_task draft_completed completed lookup to_text
  update-completed around a t outcome output cited h =
      elim (Bool-cases (no_texts a.degraded_ancestry)) [
        | inl e ↦ ground arith
        | inr e ↦ ground arith
      ]

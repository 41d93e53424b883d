-- ===== src/FixedDag/Own.antt =====
-- fixed_dag.py: every draft of a worker names its task and its agent.
use alpha_orchestration.Prelude.{
  refl, All, ◌≡◌, ℕ, String, Bool, true, false, some, List, [], ◌∷◌, ◌++◌,
}
use alpha_orchestration.Prelude.Dict.{Dict, lookup}
use alpha_orchestration.Json.{Json, str}
use alpha_orchestration.Domain.Enums.{
  EventKind, model_turn_started, model_turn_completed, action_rejected, tool_started,
  tool_completed, tool_rejected, tool_failed, task_completed, task_failed,
}
use alpha_orchestration.Controller.{EventDraft}
use alpha_orchestration.FixedDag.Worker.{Assignment, draft_completed}
use alpha_orchestration.Dag.{TaskDefinition}
use alpha_orchestration.FixedDag.{Surroundings}
use alpha_orchestration.FixedDag.Records.{PreparedCall, ModelRequest, TaskOutcome}
use alpha_orchestration.FixedDag.Drafts.{
  draft_rejected, draft_failed, draft_turn, draft_answer, draft_call, draft_broken_call,
  draft_result,
}

-- The kinds of the events of a task that has started.
abbrev pub is_worker_kind : EventKind → Bool
is_worker_kind model_turn_started = true
is_worker_kind model_turn_completed = true
is_worker_kind action_rejected = true
is_worker_kind tool_started = true
is_worker_kind tool_completed = true
is_worker_kind tool_rejected = true
is_worker_kind tool_failed = true
is_worker_kind task_completed = true
is_worker_kind task_failed = true
is_worker_kind _ = false

-- The draft names the task and its agent.
abbrev pub IsOwn : TaskDefinition → EventDraft → Type 0
IsOwn task draft =
    (draft.agent_id ≡ some task.agent_id)
    × (lookup "task_id" draft.payload ≡ some (str task.task_id))
    × (is_worker_kind draft.kind ≡ true)

pub All-snoc {ℓ κ} :
    {A : Type ℓ} (P : A → Type κ) (xs : List A) (x : A) → All P xs → P x → All P (xs ++ x ∷ [])
All-snoc P [] x h p = (p, tt)
All-snoc P (y ∷ xs) x (q, h) p = (q, All-snoc P xs x h p)

module _ (task : TaskDefinition) (turn : ℕ) where
  pub rejected-IsOwn :
      (code message : String) (output : Json) (allowed : Bool) (remaining : ℕ)
      → IsOwn task (draft_rejected task turn code message output allowed remaining)
  unfolding draft_rejected lookup
  rejected-IsOwn code message output allowed remaining = (refl, refl, refl)

  pub failed-IsOwn :
      (outcome : TaskOutcome) (code message : String)
      → IsOwn task (draft_failed task outcome code message)
  unfolding draft_failed lookup
  failed-IsOwn outcome code message = (refl, refl, refl)

  pub turn-IsOwn :
      (around : Surroundings) (request : ModelRequest)
      → IsOwn task (draft_turn around task turn request)
  unfolding draft_turn lookup
  turn-IsOwn around request = (refl, refl, refl)

  pub answer-IsOwn :
      (around : Surroundings) (session_id : String) (trace : Dict Json)
      → IsOwn task (draft_answer around task turn session_id trace)
  unfolding draft_answer lookup
  answer-IsOwn around session_id trace = (refl, refl, refl)

  pub call-IsOwn :
      (around : Surroundings) (index : ℕ) (call_id : String) (contract : Dict Json)
      (prepared : PreparedCall)
      → IsOwn task (draft_call around task turn index call_id contract prepared)
  unfolding draft_call lookup
  call-IsOwn around index call_id contract prepared = (refl, refl, refl)

  pub broken_call-IsOwn :
      (around : Surroundings) (index : ℕ) (call_id tool message : String)
      → IsOwn task (draft_broken_call around task turn index call_id tool message)
  unfolding draft_broken_call lookup
  broken_call-IsOwn around index call_id tool message = (refl, refl, refl)

  pub result-IsOwn :
      (around : Surroundings) (index : ℕ) (call_id tool : String) (result : Dict Json)
      (error : Json) (succeeded : Bool)
      → IsOwn task (draft_result around task turn index call_id tool result error succeeded)
  unfolding draft_result lookup
  result-IsOwn around index call_id tool result error true = (refl, refl, refl)
  result-IsOwn around index call_id tool result error false = (refl, refl, refl)

pub completed-IsOwn :
    (around : Surroundings) (a : Assignment) (outcome : TaskOutcome) (output : Dict Json)
    (cited : List String)
    → IsOwn a.task (draft_completed around a outcome output cited)
unfolding draft_completed lookup
completed-IsOwn around a outcome output cited = (refl, refl, refl)

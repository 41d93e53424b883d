-- ===== src/FixedDag/Worker.antt =====
-- fixed_dag.py: the worker of one task, `_stream_task`: its locals, and how it ends a turn or the task.
use Prim.Native.String.{◌++◌ as ◌+++◌}
use alpha_orchestration.Prelude.{
  ℕ, suc, ◌-◌, String, Bool, true, false, not, ◌&&◌, Option, none, some, List, [], ◌∷◌, ◌++◌, ltb,
  if◌then◌else◌,
}
use alpha_orchestration.Prelude.Dict.{Dict}
use alpha_orchestration.Result.{Error, Result, ok, err}
use alpha_orchestration.Json.{Json, bool, str}
use alpha_orchestration.Actions.{
  ActionErrorCode, invalid_text, action_too_large, invalid_json, duplicate_key, invalid_envelope,
  unknown_kind, tool_call_limit,
}
use alpha_orchestration.Domain.Enums.{TaskStatus, task_completed}
use alpha_orchestration.Controller.{EventDraft}
use alpha_orchestration.Dag.{TaskDefinition, texts, number}
use alpha_orchestration.FixedDag.{Surroundings, Bound, bound, unbound, broken}
use alpha_orchestration.FixedDag.Sources.{cited_source_ids, all_in, distinct_texts}
use alpha_orchestration.FixedDag.Records.{TaskOutcome, TaskEvidence, ToolResult, object}
use alpha_orchestration.FixedDag.Drafts.{draft_rejected, draft_failed, repair_message}
use alpha_orchestration.FixedDag.Preflight.{is_schema_failure}

-- The arguments of `_stream_task`, the fields of the runtime that it reads, and what
-- `tool_registry.scoped` returned: its `names` and its `contracts()`.
pub record Assignment : Type 0 where
  pub run_id : String
  pub workflow_id : String
  pub task : TaskDefinition
  pub outcomes : Dict TaskOutcome
  pub failed_dependencies : List String
  pub degraded_dependencies : List String
  pub allowed_sources : List String
  pub degraded_ancestry : List String
  pub evidence : TaskEvidence
  pub contracts : Dict (Dict Json)
  pub sampling : Json
  pub scoped_names : List String
  pub scoped_contracts : List Json

-- What `await scoped.execute(call)` ends with; an exception has the name of its class and its text.
pub data ToolReply : Type 0 where
  returned : ToolResult → ToolReply
  tool_raised : String → String → ToolReply

-- The locals of the worker and what it has yielded.
pub record Worker : Type 0 where
  pub outcome : TaskOutcome
  pub transcript : List Json
  pub repairs_used : ℕ
  pub emitted : List EventDraft

-- How one turn ends: the next one, a `return`, or an exception that leaves the generator.
pub data Step : Type 0 where
  next : Worker → Step
  stopped : Worker → Step
  crashed : Error → Worker → Step

-- How the worker ends.
abbrev pub Ending : Type 0
Ending = Option Error × Worker

abbrev pub and_then : Step → (Worker → Ending) → Ending
and_then (next w) later = later w
and_then (stopped w) later = (none, w)
and_then (crashed e w) later = (some e, w)

abbrev pub emit : EventDraft → Worker → Worker
emit draft w = record w { emitted = w.emitted ++ draft ∷ [] }

abbrev pub recall : Json → Worker → Worker
recall message w = record w { transcript = w.transcript ++ message ∷ [] }

-- `exc.code.value`
abbrev pub code_text : ActionErrorCode → String
code_text invalid_text = "invalid_text"
code_text action_too_large = "action_too_large"
code_text invalid_json = "invalid_json"
code_text duplicate_key = "duplicate_key"
code_text invalid_envelope = "invalid_envelope"
code_text unknown_kind = "unknown_kind"
code_text tool_call_limit = "tool_call_limit"

-- `", ".join(names)`
abbrev pub joined : List String → String
joined [] = ""
joined (s ∷ rest) = elim rest [ [] ↦ s | t ∷ more ↦ s +++ ", " +++ joined rest ]

abbrev pub no_texts : List String → Bool
no_texts [] = true
no_texts (s ∷ rest) = false

-- `payload.get("ok") is True`
abbrev pub is_true : Json → Bool
is_true (bool b) = b
is_true _ = false

module _ (around : Surroundings) (a : Assignment) where
  -- `_fail_task`, and the draft is yielded.
  unfoldable pub fail : String → String → Worker → Worker
  unfolding draft_failed
  fail code message w =
      let outcome = record w.outcome { status = TaskStatus.failed; error = some message } in
      emit (draft_failed a.task outcome code message) (record w { outcome = outcome })

  -- `can_repair`
  abbrev pub can_repair : ℕ → Bool → Worker → Bool
  can_repair turn repairable w =
      repairable && ltb w.repairs_used a.task.repair_budget && ltb turn a.task.max_turns

  -- A rejected action: one more turn when it can be repaired, or else the task fails.
  unfoldable pub refuse : ℕ → String → String → Json → Bool → Worker → Step
  unfolding fail draft_rejected
  refuse turn code message output repairable w =
      let repair = can_repair turn repairable w in
      let used = if repair then suc w.repairs_used else w.repairs_used in
      let remaining = a.task.repair_budget - used in
      let rejected =
        emit (draft_rejected a.task turn code message output repair remaining)
          (record w { repairs_used = used }) in
      if repair
      then next (recall (repair_message code message remaining) rejected)
      else stopped (fail code message rejected)

  abbrev pub completed_payload : TaskOutcome → Dict Json → List String → Dict Json
  completed_payload outcome output cited =
      ("task_id", str a.task.task_id)
      ∷ ("output", object output)
      ∷ ("source_ids", texts cited)
      ∷ ("used_source_ids", texts outcome.source_ids)
      ∷ ("turns", number outcome.turns)
      ∷ ("tool_calls", number outcome.tool_calls)
      ∷ ("partial", bool (not (no_texts a.degraded_ancestry)))
      ∷ ("failed_dependencies", texts a.failed_dependencies)
      ∷ ("degraded_dependencies", texts a.degraded_dependencies)
      ∷ ("degraded_ancestry", texts a.degraded_ancestry)
      ∷ elim outcome.error [ none ↦ [] | some message ↦ ("error", str message) ∷ [] ]

  unfoldable pub draft_completed : TaskOutcome → Dict Json → List String → EventDraft
  draft_completed outcome output cited = record {
    kind = task_completed;
    message = "Completed fixed task " +++ a.task.task_id;
    agent_id = some a.task.agent_id;
    payload = completed_payload outcome output cited;
  }

  -- The outcome of a task whose final output is accepted.
  unfoldable pub completed : Dict Json → List String → TaskOutcome → TaskOutcome
  completed output cited outcome =
      let degraded = not (no_texts a.degraded_ancestry) in
      record outcome {
        status = if degraded then TaskStatus.partial else TaskStatus.complete;
        output = object output;
        source_ids = distinct_texts (outcome.source_ids ++ cited);
        error =
            if degraded
            then some ("completed with degraded dependencies: " +++ joined a.degraded_ancestry)
            else none;
      }

  unfoldable pub accept : Dict Json → List String → Worker → Worker
  unfolding completed draft_completed
  accept output cited w =
      let outcome = completed output cited w.outcome in
      emit (draft_completed outcome output cited) (record w { outcome = outcome })

  -- The citations of a final output.
  unfoldable pub take_citations : ℕ → Dict Json → Bound (List String) → Worker → Step
  unfolding refuse accept
  take_citations turn output (unbound code repairable) w =
      refuse turn code (around.wording code) (object output) false w
  take_citations turn output (broken e) w = crashed e w
  take_citations turn output (bound cited) w =
      if all_in a.allowed_sources cited
      then stopped (accept output cited w)
      else refuse turn "source_not_allowed" (around.wording "source_not_allowed") (object output)
          false w

  -- `isinstance(action, FinalAction)`, from the result of `validate_json`.
  unfoldable pub take_final : ℕ → Dict Json → Result (Unit {0}) → Worker → Step
  unfolding take_citations
  take_final turn output (ok u) w = take_citations turn output (cited_source_ids (object output)) w
  take_final turn output (err e) w =
      if is_schema_failure e
      then refuse turn "invalid_final_output" (around.wording "invalid_final_output")
          (object output) true w
      else crashed e w

-- ===== src/FixedDag/Drafts.antt =====
-- fixed_dag.py: the drafts of events and the messages of a worker.
use Prim.Native.String.{◌++◌ as ◌+++◌}
use alpha_orchestration.Prelude.{
  ℕ, String, Bool, false, ◌||◌, none, some, [], ◌∷◌, ◌==◌, if◌then◌else◌,
}
use alpha_orchestration.Prelude.Dict.{Dict, lookup}
use alpha_orchestration.Json.{Json, null, bool, str, obj, entries}
use alpha_orchestration.Json.Python.{to_text}
use alpha_orchestration.Domain.Enums.{
  model_turn_started, model_turn_completed, action_rejected, tool_started, tool_completed,
  tool_rejected, tool_failed, task_failed,
}
use alpha_orchestration.Journal.Verifier.{get}
use alpha_orchestration.Controller.{EventDraft}
use alpha_orchestration.Dag.{TaskDefinition, texts, number}
use alpha_orchestration.FixedDag.{Surroundings}
use alpha_orchestration.FixedDag.Sources.{raw_source_ids}
use alpha_orchestration.FixedDag.ModelResult.{copied}
use alpha_orchestration.FixedDag.Records.{
  TaskOutcome, PreparedCall, ToolResult, ModelRequest, request_to_dict, object,
}

-- `_action_rejected`
unfoldable pub draft_rejected : TaskDefinition → ℕ → String → String → Json → Bool → ℕ → EventDraft
draft_rejected task turn code message output repair_allowed repairs_remaining = record {
  kind = action_rejected;
  message = "Rejected action for task " +++ task.task_id +++ ": " +++ code;
  agent_id = some task.agent_id;
  payload =
      ("task_id", str task.task_id)
      ∷ ("turn", number turn)
      ∷ ("code", str code)
      ∷ ("error", str message)
      ∷ ("output", output)
      ∷ ("repair_allowed", bool repair_allowed)
      ∷ ("repairs_remaining", number repairs_remaining)
      ∷ [];
}

-- The draft of `_fail_task`.
unfoldable pub draft_failed : TaskDefinition → TaskOutcome → String → String → EventDraft
draft_failed task outcome code message = record {
  kind = task_failed;
  message = "Fixed task " +++ task.task_id +++ " failed: " +++ code;
  agent_id = some task.agent_id;
  payload =
      ("task_id", str task.task_id)
      ∷ ("code", str code)
      ∷ ("error", str message)
      ∷ ("turns", number outcome.turns)
      ∷ ("tool_calls", number outcome.tool_calls)
      ∷ [];
}

-- `_repair_message`
unfoldable pub repair_message : String → String → ℕ → Json
repair_message code message remaining = object (
    ("role", str "controller")
    ∷ (
      "content",
      object (
          (
            "repair",
            object (
                ("code", str code)
                ∷ ("message", str message)
                ∷ ("repairs_remaining", number remaining)
                ∷ ("instruction", str "Return one corrected JSON action only.")
                ∷ []),
          )
          ∷ []),
    )
    ∷ [])

-- `_tool_result_dict`
unfoldable pub tool_result_dict : ToolResult → Dict Json
tool_result_dict result = copied (
    ("call_id", str result.call_id)
    ∷ ("payload", object result.payload)
    ∷ ("source_ids", texts result.source_ids)
    ∷ ("retryable", bool result.retryable)
    ∷ [])

abbrev pub text_or : Dict Json → String → String → (Json → String) → String
text_or value key default to_str = elim (lookup key value) [ none ↦ default | some v ↦ to_str v ]

abbrev pub is_text : String → Json → Bool
is_text s (str t) = s == t
is_text s _ = false

abbrev pub phase_of : Json → Json
phase_of (obj fs) = get (entries fs) "phase"
phase_of _ = null

module _ (around : Surroundings) where
  -- `_tool_error`
  unfoldable pub tool_error : Json → String × String × Bool
  tool_error (obj fs) =
      let value = entries fs in
      let code = text_or value "code" "tool_rejected" (to_text around.py) in
      let message = text_or value "message" "tool rejected the call" (to_text around.py) in
      (code, message, code == "invalid_schema" || is_text "schema" (phase_of (get value "details")))
  tool_error _ = ("malformed_tool_error", "tool returned a malformed error payload", false)

  -- The drafts of one turn, of its answer and of its tool calls.
  unfoldable pub draft_turn : TaskDefinition → ℕ → ModelRequest → EventDraft
  draft_turn task turn request =
      let exact_request = object (copied (request_to_dict request)) in
      record {
        kind = model_turn_started;
        message =
            "Requested action for task "
            +++ task.task_id
            +++ " turn "
            +++ around.py.text_of (number turn);
        agent_id = some task.agent_id;
        payload =
            ("task_id", str task.task_id)
            ∷ ("turn", number turn)
            ∷ ("request_id", str request.request_id)
            ∷ ("session_id", str request.session_id)
            ∷ ("request", exact_request)
            ∷ ("request_hash", str (around.hashing.digest exact_request))
            ∷ [];
      }

  unfoldable pub draft_answer : TaskDefinition → ℕ → String → Dict Json → EventDraft
  draft_answer task turn session_id trace = record {
    kind = model_turn_completed;
    message =
        "Received action for task "
        +++ task.task_id
        +++ " turn "
        +++ around.py.text_of (number turn);
    agent_id = some task.agent_id;
    payload =
        ("task_id", str task.task_id)
        ∷ ("turn", number turn)
        ∷ ("request_id", get trace "request_id")
        ∷ ("session_id", str session_id)
        ∷ ("output", get trace "output_text")
        ∷ ("output_bytes", get trace "output_bytes")
        ∷ ("output_hash", get trace "output_hash")
        ∷ ("output_truncated", get trace "output_truncated")
        ∷ ("trace", object trace)
        ∷ ("trace_hash", str (around.hashing.digest (object trace)))
        ∷ [];
  }

  unfoldable pub draft_call :
      TaskDefinition → ℕ → ℕ → String → Dict Json → PreparedCall → EventDraft
  draft_call task turn call_index call_id contract prepared = record {
    kind = tool_started;
    message = "Calling " +++ prepared.name +++ " for task " +++ task.task_id;
    agent_id = some task.agent_id;
    payload =
        ("task_id", str task.task_id)
        ∷ ("turn", number turn)
        ∷ ("call_index", number call_index)
        ∷ ("call_id", str call_id)
        ∷ ("tool", str prepared.name)
        ∷ ("tool_version", str (text_or contract "version" "unknown" (to_text around.py)))
        ∷ ("proposed_arguments", object prepared.proposed_arguments)
        ∷ (
          "proposed_arguments_hash",
          str (around.hashing.digest (object prepared.proposed_arguments)),
        )
        ∷ ("arguments", object prepared.arguments)
        ∷ ("source_ids", raw_source_ids prepared.arguments)
        ∷ ("observation_bindings", object prepared.observation_bindings)
        ∷ ("arguments_hash", str (around.hashing.digest (object prepared.arguments)))
        ∷ [];
  }

  unfoldable pub draft_broken_call : TaskDefinition → ℕ → ℕ → String → String → String → EventDraft
  draft_broken_call task turn call_index call_id tool message =
      let error = object (("code", str "tool_execution_error") ∷ ("message", str message) ∷ []) in
      let envelope = object (
        ("call_id", str call_id)
        ∷ ("payload", object (("ok", bool false) ∷ ("tool", str tool) ∷ ("error", error) ∷ []))
        ∷ ("source_ids", texts [])
        ∷ ("retryable", bool false)
        ∷ []) in
      record {
        kind = tool_failed;
        message = "Tool " +++ tool +++ " failed for task " +++ task.task_id;
        agent_id = some task.agent_id;
        payload =
            ("task_id", str task.task_id)
            ∷ ("turn", number turn)
            ∷ ("call_index", number call_index)
            ∷ ("call_id", str call_id)
            ∷ ("tool", str tool)
            ∷ ("error", error)
            ∷ ("result_envelope", envelope)
            ∷ ("result_hash", str (around.hashing.digest envelope))
            ∷ [];
      }

  -- `succeeded` is whether the result's payload says so.
  unfoldable pub draft_result :
      TaskDefinition → ℕ → ℕ → String → String → Dict Json → Json → Bool → EventDraft
  draft_result task turn call_index call_id tool exact_result error succeeded = record {
    kind = if succeeded then tool_completed else tool_rejected;
    message =
        if succeeded
        then "Tool " +++ tool +++ " completed for task " +++ task.task_id
        else "Tool " +++ tool +++ " rejected a call for task " +++ task.task_id;
    agent_id = some task.agent_id;
    payload =
        ("task_id", str task.task_id)
        ∷ ("turn", number turn)
        ∷ ("call_index", number call_index)
        ∷ ("call_id", str call_id)
        ∷ ("tool", str tool)
        ∷ ("result", get exact_result "payload")
        ∷ ("source_ids", get exact_result "source_ids")
        ∷ ("retryable", get exact_result "retryable")
        ∷ ("error", error)
        ∷ ("result_envelope", object exact_result)
        ∷ ("result_hash", str (around.hashing.digest (object exact_result)))
        ∷ [];
  }

-- ===== src/FixedDag/Calls.antt =====
-- fixed_dag.py: the tool calls of one turn of `_stream_task`. The executor of tools is a function,
-- since every call has its own identifier.
use Prim.Native.String.{◌++◌ as ◌+++◌}
use alpha_orchestration.Prelude.{
  ℕ, suc, String, Bool, ◌&&◌, Option, none, some, List, [], ◌∷◌, ◌++◌, if◌then◌else◌,
}
use alpha_orchestration.Prelude.Dict.{Dict, lookup}
use alpha_orchestration.Result.{key_error, value_error}
use alpha_orchestration.Json.{Json, null, str, obj, entries}
use alpha_orchestration.Journal.Verifier.{get, all_finite}
use alpha_orchestration.Dag.{number}
use alpha_orchestration.FixedDag.{Surroundings, Bound, bound, unbound, broken}
use alpha_orchestration.FixedDag.Sources.{distinct_texts}
use alpha_orchestration.FixedDag.Records.{PreparedCall, ToolCall, ToolResult, object}
use alpha_orchestration.FixedDag.Drafts.{
  tool_result_dict, tool_error, draft_call, draft_broken_call, draft_result,
}
use alpha_orchestration.FixedDag.Preflight.{validate_tool_result}
use alpha_orchestration.FixedDag.Worker.{
  Assignment, ToolReply, returned, tool_raised, Worker, Step, next, stopped, crashed, emit, recall,
  is_true, fail, refuse,
}

-- The two hashes of the draft tool_started are those of strict JSON: they raise at a number that
-- is not finite.
abbrev pub is_hashable : PreparedCall → Bool
is_hashable prepared =
    all_finite (object prepared.proposed_arguments) && all_finite (object prepared.arguments)

module _ (around : Surroundings) (execute : ToolCall → ToolReply) (a : Assignment) where
  -- What is left of a tool call after its result was checked.
  unfoldable pub take_result :
      ℕ → ℕ → Json → ToolCall → ToolResult → (Worker → Step) → Worker → Step
  unfolding refuse
  take_result turn call_index model_output call result go_on w =
      let exact_result = tool_result_dict result in
      let succeeded = is_true (get result.payload "ok") in
      let error = payload_error (get exact_result "payload") in
      let (code, message, repairable) = tool_error around error in
      let told =
        recall
          (object (
            ("role", str "tool")
            ∷ ("turn", number turn)
            ∷ ("call_id", str call.call_id)
            ∷ ("name", str call.name)
            ∷ ("payload", get exact_result "payload")
            ∷ ("source_ids", get exact_result "source_ids")
            ∷ []))
          (emit
            (draft_result around a.task turn call_index call.call_id call.name exact_result error
              succeeded)
            w) in
      if succeeded
      then go_on (record told {
        outcome = record told.outcome {
          source_ids = distinct_texts (told.outcome.source_ids ++ result.source_ids);
        };
      })
      else refuse around a turn code message model_output repairable told
    where
      payload_error : Json → Json
      payload_error (obj fs) = get (entries fs) "error"
      payload_error _ = null

  -- `except Exception` around a tool call.
  unfoldable pub fail_call : ℕ → ℕ → ToolCall → String → Worker → Step
  unfolding fail
  fail_call turn call_index call message w = stopped (
      fail around a "tool_execution_error" message
        (emit (draft_broken_call around a.task turn call_index call.call_id call.name message) w))

  unfoldable pub take_reply : ℕ → ℕ → Json → ToolCall → ToolReply → (Worker → Step) → Worker → Step
  unfolding take_result fail_call
  take_reply turn call_index model_output call (tool_raised name text) go_on w =
      fail_call turn call_index call (name +++ ": " +++ text) w
  take_reply turn call_index model_output call (returned result) go_on w =
      if validate_tool_result call result a.allowed_sources
      then take_result turn call_index model_output call result go_on w
      else fail_call turn call_index call (around.wording "tool_execution_error") w

  -- One tool call, up to its draft tool_started, and then its reply.
  unfoldable pub make_call :
      ℕ → ℕ → Json → PreparedCall → Option (Dict Json) → (Worker → Step) → Worker → Step
  unfolding take_reply
  make_call turn call_index model_output prepared none go_on w = crashed key_error w
  make_call turn call_index model_output prepared (some contract) go_on w =
      let call_id =
        a.run_id
        +++ ":"
        +++ a.task.task_id
        +++ ":t"
        +++ around.py.text_of (number turn)
        +++ ":c"
        +++ around.py.text_of (number call_index) in
      let call : ToolCall = record {
        name = prepared.name;
        arguments = prepared.arguments;
        call_id = call_id;
      } in
      let counted = record w {
        outcome = record w.outcome { tool_calls = suc w.outcome.tool_calls };
      } in
      if is_hashable prepared
      then take_reply turn call_index model_output call (execute call) go_on
          (emit (draft_call around a.task turn call_index call_id contract prepared) counted)
      else crashed value_error counted

  -- `for call_index, prepared in enumerate(prepared_calls)`
  unfoldable pub make_calls : ℕ → ℕ → Json → List PreparedCall → Worker → Step
  unfolding make_call
  make_calls turn call_index model_output [] w = next w
  make_calls turn call_index model_output (prepared ∷ rest) w =
      make_call turn call_index model_output prepared (lookup prepared.name a.contracts)
        (make_calls turn (suc call_index) model_output rest) w

  -- What the preflight of the calls returned or raised.
  unfoldable pub take_calls : ℕ → Json → Bound (List PreparedCall) → Worker → Step
  unfolding make_calls refuse
  take_calls turn model_output (bound calls) w = make_calls turn 0 model_output calls w
  take_calls turn model_output (unbound code repairable) w =
      refuse around a turn code (around.wording code) model_output repairable w
  take_calls turn model_output (broken e) w = crashed e w

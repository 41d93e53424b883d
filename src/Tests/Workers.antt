-- ===== src/Tests/Workers.antt =====
-- Witnesses on a worker that calls a tool in its first turn and answers in its second.
use alpha_orchestration.Prelude.{
  ◌≡◌, refl, true, false, none, some, [], ◌∷◌, ◌==◌, eqb, if◌then◌else◌, length,
}
use alpha_orchestration.Prelude.Dict.{Dict, lookup, insert}
use alpha_orchestration.Prelude.Text.{strip, is_space}
use alpha_orchestration.Result.{ok}
use alpha_orchestration.Json.{Json, null, bool, str, arr, obj, items, fields}
use alpha_orchestration.Domain.Enums.{RunStatus, TaskStatus}
use alpha_orchestration.Domain.State.{RunState, TaskState, fresh_state}
use alpha_orchestration.Actions.{Decoder, loaded}
use alpha_orchestration.Journal.Verifier.{all_finite, items_finite, fields_finite}
use alpha_orchestration.FixedDag.Sources.{
  distinct_texts, citation_list, strict_source_ids, cited_source_ids, cited, cited_items,
  cited_fields,
}
use alpha_orchestration.FixedDag.ModelResult.{
  model_result_dict, invalid_trace, details_error, trace_of_text, checked_trace,
}
use alpha_orchestration.FixedDag.Records.{request_to_dict, binding_contract, task_source_ids}
use alpha_orchestration.FixedDag.Drafts.{
  draft_rejected, draft_failed, repair_message, tool_result_dict, tool_error, draft_turn,
  draft_answer, draft_call, draft_broken_call, draft_result,
}
use alpha_orchestration.FixedDag.Preflight.{
  validate_tool_result, bind_arguments, preflight_call, preflight_calls,
}
use alpha_orchestration.FixedDag.Worker.{
  fail, refuse, draft_completed, completed, accept, take_citations, take_final,
}
use alpha_orchestration.FixedDag.Calls.{
  take_result, fail_call, take_reply, make_call, make_calls, take_calls,
}
use alpha_orchestration.FixedDag.Turns.{
  take_action, take_output, take_trace, request_of, take_turn, take_turns, with_reports,
  stream_task,
}
use alpha_orchestration.Schema.Validate.{
  test_type, test_enum, size_limit, test_size, test_limit, test_number, first_match, test_any_of,
  test_property, test_properties, test_object, test_each, test_items, test_array, test_value,
  test_json, accepts_within, validate_json,
}
use alpha_orchestration.Schema.{value_size}
use alpha_orchestration.Actions.{
  unique_from, require_object, require_exact_keys, parse_call, parse_calls, parse_tool_calls,
  parse_envelope, parse_action,
}
use alpha_orchestration.Json.Sorted.{sort_keys, sort_items, sort_fields}
use alpha_orchestration.Json.Equality.{json_eq, items_eq, fields_eq}
use alpha_orchestration.Json.Python.{truthy, to_int, to_text}
use alpha_orchestration.Dag.{TaskDefinition, is_name}
use alpha_orchestration.FixedDag.{Surroundings, unbound}
use alpha_orchestration.FixedDag.Records.{ToolCall, ModelRequest}
use alpha_orchestration.FixedDag.ModelResult.{ModelReply, answered}
use alpha_orchestration.FixedDag.Worker.{Assignment, ToolReply, returned, Worker}
use alpha_orchestration.FixedDag.Promises.{
  stream_task-IsBounded, stream_task-Agrees, stream_task-IsTaken, stream_task-IsTerminal,
  stream_task-IsDelivered, Agrees, IsBounded,
}
use alpha_orchestration.FixedDag.Taken.{Runs, take_drafts}
use alpha_orchestration.FixedDag.Working.{IsDelivered}
use alpha_orchestration.Reducer.Tasks.{is_success, is_terminal}
use alpha_orchestration.Tests.Samples.{plain_python, mandate}

abbrev object : Dict Json → Json
object d = obj (fields d)

abbrev lookup_call : Json
lookup_call = object (
    ("kind", str "tool_calls")
    ∷ ("calls", arr (items (object (("name", str "lookup") ∷ ("arguments", object []) ∷ []) ∷ [])))
    ∷ [])

abbrev final_answer : Json
final_answer = object (
    ("kind", str "final")
    ∷ ("payload", object (("source_ids", arr (items (str "s1" ∷ []))) ∷ []))
    ∷ [])

-- The decoder knows two texts.
abbrev two_texts : Decoder
two_texts = record {
  encoded_size = λ raw. some 10;
  loads = λ hook raw. loaded (if raw == "call" then lookup_call else final_answer);
}

abbrev pub surroundings : Surroundings
surroundings = record {
  py = plain_python;
  hashing = record { digest = λ v. "d"; text_digest = λ s. "t" };
  decoder = two_texts;
  repr = λ v. "r";
  canonical_size = λ v. 10;
  wording = λ code. code;
  bind_finance_arguments = λ name proposed packet. unbound "invalid_observation" true;
}

abbrev model : ModelRequest → ModelReply
model request = answered (record {
  request_id = str request.request_id;
  output_text = str (if eqb request.turn 1 then "call" else "final");
  prompt_ids = arr (items []);
  output_ids = arr (items []);
  finish_reason = str "stop";
  telemetry = object [];
  model_fingerprint = str "m";
  tokenizer_fingerprint = str "t";
})

abbrev executor : ToolCall → ToolReply
executor call = returned (record {
  call_id = call.call_id;
  payload = ("ok", bool true) ∷ [];
  source_ids = "s1" ∷ [];
  retryable = false;
})

abbrev screen : TaskDefinition
screen = record {
  task_id = "screen";
  agent_id = "agent-1";
  depends_on = [];
  allowed_tools = "lookup" ∷ [];
  prompt_key = "default";
  output_schema = ("type", str "object") ∷ [];
  required = true;
  allow_failed_dependencies = false;
  max_turns = 4;
  max_tool_calls = 8;
  max_calls_per_turn = 4;
  max_new_tokens = 512;
  max_action_bytes = 32768;
  repair_budget = 1;
}

abbrev assignment : Assignment
assignment = record {
  run_id = "run-1";
  workflow_id = "triage";
  task = screen;
  outcomes = [];
  failed_dependencies = [];
  degraded_dependencies = [];
  allowed_sources = "s1" ∷ [];
  degraded_ancestry = [];
  evidence = record {
    mode = "manual_unverified_source_ids";
    source_ids = "s1" ∷ [];
    packet = none;
  };
  contracts = ("lookup", ("input_schema", object (("type", str "object") ∷ [])) ∷ []) ∷ [];
  sampling = object [];
  scoped_names = "lookup" ∷ [];
  scoped_contracts = [];
}

unfoldable pub steps : Unit {0}
unfolding accept accepts_within bind_arguments binding_contract checked_trace citation_list cited
    cited_fields cited_items cited_source_ids completed details_error distinct_texts draft_answer
    draft_broken_call draft_call draft_completed draft_failed draft_rejected draft_result draft_turn
    fail fail_call fields_eq first_match invalid_trace items_eq json_eq make_call make_calls
    model_result_dict parse_action parse_call parse_calls parse_envelope parse_tool_calls
    preflight_call preflight_calls refuse repair_message request_of request_to_dict
    require_exact_keys require_object size_limit sort_fields sort_items sort_keys stream_task
    strict_source_ids take_action take_calls take_citations take_final take_output take_reply
    take_result take_trace take_turn take_turns task_source_ids test_any_of test_array test_each
    test_enum test_items test_json test_limit test_number test_object test_properties test_property
    test_size test_type test_value to_int to_text tool_error tool_result_dict trace_of_text truthy
    unique_from validate_json validate_tool_result value_size with_reports all_finite items_finite
    fields_finite lookup insert strip
steps = tt

worker_returns : (stream_task surroundings model executor assignment).0 ≡ none
unfolding steps
worker_returns = refl

abbrev screen_state : TaskState
screen_state = record {
  task_id = "screen";
  agent_id = "agent-1";
  depends_on = [];
  required = true;
  allow_failed_dependencies = false;
  status = TaskStatus.running;
  turns = 0;
  tool_calls = 0;
  output = null;
  error = none;
}

abbrev running_state : RunState
running_state = record (fresh_state mandate) {
  status = RunStatus.running;
  tasks = ("screen", screen_state) ∷ [];
}

screen_named : is_name 200 "screen" ≡ true
unfolding strip is_space
screen_named = refl

screen-Runs : Runs plain_python 0 screen running_state screen_state
unfolding lookup
screen-Runs = record { going_on = refl; held = refl; same_id = refl; same_agent = refl }

abbrev screened : Worker
screened = (stream_task surroundings model executor assignment).1

screened_completes : is_success screened.outcome.status ≡ true
unfolding steps
screened_completes = refl

two_turns :
    (screened.outcome.turns ≡ 2) × (screened.outcome.tool_calls ≡ 1) × (length screened.emitted ≡ 7)
unfolding steps
two_turns = (refl, refl, refl)

stream_task-Agrees_example :
    (final : RunState) × (u : TaskState) × (take_drafts plain_python 0 running_state
        screened.emitted
      ≡ ok final)
    × (lookup "screen" final.tasks ≡ some u)
    × Agrees u screened
stream_task-Agrees_example =
    stream_task-Agrees surroundings model executor assignment 0 running_state screen_state
      screen_named screen-Runs (refl, refl, refl) worker_returns

stream_task-IsTaken_example :
    (final : RunState) × (take_drafts plain_python 0 running_state screened.emitted ≡ ok final)
stream_task-IsTaken_example =
    stream_task-IsTaken surroundings model executor assignment 0 running_state screen_state
      screen_named screen-Runs (refl, refl, refl)

stream_task-IsBounded_example : IsBounded assignment screened
stream_task-IsBounded_example =
    stream_task-IsBounded surroundings model executor assignment worker_returns

stream_task-IsTerminal_example : is_terminal screened.outcome.status ≡ true
stream_task-IsTerminal_example =
    stream_task-IsTerminal surroundings model executor assignment worker_returns

stream_task-IsDelivered_example : IsDelivered surroundings assignment screened.outcome
stream_task-IsDelivered_example =
    stream_task-IsDelivered surroundings model executor assignment worker_returns screened_completes

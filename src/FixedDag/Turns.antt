-- ===== src/FixedDag/Turns.antt =====
-- fixed_dag.py: the turns of `_stream_task`. The model is a function, since every request has its own
-- identifier.
use Prim.Native.String.{◌++◌ as ◌+++◌}
use alpha_orchestration.Prelude.{
  ℕ, zero, suc, ◌+◌, ◌-◌, String, false, none, some, List, [], ◌∷◌, leb, length, map, if◌then◌else◌,
  ◌⊎◌, inl, inr,
}
use alpha_orchestration.Prelude.Dict.{Dict}
use alpha_orchestration.Result.{Result, ok, err, value_error, runtime_error}
use alpha_orchestration.Json.{Json, null, str}
use alpha_orchestration.Json.Sorted.{sort_keys}
use alpha_orchestration.Journal.Verifier.{get, all_finite}
use alpha_orchestration.Actions.{
  AgentAction, tool_calls_action, final_action, Reading, read, refused, bad_limit, parse_action,
}
use alpha_orchestration.Domain.Enums.{TaskStatus}
use alpha_orchestration.Dag.{texts, number}
use alpha_orchestration.Schema.Validate.{validate_json}
use alpha_orchestration.FixedDag.{Surroundings}
use alpha_orchestration.FixedDag.ModelResult.{ModelReply, caught, checked_trace, invalid_trace}
use alpha_orchestration.FixedDag.Records.{
  ToolCall, ModelRequest, request_to_dict, object, binding_contract, dependency_reports,
}
use alpha_orchestration.FixedDag.Drafts.{draft_turn, draft_answer}
use alpha_orchestration.FixedDag.Preflight.{preflight_calls}
use alpha_orchestration.FixedDag.Worker.{
  Assignment, ToolReply, Worker, Step, crashed, Ending, and_then, emit, recall, code_text, fail,
  refuse, take_final,
}
use alpha_orchestration.FixedDag.Calls.{take_calls}

module _ (around : Surroundings) (complete : ModelRequest → ModelReply)
    (execute : ToolCall → ToolReply) (a : Assignment) where
  -- What `parse_action` returned or raised.
  unfoldable pub take_action : ℕ → Json → Reading AgentAction → Worker → Step
  unfolding take_calls take_final refuse
  take_action turn model_output bad_limit w = crashed value_error w
  take_action turn model_output (refused code repairable) w =
      refuse around a turn (code_text code) (around.wording (code_text code)) model_output
        repairable w
  take_action turn model_output (read (final_action output)) w =
      take_final around a turn output
        (validate_json around.repr (object output) (object a.task.output_schema)) w
  take_action turn model_output (read (tool_calls_action calls)) w =
      if leb (w.outcome.tool_calls + length calls) a.task.max_tool_calls
      then take_calls around execute a turn model_output
          (preflight_calls around a.scoped_names a.allowed_sources a.contracts a.evidence calls) w
      else refuse around a turn "tool_budget_exceeded"
          ("tool-call budget exceeded: requested "
            +++ around.py.text_of (number (length calls))
            +++ " with "
            +++ around.py.text_of (number (a.task.max_tool_calls - w.outcome.tool_calls))
            +++ " remaining")
          model_output false w

  -- The text of an accepted answer.
  unfoldable pub take_output : ℕ → Json → Worker → Step
  unfolding take_action
  take_output turn (str text) w =
      take_action turn (str text)
        (parse_action around.decoder a.task.max_action_bytes a.task.max_calls_per_turn (str text))
        (recall
          (object (("role", str "assistant") ∷ ("turn", number turn) ∷ ("content", str text) ∷ []))
          w)
  take_output turn _ w = crashed runtime_error w

  -- The trace of the model's answer, or the code of what is wrong with it.
  unfoldable pub take_trace : ℕ → ModelRequest → String ⊎ Dict Json → Worker → Step
  unfolding refuse take_output
  take_trace turn request (inl code) w =
      let trace = invalid_trace around request.request_id code in
      refuse around a turn code (around.wording code) (get trace "output_text") false
        (emit (draft_answer around a.task turn request.session_id trace) w)
  take_trace turn request (inr trace) w =
      take_output turn (get trace "output_text")
        (emit (draft_answer around a.task turn request.session_id trace) w)

  abbrev pub packet_payload : Json
  packet_payload = elim a.evidence.packet [ none ↦ null | some packet ↦ packet ]

  -- `ActionModelRequest(…)` with the copies of its `__post_init__`.
  unfoldable pub request_of : ℕ → Worker → ModelRequest
  request_of turn w = record {
    run_id = a.run_id;
    workflow_id = a.workflow_id;
    task_id = a.task.task_id;
    agent_id = a.task.agent_id;
    turn = turn;
    request_id = a.run_id +++ ":" +++ a.task.task_id +++ ":t" +++ around.py.text_of (number turn);
    session_id = a.run_id +++ ":" +++ a.task.agent_id;
    prompt_key = a.task.prompt_key;
    transcript = map sort_keys w.transcript;
    tool_contracts = map sort_keys a.scoped_contracts;
    output_schema = sort_keys (object a.task.output_schema);
    allowed_source_ids = a.allowed_sources;
    max_new_tokens = a.task.max_new_tokens;
    max_action_bytes = a.task.max_action_bytes;
    evidence_packet = sort_keys packet_payload;
    sampling = sort_keys a.sampling;
  }

  -- The body of `for turn in range(1, task.max_turns + 1)`. Copies raise ValueError at a number
  -- that is not finite.
  unfoldable pub take_turn : ℕ → Worker → Step
  unfolding take_trace
  take_turn turn w =
      let begun = record w { outcome = record w.outcome { turns = turn } } in
      let request = request_of turn begun in
      if all_finite (object (request_to_dict request))
      then take_trace turn request
          (checked_trace around request.request_id a.task.max_action_bytes
            (caught request.request_id (complete request)))
          (emit (draft_turn around a.task turn request) begun)
      else crashed value_error begun

  unfoldable pub take_turns : ℕ → ℕ → Worker → Ending
  unfolding take_turn fail
  take_turns zero turn w = (
    none,
    fail around a "turn_budget_exhausted"
        ("task did not produce a final action in "
          +++ around.py.text_of (number a.task.max_turns)
          +++ " turns")
        w,
  )
  take_turns (suc left) turn w = and_then (take_turn turn w) (take_turns left (suc turn))

  -- The first entry of the transcript.
  abbrev pub first_message : Dict Json → Json
  first_message reports = object (
      ("role", str "controller")
      ∷ (
        "content",
        object (
            ("task_id", str a.task.task_id)
            ∷ ("prompt_key", str a.task.prompt_key)
            ∷ ("dependencies", object reports)
            ∷ ("allowed_source_ids", texts a.allowed_sources)
            ∷ ("evidence_mode", str a.evidence.mode)
            ∷ ("evidence_packet", packet_payload)
            ∷ ("observation_binding", binding_contract a.task.allowed_tools)
            ∷ ("degraded_ancestry", texts a.degraded_ancestry)
            ∷ ("output_schema", sort_keys (object a.task.output_schema))
            ∷ []),
      )
      ∷ [])

  -- `_TaskOutcome(status=RUNNING, degraded_ancestry=…)`, and nothing yielded.
  abbrev pub new_worker : List Json → Worker
  new_worker transcript = record {
    outcome = record {
      status = TaskStatus.running;
      output = null;
      error = none;
      source_ids = [];
      turns = 0;
      tool_calls = 0;
      degraded_ancestry = a.degraded_ancestry;
    };
    transcript = transcript;
    repairs_used = 0;
    emitted = [];
  }

  -- The turns, once the outcomes of the dependencies were found.
  unfoldable pub with_reports : Result (Dict Json) → Ending
  unfolding take_turns
  with_reports (err e) = (some e, new_worker [])
  with_reports (ok reports) =
      take_turns a.task.max_turns 1 (new_worker (first_message reports ∷ []))

  -- `_stream_task`
  unfoldable pub stream_task : Ending
  unfolding with_reports
  stream_task = with_reports (dependency_reports a.task.depends_on a.outcomes)

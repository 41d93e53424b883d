-- ===== src/FixedDag/Records.antt =====
-- fixed_dag.py and ports.py: the outcome of a task, and the requests and calls of its worker.
use alpha_orchestration.Prelude.{ℕ, String, Bool, Option, List, [], ◌∷◌, ◌++◌, keep, contains}
use alpha_orchestration.Prelude.Dict.{Dict, lookup}
use alpha_orchestration.Result.{Result, ok, or_raise, key_error, ◌>>=◌}
use alpha_orchestration.Json.{Json, str, arr, obj, items, fields}
use alpha_orchestration.Domain.Enums.{TaskStatus}
use alpha_orchestration.Dag.{TaskDefinition, texts, number}
use alpha_orchestration.FixedDag.Sources.{distinct_texts}

-- `_TaskOutcome`
pub record TaskOutcome : Type 0 where
  pub status : TaskStatus
  pub output : Json
  pub error : Option String
  pub source_ids : List String
  pub turns : ℕ
  pub tool_calls : ℕ
  pub degraded_ancestry : List String

-- `_TaskEvidence`, where the packet is its JSON form.
pub record TaskEvidence : Type 0 where
  pub mode : String
  pub source_ids : List String
  pub packet : Option Json

-- `_PreparedCall`
pub record PreparedCall : Type 0 where
  pub name : String
  pub proposed_arguments : Dict Json
  pub arguments : Dict Json
  pub observation_bindings : Dict Json

pub record ToolCall : Type 0 where
  pub name : String
  pub arguments : Dict Json
  pub call_id : String

pub record ToolResult : Type 0 where
  pub call_id : String
  pub payload : Dict Json
  pub source_ids : List String
  pub retryable : Bool

-- `ActionModelRequest`
pub record ModelRequest : Type 0 where
  pub run_id : String
  pub workflow_id : String
  pub task_id : String
  pub agent_id : String
  pub turn : ℕ
  pub request_id : String
  pub session_id : String
  pub prompt_key : String
  pub transcript : List Json
  pub tool_contracts : List Json
  pub output_schema : Json
  pub allowed_source_ids : List String
  pub max_new_tokens : ℕ
  pub max_action_bytes : ℕ
  pub evidence_packet : Json
  pub sampling : Json

-- `ActionModelRequest.to_dict`
unfoldable pub request_to_dict : ModelRequest → Dict Json
request_to_dict r =
    ("run_id", str r.run_id)
    ∷ ("workflow_id", str r.workflow_id)
    ∷ ("task_id", str r.task_id)
    ∷ ("agent_id", str r.agent_id)
    ∷ ("turn", number r.turn)
    ∷ ("request_id", str r.request_id)
    ∷ ("session_id", str r.session_id)
    ∷ ("prompt_key", str r.prompt_key)
    ∷ ("transcript", arr (items r.transcript))
    ∷ ("tool_contracts", arr (items r.tool_contracts))
    ∷ ("output_schema", r.output_schema)
    ∷ ("allowed_source_ids", texts r.allowed_source_ids)
    ∷ ("evidence_packet", r.evidence_packet)
    ∷ ("max_new_tokens", number r.max_new_tokens)
    ∷ ("max_action_bytes", number r.max_action_bytes)
    ∷ ("sampling", r.sampling)
    ∷ []

abbrev pub status_value : TaskStatus → String
status_value TaskStatus.queued = "queued"
status_value TaskStatus.running = "running"
status_value TaskStatus.waiting_model = "waiting_model"
status_value TaskStatus.waiting_tool = "waiting_tool"
status_value TaskStatus.complete = "complete"
status_value TaskStatus.partial = "partial"
status_value TaskStatus.failed = "failed"
status_value TaskStatus.skipped = "skipped"

abbrev pub object : Dict Json → Json
object d = obj (fields d)

-- `_OBSERVATION_BOUND_TOOLS`, sorted.
abbrev pub observation_bound_tools : List String
observation_bound_tools =
    "finance.calculate" ∷ "finance.discounted_cash_flow" ∷ "finance.forecast_growth"
    ∷ "finance.market_statistics" ∷ "finance.metrics" ∷ "finance.rank" ∷ []

-- `_binding_contract`
unfoldable pub binding_contract : List String → Json
binding_contract allowed_tools = object (
    ("mode", str "normalized_observation_references")
    ∷ ("tools", texts (keep (contains allowed_tools) observation_bound_tools))
    ∷ ("reference", object (("observation_id", str "<id from evidence_packet.observations>") ∷ []))
    ∷ (
      "rules",
      texts (
          "Never copy numeric facts from evidence into bound tool arguments."
          ∷ "Use observation_inputs for finance.metrics and finance.discounted_cash_flow."
          ∷ "Use observation references for calculate operands and forecast base_value."
          ∷ "The controller validates values, units, periods, context, and source_ids." ∷ []),
    )
    ∷ [])

abbrev pub dependency_sources : List String → Dict TaskOutcome → Result (List String)
dependency_sources [] outcomes = ok []
dependency_sources (d ∷ ds) outcomes = do
  outcome ← or_raise (lookup d outcomes) key_error
  rest ← dependency_sources ds outcomes
  ok (outcome.source_ids ++ rest)

-- `_task_source_ids`
unfoldable pub task_source_ids :
    TaskDefinition → Dict TaskOutcome → List String → Result (List String)
task_source_ids task outcomes direct_source_ids = do
  inherited ← dependency_sources task.depends_on outcomes
  ok (distinct_texts (direct_source_ids ++ inherited))

-- The entry "dependencies" of the first message.
abbrev pub dependency_reports : List String → Dict TaskOutcome → Result (Dict Json)
dependency_reports [] outcomes = ok []
dependency_reports (d ∷ ds) outcomes = do
  outcome ← or_raise (lookup d outcomes) key_error
  rest ← dependency_reports ds outcomes
  ok (
      (d, object (("status", str (status_value outcome.status)) ∷ ("output", outcome.output) ∷ []))
      ∷ rest)

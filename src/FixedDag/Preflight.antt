-- ===== src/FixedDag/Preflight.antt =====
-- fixed_dag.py: `_preflight_calls`, the checks on the tool calls of one action before any of them is
-- made, and `_validate_tool_result`.
use alpha_orchestration.Prelude.{
  String, Bool, true, false, ◌&&◌, ◌||◌, Option, none, some, List, [], ◌∷◌, ◌==◌, contains,
  if◌then◌else◌,
}
use alpha_orchestration.Prelude.Dict.{Dict, lookup}
use alpha_orchestration.Result.{Error, Result, ok, err, value_error, type_error, overflow_error}
use alpha_orchestration.Json.{Json, bool, obj}
use alpha_orchestration.Json.Equality.{json_eq}
use alpha_orchestration.Journal.Verifier.{all_finite, get}
use alpha_orchestration.Actions.{ProposedToolCall}
use alpha_orchestration.Schema.Validate.{validate_json}
use alpha_orchestration.FixedDag.{Surroundings, Bound, bound, unbound, broken, ◌>>=◌, ◌>>◌, demand}
use alpha_orchestration.FixedDag.Sources.{strict_source_ids, all_in}
use alpha_orchestration.FixedDag.ModelResult.{copied}
use alpha_orchestration.FixedDag.Records.{
  TaskEvidence, PreparedCall, ToolCall, ToolResult, object, observation_bound_tools,
}

-- `_json_copy` of the proposed arguments.
abbrev pub json_copy : Dict Json → Bound (Dict Json)
json_copy d = if all_finite (object d) then bound (copied d) else broken value_error

-- `contract.get("input_schema")` of a contract that may be missing.
abbrev pub input_schema : Option (Dict Json) → Bound Json
input_schema none = unbound "tool_contract_unavailable" false
input_schema (some contract) = elim (get contract "input_schema") [
  | obj fs ↦ bound (obj fs)
  | _ ↦ unbound "tool_contract_unavailable" false
]

-- `except (SchemaValidationError, ValueError, TypeError, OverflowError)`
abbrev pub is_schema_failure : Error → Bool
is_schema_failure value_error = true
is_schema_failure type_error = true
is_schema_failure overflow_error = true
is_schema_failure _ = false

abbrev pub of_schema : Result (Unit {0}) → Bound (Unit {0})
of_schema (ok u) = bound tt
of_schema (err e) = if is_schema_failure e then unbound "invalid_schema" true else broken e

-- The ok field of a tool's payload equals True or False.
abbrev pub is_ok_field : Json → Bool
is_ok_field v = json_eq v (bool true) || json_eq v (bool false)

-- `_validate_tool_result`
unfoldable pub validate_tool_result : ToolCall → ToolResult → List String → Bool
validate_tool_result call result allowed_sources =
    result.call_id == call.call_id
    && all_in allowed_sources result.source_ids
    && is_ok_field (get result.payload "ok")
    && all_finite (object result.payload)

module _ (around : Surroundings) (allowed_tools allowed_sources : List String)
    (contracts : Dict (Dict Json)) (evidence : TaskEvidence) where
  -- The arguments that the tool gets, and the bindings.
  unfoldable pub bind_arguments : String → Dict Json → Bound (Dict Json × Dict Json)
  bind_arguments name proposed =
      if contains observation_bound_tools name
      then (elim evidence.packet [
        | none ↦ unbound "normalized_evidence_required" false
        | some packet ↦ around.bind_finance_arguments name proposed packet
      ])
      else bound (proposed, [])

  -- The body of the loop of `_preflight_calls`.
  unfoldable pub preflight_call : ProposedToolCall → Bound PreparedCall
  unfolding bind_arguments
  preflight_call proposal = do
    demand (contains allowed_tools proposal.name) "tool_not_allowed"
    proposed ← json_copy proposal.arguments
    proposed_sources ← strict_source_ids proposed
    demand (all_in allowed_sources proposed_sources) "source_not_allowed"
    prepared ← bind_arguments proposal.name proposed
    canonical_sources ← strict_source_ids (prepared.0)
    demand (all_in allowed_sources canonical_sources) "source_not_allowed"
    schema ← input_schema (lookup proposal.name contracts)
    of_schema (validate_json around.repr (object (prepared.0)) schema)
    bound (record {
      name = proposal.name;
      proposed_arguments = proposed;
      arguments = prepared.0;
      observation_bindings = prepared.1;
    })

  -- `_preflight_calls`
  unfoldable pub preflight_calls : List ProposedToolCall → Bound (List PreparedCall)
  unfolding preflight_call
  preflight_calls [] = bound []
  preflight_calls (proposal ∷ rest) = do
    prepared ← preflight_call proposal
    others ← preflight_calls rest
    bound (prepared ∷ others)

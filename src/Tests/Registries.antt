-- ===== src/Tests/Registries.antt =====
-- Witnesses on a registry of one tool.
use alpha_orchestration.Prelude.{◌≡◌, refl, true, false, none, some, [], ◌∷◌}
use alpha_orchestration.Prelude.Dict.{lookup}
use alpha_orchestration.Result.{ok}
use alpha_orchestration.Json.{bool, str, arr, items}
use alpha_orchestration.FixedDag.Records.{ToolCall, ToolResult, object}
use alpha_orchestration.FixedDag.Preflight.{validate_tool_result}
use alpha_orchestration.Tools.{
  ToolDefinition, ToolRegistry, handled, execute, execute_cached, execute_once, execute_defined,
  checked_call, run_handler, take_handled, bounded_result, source_ids, call_fingerprint,
}
use alpha_orchestration.Tools.Scope.{
  ScopedToolExecutor, scoped_execute, execute_within, unknown_sources,
}
use alpha_orchestration.Tools.Valid.{scoped_execute-IsValid}
use alpha_orchestration.Tests.Workers.{surroundings, steps}

abbrev quote : ToolDefinition
quote = record {
  name = "quote";
  description = "A price";
  input_schema = ("type", str "object") ∷ [];
  handler = λ arguments. handled (("price", str "10") ∷ []);
  version = "1.0.0";
  read_only = true;
  idempotent = true;
}

abbrev registry : ToolRegistry
registry = record { definitions = ("quote", quote) ∷ []; cache = []; max_result_bytes = 256000 }

abbrev quote_call : ToolCall
quote_call = record {
  name = "quote";
  arguments = ("source_ids", arr (items (str "s1" ∷ []))) ∷ [];
  call_id = "run-1:screen:t1:c0";
}

abbrev other_call : ToolCall
other_call = record { name = "news"; arguments = []; call_id = "run-1:screen:t1:c0" }

abbrev quoted : ToolResult
quoted = record {
  call_id = "run-1:screen:t1:c0";
  payload =
      ("ok", bool true) ∷ ("tool", str "quote") ∷ ("data", object (("price", str "10") ∷ [])) ∷ [];
  source_ids = "s1" ∷ [];
  retryable = false;
}

abbrev registry_after : ToolRegistry
registry_after = (execute surroundings registry quote_call).1

abbrev scope : ScopedToolExecutor
scope = record { names = "quote" ∷ []; allowed_source_ids = some ("s1" ∷ []) }

nothing_cached : lookup "run-1:screen:t1:c0" registry.cache ≡ none
unfolding lookup
nothing_cached = refl

scoped_returns : (scoped_execute surroundings scope registry quote_call).0 ≡ ok quoted
unfolding scoped_execute execute_within unknown_sources execute execute_cached execute_once
    execute_defined checked_call run_handler take_handled bounded_result source_ids call_fingerprint
    steps
scoped_returns = refl

scoped_execute-IsValid_example : validate_tool_result quote_call quoted ("s1" ∷ []) ≡ true
scoped_execute-IsValid_example =
    scoped_execute-IsValid surroundings quote_call ("s1" ∷ []) scope registry quoted refl
      nothing_cached scoped_returns

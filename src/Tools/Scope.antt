-- ===== src/Tools/Scope.antt =====
-- tools/registry.py: `ScopedToolExecutor`, the view of a registry that one task gets.
use Prim.Native.String.{◌++◌ as ◌+++◌}
use alpha_orchestration.Prelude.{
  String, not, Option, none, some, List, [], ◌∷◌, keep, contains, if◌then◌else◌,
}
use alpha_orchestration.Prelude.Dict.{lookup}
use alpha_orchestration.Result.{◌>>=◌, Result, ok}
use alpha_orchestration.Json.{Json, arr, elements}
use alpha_orchestration.Dag.{texts}
use alpha_orchestration.FixedDag.{Surroundings}
use alpha_orchestration.FixedDag.Sources.{distinct_texts}
use alpha_orchestration.FixedDag.Records.{ToolCall, ToolResult}
use alpha_orchestration.Tools.{contracts, ToolRegistry, sorted_texts, all_texts, failure, execute}

pub record ScopedToolExecutor : Type 0 where
  pub names : List String
  pub allowed_source_ids : Option (List String)

-- `ScopedToolExecutor(registry, allowed_tools, allowed_source_ids=…)`
unfoldable pub make_scope :
    ToolRegistry → List String → Option (List String) → Result ScopedToolExecutor
make_scope r allowed_tools allowed_source_ids = do
  let names = sorted_texts (distinct_texts allowed_tools)
  listed ← contracts r names
  ok (record { names = names; allowed_source_ids = allowed_source_ids })

-- `unknown_source_ids`; empty also where "source_ids" is missing or no list of texts.
unfoldable pub unknown_sources : List String → Option Json → List String
unknown_sources allowed (some (arr xs)) = elim (all_texts (elements xs)) [
  | none ↦ []
  | some names ↦ sorted_texts (distinct_texts (keep (λ s. not (contains allowed s)) names))
]
unknown_sources allowed _ = []

abbrev pub outside : Option (List String) → ToolCall → List String
outside none call = []
outside (some allowed) call = unknown_sources allowed (lookup "source_ids" call.arguments)

module _ (around : Surroundings) where
  unfoldable pub execute_within :
      ToolRegistry → ToolCall → List String → Result ToolResult × ToolRegistry
  unfolding execute
  execute_within r call [] = execute around r call
  execute_within r call (s ∷ rest) = (
    ok (
        failure call "source_not_allowed"
          "one or more source_ids are outside the trusted evidence set"
          (("unknown_source_ids", texts (s ∷ rest)) ∷ [])),
    r,
  )

  -- `ScopedToolExecutor.execute`
  unfoldable pub scoped_execute :
      ScopedToolExecutor → ToolRegistry → ToolCall → Result ToolResult × ToolRegistry
  unfolding execute_within unknown_sources
  scoped_execute scope r call =
      if contains scope.names call.name
      then execute_within r call (outside scope.allowed_source_ids call)
      else (
        ok (
            failure call "tool_not_allowed" ("tool is not allowed in this scope: " +++ call.name)
              (("allowed_tools", texts scope.names) ∷ [])),
        r,
      )

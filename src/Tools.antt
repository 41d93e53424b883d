-- ===== src/Tools.antt =====
-- tools/registry.py: the definitions of tools, and the registry that validates, executes and replays
-- calls. A handler is a function of its arguments; the lock makes each `execute` one step.
pub mod Scope
pub mod Replay
pub mod Valid
use Prim.Native.String.{◌++◌ as ◌+++◌}
use alpha_orchestration.Prelude.{
  ◌≡◌, ℕ, String, Bool, true, false, not, ◌&&◌, Option, none, some, List, [], ◌∷◌, ◌==◌, leb,
  if◌then◌else◌,
}
use alpha_orchestration.Prelude.Dict.{Dict, lookup, insert, has_key, keys}
use alpha_orchestration.Prelude.Text.{strip, is_empty}
use alpha_orchestration.Result.{
  Error, Result, ok, err, guard, ◌>>=◌, ◌>>◌, value_error, overflow_error, or_raise,
}
use alpha_orchestration.Json.{Json, null, bool, str, arr, obj, elements, entries, fields}
use alpha_orchestration.Json.Equality.{json_eq}
use alpha_orchestration.Json.Sorted.{sort_fields, text_leb}
use alpha_orchestration.Journal.Verifier.{all_finite, get}
use alpha_orchestration.Domain.Candidate.{has_text}
use alpha_orchestration.Schema.{validate_schema}
use alpha_orchestration.Schema.Validate.{validate_json}
use alpha_orchestration.Dag.{texts, number}
use alpha_orchestration.FixedDag.{Surroundings}
use alpha_orchestration.FixedDag.Records.{ToolCall, ToolResult, object}

-- The classes of exceptions that `_execute_once` tells apart; the last is every other one.
pub data Refusal : Type 0 where
  schema_refusal value_refusal arithmetic_refusal other_refusal : Refusal

-- What a handler returned or raised, with the text of the exception.
pub data Handled : Type 0 where
  handled : Dict Json → Handled
  handler_raised : Refusal → String → Handled

pub record ToolDefinition : Type 0 where
  pub name : String
  pub description : String
  pub input_schema : Dict Json
  pub handler : Dict Json → Handled
  pub version : String
  pub read_only : Bool
  pub idempotent : Bool

pub record ToolRegistry : Type 0 where
  pub definitions : Dict ToolDefinition
  pub cache : Dict (String × ToolResult)
  pub max_result_bytes : ℕ

-- The copy of `input_schema` in `ToolDefinition.__post_init__`.
abbrev strict_object : Json → Result (Dict Json)
strict_object (obj fs) = do guard (all_finite (obj fs)) value_error; ok (entries (sort_fields fs))
strict_object _ = err value_error

-- `ToolDefinition(…)`, where `input_schema` is anything.
unfoldable pub make_definition : Json → ToolDefinition → Result ToolDefinition
make_definition any_schema definition = do
  decoded ← strict_object any_schema
  guard (json_eq (get decoded "type") (str "object")) value_error
  validate_schema (object decoded)
  ok (record definition { input_schema = decoded })

-- `public_contract`
unfoldable pub public_contract : ToolDefinition → Dict Json
public_contract d =
    ("name", str d.name)
    ∷ ("version", str d.version)
    ∷ ("description", str d.description)
    ∷ ("input_schema", object d.input_schema)
    ∷ (
      "annotations",
      object (("read_only", bool d.read_only) ∷ ("idempotent", bool d.idempotent) ∷ []),
    )
    ∷ []

-- `register`
unfoldable pub register : ToolDefinition → ToolRegistry → Result ToolRegistry
register definition r = do
  guard (has_text definition.name && strip definition.name == definition.name) value_error
  guard (not (has_key definition.name r.definitions)) value_error
  guard (json_eq (get definition.input_schema "type") (str "object")) value_error
  ok (record r { definitions = insert definition.name definition r.definitions })

abbrev pub register_all : List ToolDefinition → ToolRegistry → Result ToolRegistry
register_all [] r = ok r
register_all (d ∷ ds) r = register d r >>= λ s. register_all ds s

-- `ToolRegistry(definitions, max_result_bytes=…)`
unfoldable pub make_registry : List ToolDefinition → ℕ → Result ToolRegistry
unfolding register
make_registry definitions max_result_bytes = do
  guard (leb 1024 max_result_bytes) value_error
  register_all definitions
      (record { definitions = []; cache = []; max_result_bytes = max_result_bytes })

-- `sorted(names)`
abbrev pub place_text : String → List String → List String
place_text s [] = s ∷ []
place_text s (t ∷ rest) =
    let later = place_text s rest in if text_leb s t then s ∷ t ∷ rest else t ∷ later

abbrev pub sorted_texts : List String → List String
sorted_texts [] = []
sorted_texts (s ∷ rest) = place_text s (sorted_texts rest)

-- `names`
abbrev pub registered_names : ToolRegistry → List String
registered_names r = sorted_texts (keys r.definitions)

-- `contracts`, for the given names.
unfoldable pub contracts : ToolRegistry → List String → Result (List (Dict Json))
unfolding public_contract
contracts r [] = ok []
contracts r (name ∷ rest) = do
  definition ← or_raise (lookup name r.definitions) value_error
  others ← contracts r rest
  ok (public_contract definition ∷ others)

-- `_failure`; no details are an empty dictionary.
unfoldable pub failure : ToolCall → String → String → Dict Json → ToolResult
failure call code message details = record {
  call_id = call.call_id;
  payload =
      ("ok", bool false)
      ∷ ("tool", str call.name)
      ∷ (
        "error",
        object (
            ("code", str code)
            ∷ ("message", str message)
            ∷ elim details [ [] ↦ [] | d ∷ ds ↦ ("details", object (d ∷ ds)) ∷ [] ]),
      )
      ∷ [];
  source_ids = [];
  retryable = false;
}

-- `arguments.pop(key)`
abbrev pub without : String → Dict Json → Dict Json
without key [] = []
without key ((here, value) ∷ rest) =
    let others = without key rest in if here == key then others else (here, value) ∷ others

abbrev pub all_texts : List Json → Option (List String)
all_texts [] = some []
all_texts (str s ∷ vs) = elim (all_texts vs) [ none ↦ none | some rest ↦ some (s ∷ rest) ]
all_texts (v ∷ vs) = none

-- `_source_ids(arguments.pop("source_ids", []))`; none is a ToolInputError.
unfoldable pub source_ids : Option Json → Option (List String)
source_ids none = some []
source_ids (some (arr xs)) = all_texts (elements xs)
source_ids (some _) = none

module _ (around : Surroundings) where
  -- `_call_fingerprint`
  unfoldable pub call_fingerprint : ToolCall → String
  call_fingerprint call =
      let value = object (("name", str call.name) ∷ ("arguments", object call.arguments) ∷ []) in
      if all_finite value
      then around.hashing.digest value
      else around.hashing.text_digest (
          "invalid:"
          +++ call.name
          +++ ":"
          +++ around.wording "not_strict_json"
          +++ ":"
          +++ around.repr (object call.arguments))

  abbrev phase : String → Dict Json
  phase name = ("phase", str name) ∷ []

  -- The `except` clauses of `_execute_once`; another exception passes through as `runtime_error`.
  unfoldable pub of_refusal : ToolCall → Refusal → String → Result ToolResult
  of_refusal call schema_refusal text = ok (failure call "invalid_schema" text (phase "schema"))
  of_refusal call value_refusal text = ok (failure call "invalid_arguments" text (phase "semantic"))
  of_refusal call arithmetic_refusal text = ok (failure call "calculation_error" text [])
  of_refusal call other_refusal text = err Error.runtime_error

  -- The payload of a handler's data, checked and measured.
  unfoldable pub bounded_result : ℕ → ToolCall → List String → Dict Json → Result ToolResult
  unfolding of_refusal
  bounded_result max_result_bytes call sources content =
      let payload = ("ok", bool true) ∷ ("tool", str call.name) ∷ ("data", object content) ∷ [] in
      if not (all_finite (object payload))
      then of_refusal call value_refusal (around.wording "not_strict_json")
      else if not (leb (around.canonical_size (object payload)) max_result_bytes)
      then ok (
          failure call "result_too_large"
            ("tool result exceeds " +++ around.py.text_of (number max_result_bytes) +++ " bytes")
            [])
      else ok (record {
        call_id = call.call_id;
        payload = payload;
        source_ids = sources;
        retryable = false;
      })

  unfoldable pub take_handled : ℕ → ToolCall → List String → Handled → Result ToolResult
  unfolding bounded_result of_refusal
  take_handled max_result_bytes call sources (handled content) =
      bounded_result max_result_bytes call sources content
  take_handled max_result_bytes call sources (handler_raised refusal text) =
      of_refusal call refusal text

  -- The call of the handler, once the sources of the arguments were read.
  unfoldable pub run_handler :
      ℕ → ToolDefinition → ToolCall → Option (List String) → Result ToolResult
  unfolding take_handled of_refusal
  run_handler max_result_bytes definition call none =
      of_refusal call value_refusal "source_ids must be an array of strings"
  run_handler max_result_bytes definition call (some sources) =
      take_handled max_result_bytes call sources
        (definition.handler (without "source_ids" call.arguments))

  -- From the result of `validate_json`.
  unfoldable pub checked_call :
      ℕ → ToolDefinition → ToolCall → Result (Unit {0}) → Result ToolResult
  unfolding run_handler of_refusal source_ids
  checked_call max_result_bytes definition call (err value_error) =
      of_refusal call schema_refusal (around.wording "invalid_schema")
  checked_call max_result_bytes definition call (err overflow_error) =
      of_refusal call arithmetic_refusal (around.wording "calculation_error")
  checked_call max_result_bytes definition call (err e) = err e
  checked_call max_result_bytes definition call (ok u) =
      run_handler max_result_bytes definition call (source_ids (lookup "source_ids" call.arguments))

  -- `_execute_once`, from what `self._definitions.get(call.name)` found.
  unfoldable pub execute_defined :
      ToolRegistry → ToolCall → Option ToolDefinition → Result ToolResult
  unfolding checked_call
  execute_defined r call none = ok (
      failure call "unknown_tool" ("tool is not registered: " +++ call.name)
        (("allowed_tools", texts (registered_names r)) ∷ []))
  execute_defined r call (some definition) =
      checked_call r.max_result_bytes definition call
        (validate_json around.repr (object call.arguments) (object definition.input_schema))

  -- `_execute_once`
  unfoldable pub execute_once : ToolRegistry → ToolCall → Result ToolResult
  unfolding execute_defined
  execute_once r call =
      if not (has_text call.call_id)
      then ok (failure call "invalid_call_id" "call_id must not be empty" [])
      else execute_defined r call (lookup call.name r.definitions)

  -- An exception leaves the cache as it was.
  abbrev pub remember :
      ToolRegistry → ToolCall → Result ToolResult → Result ToolResult × ToolRegistry
  remember r call (err e) = (err e, r)
  remember r call (ok result) =
      (ok result, record r { cache = insert call.call_id (call_fingerprint call, result) r.cache })

  -- `execute`, from what `self._cache.get(call.call_id)` found.
  unfoldable pub execute_cached :
      ToolRegistry → ToolCall → Option (String × ToolResult) → Result ToolResult × ToolRegistry
  unfolding execute_once call_fingerprint
  execute_cached r call none = remember r call (execute_once r call)
  execute_cached r call (some (prior, result)) =
      if prior == call_fingerprint call then (ok result, r) else (
        ok (
            failure call "call_id_conflict" "call_id was already used with different tool arguments"
              []),
        r,
      )

  -- `ToolRegistry.execute`
  unfoldable pub execute : ToolRegistry → ToolCall → Result ToolResult × ToolRegistry
  unfolding execute_cached
  execute r call = execute_cached r call (lookup call.call_id r.cache)

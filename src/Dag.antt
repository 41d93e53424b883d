-- ===== src/Dag.antt =====
-- dag.py: `TaskDefinition`, one task of a controller-authored workflow and the limits of its policy.
pub mod Readers
pub mod Policy
use alpha_orchestration.Prelude.{
  ℕ, suc, zero, String, Bool, true, false, not, ◌&&◌, ◌||◌, Option, none, some, List, [], ◌∷◌, ◌==◌,
  leb, ltb, eqb, all, length, if◌then◌else◌, contains, all_unique, map,
}
use alpha_orchestration.Prelude.Int.{ℤ, pos}
use alpha_orchestration.Prelude.Dict.{Dict, lookup}
use alpha_orchestration.Prelude.Text.{is_empty, text_length, strip}
use alpha_orchestration.Result.{Error, Result, ok, err, value_error}
use alpha_orchestration.Json.{
  Json, null, bool, int, float, str, arr, obj, elements, entries, items, fields,
}
use alpha_orchestration.Json.Equality.{json_eq}
use alpha_orchestration.Json.Sorted.{sort_fields}
use alpha_orchestration.Journal.Verifier.{all_finite}
use alpha_orchestration.Schema.{validate_schema}

abbrev max_dependencies : ℕ
max_dependencies = 64

abbrev max_allowed_tools : ℕ
max_allowed_tools = 32

abbrev max_turns_limit : ℕ
max_turns_limit = 16

abbrev max_tool_calls_limit : ℕ
max_tool_calls_limit = 64

abbrev max_calls_per_turn_limit : ℕ
max_calls_per_turn_limit = 8

abbrev max_new_tokens_limit : ℕ
max_new_tokens_limit = 4096

abbrev min_action_bytes : ℕ
min_action_bytes = 128

abbrev max_action_bytes_limit : ℕ
max_action_bytes_limit = 262144

abbrev max_repair_budget : ℕ
max_repair_budget = 1

pub data DagErrorCode : Type 0 where
  invalid_field duplicate_task unknown_dependency dependency_cycle unknown_tool tool_not_read_only :
      DagErrorCode

-- A value, a `DagValidationError` with its code, or another exception that passes through.
pub data Checked {ℓ} (A : Type ℓ) : Type ℓ where
  valid : A → Checked A
  invalid : DagErrorCode → Checked A
  raised : Error → Checked A

infixl 5 ◌>>=◌ ◌>>◌
abbrev pub ◌>>=◌ {ℓ κ} : {A : Type ℓ} {B : Type κ} → Checked A → (A → Checked B) → Checked B
valid a >>= f = f a
invalid code >>= f = invalid code
raised e >>= f = raised e

abbrev pub ◌>>◌ {ℓ} : {B : Type ℓ} → Checked (Unit {0}) → Checked B → Checked B
m >> k = m >>= λ _. k

-- `if not test: raise DagValidationError(code, …)`
abbrev pub insist : Bool → DagErrorCode → Checked (Unit {0})
insist true code = valid tt
insist false code = invalid code

-- The arguments of the constructor, before any check.
pub record TaskArguments : Type 0 where
  pub task_id : Json
  pub agent_id : Json
  pub depends_on : Json
  pub allowed_tools : Json
  pub prompt_key : Json
  pub output_schema : Json
  pub required : Json
  pub allow_failed_dependencies : Json
  pub max_turns : Json
  pub max_tool_calls : Json
  pub max_calls_per_turn : Json
  pub max_new_tokens : Json
  pub max_action_bytes : Json
  pub repair_budget : Json

pub record TaskDefinition : Type 0 where
  pub task_id : String
  pub agent_id : String
  pub depends_on : List String
  pub allowed_tools : List String
  pub prompt_key : String
  pub output_schema : Dict Json
  pub required : Bool
  pub allow_failed_dependencies : Bool
  pub max_turns : ℕ
  pub max_tool_calls : ℕ
  pub max_calls_per_turn : ℕ
  pub max_new_tokens : ℕ
  pub max_action_bytes : ℕ
  pub repair_budget : ℕ

-- The test of `_validate_name`.
abbrev pub is_name : ℕ → String → Bool
is_name maximum s = not (is_empty s) && s == strip s && leb (text_length s) maximum

-- `_validate_name`
unfoldable pub validate_name : ℕ → Json → Checked String
validate_name maximum (str s) = do insist (is_name maximum s) invalid_field; valid s
validate_name maximum _ = invalid invalid_field

abbrev pub as_flag : Json → Checked Bool
as_flag (bool b) = valid b
as_flag _ = invalid invalid_field

abbrev pub as_text : Json → Checked String
as_text (str s) = valid s
as_text _ = invalid invalid_field

abbrev pub as_texts : List Json → Checked (List String)
as_texts [] = valid []
as_texts (v ∷ vs) = do s ← as_text v; rest ← as_texts vs; valid (s ∷ rest)

-- `_string_tuple`
unfoldable pub string_tuple : ℕ → Json → Checked (List String)
string_tuple maximum (arr xs) = do
  insist (leb (length (elements xs)) maximum) invalid_field
  as_texts (elements xs)
string_tuple maximum _ = invalid invalid_field

-- `_bounded_int`, for limits that are natural numbers.
unfoldable pub bounded_int : ℕ → ℕ → Json → Checked ℕ
bounded_int minimum maximum (int (pos n)) = do
  insist (leb minimum n && leb n maximum) invalid_field
  valid n
bounded_int minimum maximum _ = invalid invalid_field

-- `validate_schema`, whose SchemaValidationError becomes a DagValidationError.
unfoldable pub of_schema_check : Result (Unit {0}) → Checked (Unit {0})
of_schema_check (ok u) = valid u
of_schema_check (err value_error) = invalid invalid_field
of_schema_check (err e) = raised e

-- `_canonical_object`
unfoldable pub canonical_object : Json → Checked (Dict Json)
canonical_object (obj fs) = do
  insist (all_finite (obj fs)) invalid_field
  valid (entries (sort_fields fs))
canonical_object _ = invalid invalid_field

abbrev pub is_object_type : Option Json → Bool
is_object_type none = false
is_object_type (some v) = json_eq v (str "object")

-- The check of `output_schema`.
unfoldable pub read_schema : Json → Checked (Dict Json)
unfolding canonical_object
read_schema value = do
  schema ← canonical_object value
  of_schema_check (validate_schema (obj (fields schema)))
  insist (is_object_type (lookup "type" schema)) invalid_field
  valid schema

-- `TaskDefinition.__post_init__`
unfoldable pub make_task : TaskArguments → Checked TaskDefinition
make_task a = do
  task_id ← validate_name 200 a.task_id
  agent_id ← validate_name 200 a.agent_id
  prompt_key ← validate_name 200 a.prompt_key
  required ← as_flag a.required
  allow_failed_dependencies ← as_flag a.allow_failed_dependencies
  depends_on ← string_tuple max_dependencies a.depends_on
  allowed_tools ← string_tuple max_allowed_tools a.allowed_tools
  insist (not (contains depends_on task_id)) dependency_cycle
  insist (all (is_name 200) depends_on) invalid_field
  insist (all (is_name 200) allowed_tools) invalid_field
  insist (all_unique depends_on) invalid_field
  insist (all_unique allowed_tools) invalid_field
  max_turns ← bounded_int 1 max_turns_limit a.max_turns
  max_tool_calls ← bounded_int 0 max_tool_calls_limit a.max_tool_calls
  max_calls_per_turn ← bounded_int 1 max_calls_per_turn_limit a.max_calls_per_turn
  max_new_tokens ← bounded_int 1 max_new_tokens_limit a.max_new_tokens
  max_action_bytes ← bounded_int min_action_bytes max_action_bytes_limit a.max_action_bytes
  repair_budget ← bounded_int 0 max_repair_budget a.repair_budget
  insist (eqb max_tool_calls 0 || leb max_calls_per_turn max_tool_calls) invalid_field
  insist (eqb (length allowed_tools) 0 || ltb 0 max_tool_calls) invalid_field
  output_schema ← read_schema a.output_schema
  valid record {
    task_id = task_id;
    agent_id = agent_id;
    depends_on = depends_on;
    allowed_tools = allowed_tools;
    prompt_key = prompt_key;
    output_schema = output_schema;
    required = required;
    allow_failed_dependencies = allow_failed_dependencies;
    max_turns = max_turns;
    max_tool_calls = max_tool_calls;
    max_calls_per_turn = max_calls_per_turn;
    max_new_tokens = max_new_tokens;
    max_action_bytes = max_action_bytes;
    repair_budget = repair_budget;
  }

abbrev pub texts : List String → Json
texts ss = arr (items (map str ss))

abbrev pub number : ℕ → Json
number n = int (pos n)

-- `TaskDefinition.to_dict`
unfoldable pub task_to_dict : TaskDefinition → Dict Json
task_to_dict t =
    ("task_id", str t.task_id)
    ∷ ("agent_id", str t.agent_id)
    ∷ ("depends_on", texts t.depends_on)
    ∷ ("allowed_tools", texts t.allowed_tools)
    ∷ ("prompt_key", str t.prompt_key)
    ∷ ("output_schema", obj (fields t.output_schema))
    ∷ ("required", bool t.required)
    ∷ ("allow_failed_dependencies", bool t.allow_failed_dependencies)
    ∷ ("max_turns", number t.max_turns)
    ∷ ("max_tool_calls", number t.max_tool_calls)
    ∷ ("max_calls_per_turn", number t.max_calls_per_turn)
    ∷ ("max_new_tokens", number t.max_new_tokens)
    ∷ ("max_action_bytes", number t.max_action_bytes)
    ∷ ("repair_budget", number t.repair_budget)
    ∷ []

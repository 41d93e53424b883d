-- ===== src/Tests/Models.antt =====
-- Witnesses on what a model proposes and on what a workflow author declares.
use alpha_orchestration.Prelude.{
  ◌≡◌, refl, sym, String, true, false, Option, some, [], ◌∷◌, ◌⊎◌, inl, inr,
}
use alpha_orchestration.Prelude.Int.{pos}
use alpha_orchestration.Prelude.Dict.{Dict, lookup, insert}
use alpha_orchestration.Prelude.Text.{strip}
use alpha_orchestration.Result.{ok, err, value_error, type_error}
use alpha_orchestration.Json.{Json, null, bool, int, str, arr, obj, nil, cons, end, items, fields}
use alpha_orchestration.Journal.Verifier.{all_finite}
use alpha_orchestration.Actions.{
  Hook, LoadError, Loaded, loaded, failed, Decoder, AgentAction, tool_calls_action, read, refused,
  unique_from, require_object, require_exact_keys, parse_call, parse_calls, parse_tool_calls,
  parse_envelope, parse_action, action_too_large, duplicate_key,
}
use alpha_orchestration.Actions.Keys.{Decodes, IsHooked}
use alpha_orchestration.Actions.Accepted.{IsAllowed, parse_action-IsAllowed}
use alpha_orchestration.Actions.Repair.{can_repair, parse_action-IsFlagged}
use alpha_orchestration.Schema.{
  check_type, check_required, check_bounds, check_keywords, check_any_of, check_properties,
  check_additional, check_items, check_schema, validate_within, value_size, validate_schema,
}
use alpha_orchestration.Schema.Total.{validate_schema-raises}
use alpha_orchestration.Schema.Validate.{
  validate_json, test_json, test_any_of, test_enum, test_type, test_value, test_number, test_limit,
}
use alpha_orchestration.Schema.Sound.{validate_json-raises}
use alpha_orchestration.Dag.{
  TaskArguments, TaskDefinition, valid, validate_name, string_tuple, bounded_int, of_schema_check,
  canonical_object, read_schema, make_task,
}
use alpha_orchestration.Dag.Policy.{IsWithinPolicy, make_task-IsWithinPolicy}
use alpha_orchestration.Json.Sorted.{sort_fields}
use alpha_orchestration.Json.Equality.{json_eq}

abbrev hooked : LoadError ⊎ Dict Json → (Json → Loaded) → Loaded
hooked (inl e) k = failed e
hooked (inr m) k = k (obj (fields m))

-- A decoder that reads every text as one call of the tool "quote", through the hook.
abbrev one_call : Decoder
one_call = record {
  encoded_size = λ raw. some 120;
  loads = λ hook raw. hooked (hook (("ticker", str "NVDA") ∷ [])) λ arguments.
      hooked (hook (("name", str "quote") ∷ ("arguments", arguments) ∷ [])) λ call.
        hooked (hook (("kind", str "tool_calls") ∷ ("calls", arr (items (call ∷ []))) ∷ [])) loaded;
}

abbrev quote_action : AgentAction
quote_action =
    tool_calls_action (record { name = "quote"; arguments = ("ticker", str "NVDA") ∷ [] } ∷ [])

abbrev quote_arguments : Json
quote_arguments = obj (fields (("ticker", str "NVDA") ∷ []))

abbrev quote_call : Json
quote_call = obj (fields (("name", str "quote") ∷ ("arguments", quote_arguments) ∷ []))

abbrev quote_envelope : Json
quote_envelope =
    obj (fields (("kind", str "tool_calls") ∷ ("calls", arr (items (quote_call ∷ []))) ∷ []))

loaded-injective : (v w : Json) → loaded v ≡ loaded w → v ≡ w
loaded-injective v w h = cc

-- What every text writes, for this decoder.
abbrev quotes : String → Option Json
quotes raw = some quote_envelope

hooked-inverts :
    (r : LoadError ⊎ Dict Json) (k : Json → Loaded) (v : Json)
    → hooked r k ≡ loaded v
    → (m : Dict Json) × (r ≡ inr m) × (k (obj (fields m)) ≡ loaded v)
hooked-inverts (inl e) k v h = absurd cc
hooked-inverts (inr m) k v h = (m, refl, h)

one_call-Decodes :
    (hook : Hook) (raw : String) (v : Json)
    → one_call.loads hook raw ≡ loaded v
    → (t : Json) × (quotes raw ≡ some t) × Decodes hook t v
unfolding Decodes
one_call-Decodes hook raw v h =
    let (arguments, e0, h0) = hooked-inverts (hook (("ticker", str "NVDA") ∷ [])) _ v h in
    let a = obj (fields arguments) in
    let (call, e1, h1) =
      hooked-inverts (hook (("name", str "quote") ∷ ("arguments", a) ∷ [])) _ v h0 in
    let c = obj (fields call) in
    let (envelope, e2, h2) =
      hooked-inverts (hook (("kind", str "tool_calls") ∷ ("calls", arr (items (c ∷ []))) ∷ [])) _ v
        h1 in
    let ticker = fields (("ticker", str "NVDA") ∷ []) in
    let named = fields (("name", str "quote") ∷ ("arguments", a) ∷ []) in
    let kinded = fields (("kind", str "tool_calls") ∷ ("calls", arr (items (c ∷ []))) ∷ []) in
    let a_read : Decodes hook quote_arguments a =
      (ticker, (str "NVDA", end, refl, refl, refl), (arguments, e0, refl)) in
    let c_read : Decodes hook quote_call c =
      (named, (str "quote", _, refl, refl, (a, end, refl, a_read, refl)), (call, e1, refl)) in
    let e_read : Decodes hook quote_envelope v = (
      kinded,
      (
        str "tool_calls",
        _,
        refl,
        refl,
        (arr (items (c ∷ [])), end, refl, (cons c nil, refl, (c, nil, refl, c_read, refl)), refl),
      ),
      (envelope, e2, sym (loaded-injective _ v h2)),
    ) in
    (quote_envelope, refl, e_read)

one_call-IsHooked : IsHooked one_call quotes
one_call-IsHooked = record { decodes = one_call-Decodes }

one_call_read : parse_action one_call 32768 4 (str "one call") ≡ read quote_action
unfolding unique_from insert lookup all_finite require_object require_exact_keys parse_call
    parse_calls parse_tool_calls parse_envelope parse_action strip
one_call_read = refl

parse_action-IsAllowed_example : IsAllowed one_call quotes 32768 4 "one call" quote_action
parse_action-IsAllowed_example =
    parse_action-IsAllowed one_call quotes 32768 4 "one call" quote_action one_call-IsHooked
      one_call_read

-- The decoder of a text that writes one key twice, through the hook.
abbrev twice : Decoder
twice = record {
  encoded_size = λ raw. some 40;
  loads = λ hook raw. hooked (hook (("kind", str "final") ∷ ("kind", str "final") ∷ [])) loaded;
}

repeated_refused : parse_action twice 32768 4 (str "kind twice") ≡ refused duplicate_key true
unfolding unique_from insert lookup parse_action
repeated_refused = refl

too_large_refused : parse_action one_call 100 4 (str "one call") ≡ refused action_too_large false
unfolding parse_action
too_large_refused = refl

parse_action-IsFlagged_example : false ≡ can_repair action_too_large
parse_action-IsFlagged_example =
    parse_action-IsFlagged one_call 100 4 (str "one call") action_too_large false too_large_refused

-- A lower bound of `None` has no order.
abbrev unordered : Json
unordered = obj (fields (("minItems", null) ∷ ("maxItems", int (pos 3)) ∷ []))

unordered_raises : validate_schema unordered ≡ err type_error
unfolding check_type check_required check_bounds check_keywords check_any_of check_properties
    check_additional check_items check_schema validate_within value_size validate_schema lookup
unordered_raises = refl

validate_schema-raises_example : (type_error ≡ value_error) ⊎ (type_error ≡ type_error)
validate_schema-raises_example = validate_schema-raises unordered type_error unordered_raises

-- The check on schemas lets a limit of `None` pass, and the comparison with it raises.
abbrev unlimited : Json
unlimited = obj (fields (("minimum", null) ∷ []))

unlimited_passes : validate_schema unlimited ≡ ok tt
unfolding check_type check_required check_bounds check_keywords check_any_of check_properties
    check_additional check_items check_schema validate_within value_size validate_schema lookup
unlimited_passes = refl

unlimited_raises : validate_json (λ v. "3") (int (pos 3)) unlimited ≡ err type_error
unfolding value_size validate_json lookup test_json test_any_of test_enum test_type test_value
    test_number test_limit
unlimited_raises = refl

validate_json-raises_example : (type_error ≡ value_error) ⊎ (type_error ≡ type_error)
validate_json-raises_example =
    validate_json-raises (λ v. "3") unlimited (int (pos 3)) type_error unlimited_passes
      unlimited_raises

abbrev quote_schema : Dict Json
quote_schema =
    ("additionalProperties", bool false)
    ∷ ("properties", obj (fields []))
    ∷ ("type", str "object")
    ∷ []

abbrev quote_task : TaskArguments
quote_task = record {
  task_id = str "quote";
  agent_id = str "analyst";
  depends_on = arr (items (str "plan" ∷ []));
  allowed_tools = arr (items (str "quote" ∷ []));
  prompt_key = str "default";
  output_schema = obj (fields quote_schema);
  required = bool true;
  allow_failed_dependencies = bool false;
  max_turns = int (pos 4);
  max_tool_calls = int (pos 8);
  max_calls_per_turn = int (pos 4);
  max_new_tokens = int (pos 512);
  max_action_bytes = int (pos 32768);
  repair_budget = int (pos 1);
}

abbrev quote_definition : TaskDefinition
quote_definition = record {
  task_id = "quote";
  agent_id = "analyst";
  depends_on = "plan" ∷ [];
  allowed_tools = "quote" ∷ [];
  prompt_key = "default";
  output_schema = quote_schema;
  required = true;
  allow_failed_dependencies = false;
  max_turns = 4;
  max_tool_calls = 8;
  max_calls_per_turn = 4;
  max_new_tokens = 512;
  max_action_bytes = 32768;
  repair_budget = 1;
}

quote_task_made : make_task quote_task ≡ valid quote_definition
unfolding check_type check_required check_bounds check_keywords check_any_of check_properties
    check_additional check_items check_schema validate_within value_size validate_schema lookup
    validate_name string_tuple bounded_int of_schema_check canonical_object read_schema make_task
    all_finite sort_fields json_eq strip
quote_task_made = refl

make_task-IsWithinPolicy_example : IsWithinPolicy quote_definition
make_task-IsWithinPolicy_example =
    make_task-IsWithinPolicy quote_task quote_definition quote_task_made

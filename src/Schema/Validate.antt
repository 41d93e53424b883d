-- ===== src/Schema/Validate.antt =====
-- tools/schema.py: `validate_json`, the check of a value against a schema.
-- `repr` stands for Python's `repr`. A keyword of a shape that `validate_schema` refuses, on which
-- Python would iterate or compare other types, gives `off_model`.
use alpha_orchestration.Prelude.{
  ℕ, suc, zero, String, Bool, true, false, not, ◌||◌, Option, none, some, List, [], ◌∷◌, map, ltb,
  any, all, length, all_unique, ◌==◌,
}
use alpha_orchestration.Prelude.Int.{ℤ, pos}
use alpha_orchestration.Prelude.Dict.{Dict, lookup, has_key}
use alpha_orchestration.Prelude.Text.{text_length}
use alpha_orchestration.Result.{
  Result, ok, err, guard, map_result, ◌>>=◌, ◌>>◌, value_error, type_error, no_fuel, off_model,
}
use alpha_orchestration.Json.{
  Json, null, bool, int, float, str, arr, obj, finite, infinite, nan, end, elements, entries, nil,
}
use alpha_orchestration.Json.Equality.{json_eq}
use alpha_orchestration.Reducer.Payload.{get_or}
use alpha_orchestration.Schema.{value_size, not_above}

-- `_matches_type`
abbrev pub matches_type : Json → String → Bool
matches_type null t = t == "null"
matches_type (bool b) t = t == "boolean"
matches_type (int n) t = t == "integer" || t == "number"
matches_type (float f) t = t == "number"
matches_type (str s) t = t == "string"
matches_type (arr xs) t = t == "array"
matches_type (obj fs) t = t == "object"

abbrev pub type_name : Json → Result String
type_name (str t) = ok t
type_name _ = err off_model

-- `[expected] if isinstance(expected, str) else list(expected)`
abbrev pub allowed_types : Json → Result (List String)
allowed_types (str t) = ok (t ∷ [])
allowed_types (arr xs) = map_result type_name (elements xs)
allowed_types null = err off_model
allowed_types (bool b) = err type_error
allowed_types (int n) = err type_error
allowed_types (float f) = err type_error
allowed_types (obj fs) = err off_model

-- The keyword `type`.
unfoldable pub test_type : Json → Json → Result (Unit {0})
test_type value null = ok tt
test_type value expected = do
  allowed ← allowed_types expected
  guard (any (matches_type value) allowed) value_error

-- The keyword `enum`.
unfoldable pub test_enum : Json → Option Json → Result (Unit {0})
test_enum value none = ok tt
test_enum value (some (arr xs)) = guard (any (json_eq value) (elements xs)) value_error
test_enum value (some (str s)) = err off_model
test_enum value (some (obj fs)) = err off_model
test_enum value (some _) = err type_error

-- `schema.get(size)`, for one of the six sizes.
unfoldable pub size_limit : Option Json → Result (Option ℕ)
size_limit none = ok none
size_limit (some null) = ok none
size_limit (some (int (pos n))) = ok (some n)
size_limit (some _) = err off_model

abbrev pub at_least : Option ℕ → ℕ → Bool
at_least none n = true
at_least (some m) n = not (ltb n m)

abbrev pub at_most : Option ℕ → ℕ → Bool
at_most none n = true
at_most (some m) n = not (ltb m n)

-- The pair of tests on a size.
unfoldable pub test_size : Dict Json → String → String → ℕ → Result (Unit {0})
test_size s lower upper n = do
  minimum ← size_limit (lookup lower s)
  maximum ← size_limit (lookup upper s)
  guard (at_least minimum n) value_error
  guard (at_most maximum n) value_error

-- `_validate_string`
abbrev pub test_string : Dict Json → String → Result (Unit {0})
test_string s text = test_size s "minLength" "maxLength" (text_length text)

-- A limit of a number that stands in the schema: `None` and containers have no order with numbers.
abbrev pub limit_value : Json → Result (ℤ × ℤ)
limit_value (int n) = ok (n, pos 0)
limit_value (float (finite m e)) = ok (m, e)
limit_value (float (infinite b)) = err off_model
limit_value (float nan) = err off_model
limit_value (bool b) = err off_model
limit_value _ = err type_error

-- One of the four comparisons of a number with a limit.
unfoldable pub test_limit : (ℤ × ℤ → Bool) → Option Json → Result (Unit {0})
test_limit within none = ok tt
test_limit within (some v) = limit_value v >>= λ limit. guard (within limit) value_error

-- `_validate_number`, on a finite value.
unfoldable pub test_number : Dict Json → ℤ × ℤ → Result (Unit {0})
test_number s n = do
  test_limit (λ limit. not_above limit n) (lookup "minimum" s)
  test_limit (λ limit. not_above n limit) (lookup "maximum" s)
  test_limit (λ limit. not (not_above n limit)) (lookup "exclusiveMinimum" s)
  test_limit (λ limit. not (not_above limit n)) (lookup "exclusiveMaximum" s)

-- `schema.get(key)`, for the names of required properties.
abbrev pub name_list : Json → Result (List String)
name_list (arr xs) = map_result type_name (elements xs)
name_list _ = err off_model

abbrev pub property_table : Json → Result (Dict Json)
property_table (obj fs) = ok (entries fs)
property_table _ = err off_model

-- `schema.get("uniqueItems")`
abbrev pub wants_unique : Option Json → Result Bool
wants_unique none = ok false
wants_unique (some (bool b)) = ok b
wants_unique (some _) = err off_model

module _ (repr : Json → String) (check : Json → Json → Result (Unit {0})) where
  -- `anyOf`: the first schema that accepts ends the loop; SchemaValidationError is caught.
  unfoldable pub first_match : Json → List Json → Result (Unit {0})
  first_match value [] = err value_error
  first_match value (option ∷ options) =
      let rest = first_match value options in
      elim (check value option) [ ok u ↦ ok tt | err value_error ↦ rest | err e ↦ err e ]

  unfoldable pub test_any_of : Json → Option Json → Result (Unit {0})
  unfolding first_match
  test_any_of value none = ok tt
  test_any_of value (some (arr xs)) = first_match value (elements xs)
  test_any_of value (some (str s)) = err off_model
  test_any_of value (some (obj fs)) = err off_model
  test_any_of value (some _) = err type_error

  abbrev pub test_extra : Json → Json → Result (Unit {0})
  test_extra (bool false) value = err value_error
  test_extra (bool true) value = ok tt
  test_extra (obj fs) value = check value (obj fs)
  test_extra _ value = err off_model

  -- The body of the loop of `_validate_object`.
  unfoldable pub test_property : Dict Json → Json → String → Json → Result (Unit {0})
  test_property properties additional key value = elim (lookup key properties) [
    | some child ↦ check value child
    | none ↦ test_extra additional value
  ]

  unfoldable pub test_properties : Dict Json → Json → Dict Json → Result (Unit {0})
  unfolding test_property
  test_properties properties additional [] = ok tt
  test_properties properties additional ((key, value) ∷ rest) =
      test_property properties additional key value >> test_properties properties additional rest

  -- `_validate_object`
  unfoldable pub test_object : Dict Json → Dict Json → Result (Unit {0})
  test_object s value = do
    required ← name_list (get_or s "required" (arr nil))
    guard (all (λ k. has_key k value) required) value_error
    test_size s "minProperties" "maxProperties" (length value)
    properties ← property_table (get_or s "properties" (obj end))
    test_properties properties (get_or s "additionalProperties" (bool true)) value

  unfoldable pub test_each : Json → List Json → Result (Unit {0})
  test_each schema [] = ok tt
  test_each schema (v ∷ vs) = check v schema >> test_each schema vs

  unfoldable pub test_items : Option Json → List Json → Result (Unit {0})
  unfolding test_each
  test_items none vs = ok tt
  test_items (some schema) vs = test_each schema vs

  -- `_validate_array`
  unfoldable pub test_array : Dict Json → List Json → Result (Unit {0})
  test_array s vs = do
    test_size s "minItems" "maxItems" (length vs)
    unique ← wants_unique (lookup "uniqueItems" s)
    guard (not unique || all_unique (map repr vs)) value_error
    test_items (lookup "items" s) vs

  -- The ladder on the type of the value.
  unfoldable pub test_value : Dict Json → Json → Result (Unit {0})
  test_value s (obj fs) = test_object s (entries fs)
  test_value s (arr xs) = test_array s (elements xs)
  test_value s (str text) = test_string s text
  test_value s (int n) = test_number s (n, pos 0)
  test_value s (float (finite m e)) = test_number s (m, e)
  test_value s (float _) = err value_error
  test_value s _ = ok tt

  -- The body of `validate_json`, with the recursive call as a parameter.
  unfoldable pub test_json : Dict Json → Json → Result (Unit {0})
  test_json s value = do
    test_any_of value (lookup "anyOf" s)
    test_enum value (lookup "enum" s)
    test_type value (get_or s "type" null)
    test_value s value

module _ (repr : Json → String) where
  -- `validate_json` on at most `fuel` levels of nesting in the schema.
  unfoldable pub accepts_within : ℕ → Json → Json → Result (Unit {0})
  accepts_within zero value schema = err no_fuel
  accepts_within (suc fuel) value (obj fs) = test_json repr (accepts_within fuel) (entries fs) value
  accepts_within (suc fuel) value _ = err off_model

  -- `validate_json`
  unfoldable pub validate_json : Json → Json → Result (Unit {0})
  unfolding accepts_within
  validate_json value schema = accepts_within (value_size schema) value schema

-- ===== src/Schema.antt =====
-- tools/schema.py: `validate_schema`, the check of a schema of the supported part of JSON Schema.
-- SchemaValidationError, a ValueError, is `value_error`.
pub mod Keywords
pub mod Total
pub mod Validate
pub mod Shapes
pub mod Sound
use alpha_orchestration.Prelude.{
  ℕ, suc, zero, ◌+◌, ◌*◌, ◌^◌, String, Bool, true, false, not, ◌&&◌, ◌||◌, Option, none, some, List,
  [], ◌∷◌, leb, ltb, all, length, if◌then◌else◌, contains, all_unique,
}
use alpha_orchestration.Prelude.Int.{ℤ, pos, negsuc, pos_part, neg_part}
use alpha_orchestration.Prelude.Dict.{Dict, lookup, has_key, keys, values}
use alpha_orchestration.Prelude.Text.{is_empty}
use alpha_orchestration.Result.{
  Result, ok, err, guard, map_result, ◌>>=◌, ◌>>◌, value_error, type_error, no_fuel,
}
use alpha_orchestration.Json.{
  Json, null, bool, int, float, str, arr, obj, Float, finite, Items, nil, cons, Fields, end, field,
  elements, entries,
}
use alpha_orchestration.Reducer.Payload.{get_or}

-- `_SCHEMA_KEYS`
abbrev pub schema_keys : List String
schema_keys =
    "additionalProperties" ∷ "anyOf" ∷ "description" ∷ "enum" ∷ "exclusiveMaximum"
    ∷ "exclusiveMinimum" ∷ "items" ∷ "maxItems" ∷ "maxLength" ∷ "maxProperties" ∷ "maximum"
    ∷ "minItems" ∷ "minLength" ∷ "minProperties" ∷ "minimum" ∷ "properties" ∷ "required" ∷ "type"
    ∷ "uniqueItems" ∷ []

-- `_JSON_TYPES`
abbrev json_types : List String
json_types = "array" ∷ "boolean" ∷ "integer" ∷ "null" ∷ "number" ∷ "object" ∷ "string" ∷ []

-- `item not in _JSON_TYPES`: a list or a dictionary has no hash.
abbrev json_type : Json → Result String
json_type (str s) = if contains json_types s then ok s else err value_error
json_type (arr xs) = err type_error
json_type (obj fs) = err type_error
json_type _ = err value_error

abbrev check_types : List Json → Result (Unit {0})
check_types raw_types = do
  types ← map_result json_type raw_types
  guard (ltb 0 (length types)) value_error
  guard (all_unique types) value_error

-- The keyword `type`.
unfoldable pub check_type : Json → Result (Unit {0})
check_type null = ok tt
check_type (str s) = check_types (str s ∷ [])
check_type (arr xs) = check_types (elements xs)
check_type _ = err value_error

-- The keywords `description`, `enum` and `uniqueItems`, where they stand.
abbrev check_description : Option Json → Result (Unit {0})
check_description none = ok tt
check_description (some (str s)) = ok tt
check_description (some _) = err value_error

abbrev check_enum : Option Json → Result (Unit {0})
check_enum none = ok tt
check_enum (some (arr xs)) = guard (ltb 0 (length (elements xs))) value_error
check_enum (some _) = err value_error

abbrev check_unique_items : Option Json → Result (Unit {0})
check_unique_items none = ok tt
check_unique_items (some (bool b)) = ok tt
check_unique_items (some _) = err value_error

abbrev required_name : Json → Result String
required_name (str s) = if is_empty s then err value_error else ok s
required_name _ = err value_error

-- The keyword `required`: unique names, each of them declared.
unfoldable pub check_required : Json → Dict Json → Result (Unit {0})
check_required (arr xs) properties = do
  required ← map_result required_name (elements xs)
  guard (all_unique required) value_error
  guard (all (λ k. has_key k properties) required) value_error
check_required _ properties = err value_error

-- One of the six sizes.
abbrev check_size : Option Json → Result (Unit {0})
check_size none = ok tt
check_size (some null) = ok tt
check_size (some (int (pos n))) = ok tt
check_size (some _) = err value_error

-- One of the four limits on a number.
abbrev check_limit : Option Json → Result (Unit {0})
check_limit none = ok tt
check_limit (some null) = ok tt
check_limit (some (int n)) = ok tt
check_limit (some (float (finite m e))) = ok tt
check_limit (some _) = err value_error

-- m * 2 ^ e is not above n * 2 ^ f.
abbrev not_above : ℤ × ℤ → ℤ × ℤ → Bool
not_above (m, e) (n, f) =
    let left = 2 ^ (pos_part e + neg_part f) in
    let right = 2 ^ (pos_part f + neg_part e) in
    leb (pos_part m * left + neg_part n * right) (pos_part n * right + neg_part m * left)

-- A limit that `check_limit` accepted, as a number; `None` has no order.
abbrev limit_number : Json → Result (ℤ × ℤ)
limit_number (int n) = ok (n, pos 0)
limit_number (float (finite m e)) = ok (m, e)
limit_number _ = err type_error

-- `schema[lower] > schema[upper]`, where both stand.
abbrev check_pair : Option Json → Option Json → Result (Unit {0})
check_pair none upper = ok tt
check_pair (some a) none = ok tt
check_pair (some a) (some b) = do
  m ← limit_number a
  n ← limit_number b
  guard (not_above m n) value_error

abbrev each : (String → Result (Unit {0})) → List String → Result (Unit {0})
each check [] = ok tt
each check (k ∷ ks) = check k >> each check ks

-- The keywords that hold no schema, after `required`.
unfoldable pub check_bounds : Dict Json → Result (Unit {0})
check_bounds s = do
  check_unique_items (lookup "uniqueItems" s)
  each (λ k. check_size (lookup k s))
      ("minItems" ∷ "maxItems" ∷ "minLength" ∷ "maxLength" ∷ "minProperties" ∷ "maxProperties" ∷ [])
  each (λ k. check_limit (lookup k s))
      ("minimum" ∷ "maximum" ∷ "exclusiveMinimum" ∷ "exclusiveMaximum" ∷ [])
  check_pair (lookup "minItems" s) (lookup "maxItems" s)
  check_pair (lookup "minLength" s) (lookup "maxLength" s)
  check_pair (lookup "minProperties" s) (lookup "maxProperties" s)
  check_pair (lookup "minimum" s) (lookup "maximum" s)

-- The names of the keywords, and those that hold no schema and stand before `anyOf`.
unfoldable pub check_keywords : Dict Json → Result (Unit {0})
check_keywords s = do
  guard (all (contains schema_keys) (keys s)) value_error
  check_type (get_or s "type" null)
  check_description (lookup "description" s)
  check_enum (lookup "enum" s)

-- The schemas under a schema, each checked in turn.
abbrev check_each : (Json → Result (Unit {0})) → List Json → Result (Unit {0})
check_each check [] = ok tt
check_each check (v ∷ vs) = check v >> check_each check vs

module _ (check : Json → Result (Unit {0})) where
  unfoldable pub check_any_of : Json → Result (Unit {0})
  check_any_of null = ok tt
  check_any_of (arr xs) = do
    guard (ltb 0 (length (elements xs))) value_error
    check_each check (elements xs)
  check_any_of _ = err value_error

  unfoldable pub check_properties : Json → Result (Dict Json)
  check_properties (obj fs) = do check_each check (values (entries fs)); ok (entries fs)
  check_properties _ = err value_error

  unfoldable pub check_additional : Json → Result (Unit {0})
  check_additional (bool b) = ok tt
  check_additional (obj fs) = check (obj fs)
  check_additional _ = err value_error

  unfoldable pub check_items : Option Json → Result (Unit {0})
  check_items none = ok tt
  check_items (some v) = check v

  -- The body of `validate_schema`, with the recursive call as a parameter.
  unfoldable pub check_schema : Dict Json → Result (Unit {0})
  check_schema s = do
    check_keywords s
    check_any_of (get_or s "anyOf" null)
    properties ← check_properties (get_or s "properties" (obj end))
    check_required (get_or s "required" (arr nil)) properties
    check_additional (get_or s "additionalProperties" (bool true))
    check_items (lookup "items" s)
    check_bounds s

-- `validate_schema` on at most `fuel` levels of nesting.
unfoldable pub validate_within : ℕ → Json → Result (Unit {0})
validate_within zero v = err no_fuel
validate_within (suc fuel) (obj fs) = check_schema (validate_within fuel) (entries fs)
validate_within (suc fuel) _ = err value_error

-- The number of values in a value, at least its levels of nesting.
unfoldable mutual
  pub value_size : Json → ℕ
  value_size (arr xs) = suc (items_size xs)
  value_size (obj fs) = suc (fields_size fs)
  value_size _ = 1

  pub items_size : Items → ℕ
  items_size nil = 0
  items_size (cons x xs) = value_size x + items_size xs

  pub fields_size : Fields → ℕ
  fields_size end = 0
  fields_size (field k v fs) = value_size v + fields_size fs

-- `validate_schema`
unfoldable pub validate_schema : Json → Result (Unit {0})
unfolding validate_within
validate_schema v = validate_within (value_size v) v

-- ===== src/Reducer/Payload.antt =====
-- The payload readers of reducer.py: `_require`, `_nonempty_string`, `_optional_nonempty_string`,
-- `_optional_string`, `_string_tuple`, `_candidate_financials`.
use alpha_orchestration.Prelude.{String, none, some, List, if◌then◌else◌, all_unique}
use alpha_orchestration.Prelude.Dict.{Dict, lookup}
use alpha_orchestration.Prelude.Text.{strip, is_empty}
use alpha_orchestration.Result.{
  Result, ok, err, guard, or_raise, map_result, ◌>>=◌, ◌>>◌, state_invariant, value_error,
  type_error, overflow_error,
}
use alpha_orchestration.Json.{Json, Float, int, float, str, arr, obj, nil, elements, entries}
use alpha_orchestration.Json.Python.{Python}
use alpha_orchestration.Domain.Candidate.{CandidateFinancial, make_financial, has_text}

-- `payload.get(key, default)`
abbrev pub get_or : Dict Json → String → Json → Json
get_or payload k d = elim (lookup k payload) [ none ↦ d | some v ↦ v ]

unfoldable pub require : Dict Json → String → Result Json
require payload k = or_raise (lookup k payload) state_invariant

-- A text with more than white space, stripped.
abbrev pub stripped : Json → Result String
stripped (str s) = if has_text s then ok (strip s) else err state_invariant
stripped v = err state_invariant

unfoldable pub nonempty_string : Dict Json → String → Result String
unfolding require
nonempty_string payload k = require payload k >>= stripped

unfoldable pub optional_nonempty_string : Dict Json → String → String → Result String
optional_nonempty_string payload k default = elim (lookup k payload) [
  | none ↦ ok default
  | some v ↦ nonempty_string payload k
]

abbrev or_default : String → String → String
or_default s default = if is_empty s then default else s

abbrev text_or : String → Json → Result String
text_or default (str s) = ok (or_default (strip s) default)
text_or default v = err state_invariant

unfoldable pub optional_string : Dict Json → String → String → Result String
optional_string payload k default = elim (lookup k payload) [
  | none ↦ ok default
  | some v ↦ text_or default v
]

abbrev pub as_list : Json → Result (List Json)
as_list (arr xs) = ok (elements xs)
as_list v = err state_invariant

abbrev pub as_dict : Json → Result (Dict Json)
as_dict (obj fs) = ok (entries fs)
as_dict v = err state_invariant

unfoldable pub string_tuple : Dict Json → String → Result (List String)
string_tuple payload k = do
  raw_values ← as_list (get_or payload k (arr nil))
  values ← map_result stripped raw_values
  guard (all_unique values) state_invariant
  ok values

-- `except ValueError as exc: raise StateInvariantError`
abbrev pub except_value {ℓ} : {A : Type ℓ} → Result A → Result A
except_value (err value_error) = err state_invariant
except_value r = r

module _ (py : Python) where
  -- `float(raw_value)`, once the value is known to be a number.
  abbrev pub to_float : Json → Result Float
  to_float (int n) = or_raise (py.float_of_int n) overflow_error
  to_float (float f) = ok f
  to_float v = err type_error

  abbrev pub is_number : Json → Result Json
  is_number (int n) = ok (int n)
  is_number (float f) = ok (float f)
  is_number v = err state_invariant

  unfoldable pub candidate_financial : Json → Result CandidateFinancial
  unfolding require nonempty_string string_tuple
  candidate_financial raw = do
    raw_financial ← as_dict raw
    any_value ← require raw_financial "value"
    raw_value ← is_number any_value
    except_value do
      metric ← nonempty_string raw_financial "metric"
      label ← nonempty_string raw_financial "label"
      value ← to_float raw_value
      unit ← nonempty_string raw_financial "unit"
      period ← nonempty_string raw_financial "period"
      source_ids ← string_tuple raw_financial "source_ids"
      make_financial (record {
        metric = metric;
        label = label;
        value = value;
        unit = unit;
        period = period;
        source_ids = source_ids;
      })

  unfoldable pub candidate_financials : Dict Json → Result (List CandidateFinancial)
  unfolding candidate_financial
  candidate_financials payload = do
    raw_financials ← as_list (get_or payload "financials" (arr nil))
    map_result candidate_financial raw_financials

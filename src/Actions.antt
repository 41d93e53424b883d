-- ===== src/Actions.antt =====
-- actions.py: the strict reading of the one action that a local model proposes.
pub mod Says
pub mod Keys
pub mod Accepted
pub mod Repair
use alpha_orchestration.Prelude.{
  ℕ, String, Bool, true, false, not, ◌&&◌, ◌||◌, Option, none, some, List, [], ◌∷◌, ◌==◌, leb, ltb,
  all, length, if◌then◌else◌, contains, ◌⊎◌, inl, inr,
}
use alpha_orchestration.Prelude.Dict.{Dict, lookup, has_key, keys, insert}
use alpha_orchestration.Prelude.Text.{is_empty, text_length, strip}
use alpha_orchestration.Json.{
  Json, null, bool, int, float, str, arr, obj, elements, entries, fields,
}
use alpha_orchestration.Journal.Verifier.{all_finite}

pub data ActionErrorCode : Type 0 where
  invalid_text action_too_large invalid_json duplicate_key invalid_envelope unknown_kind
        tool_call_limit :
      ActionErrorCode

-- What a call ends with: a value, an `ActionParseError` with its code and its flag `repairable`,
-- or the plain ValueError of a bad limit.
pub data Reading {ℓ} (A : Type ℓ) : Type ℓ where
  read : A → Reading A
  refused : ActionErrorCode → Bool → Reading A
  bad_limit : Reading A

infixl 5 ◌>>=◌ ◌>>◌
abbrev pub ◌>>=◌ {ℓ κ} : {A : Type ℓ} {B : Type κ} → Reading A → (A → Reading B) → Reading B
read a >>= f = f a
refused code repairable >>= f = refused code repairable
bad_limit >>= f = bad_limit

abbrev pub ◌>>◌ {ℓ} : {B : Type ℓ} → Reading (Unit {0}) → Reading B → Reading B
m >> k = m >>= λ _. k

-- `if not test: raise ActionParseError(code, …, repairable=…)`
abbrev pub insist : Bool → ActionErrorCode → Bool → Reading (Unit {0})
insist true code repairable = read tt
insist false code repairable = refused code repairable

-- `ProposedToolCall`
pub record ProposedToolCall : Type 0 where
  pub name : String
  pub arguments : Dict Json

-- `AgentAction`: `ToolCallsAction` or `FinalAction`.
pub data AgentAction : Type 0 where
  tool_calls_action : List ProposedToolCall → AgentAction
  final_action : Dict Json → AgentAction

-- The exceptions that leave `json.loads` under the two hooks.
pub data LoadError : Type 0 where
  duplicate : String → LoadError
  non_finite not_one_value : LoadError

pub data Loaded : Type 0 where
  loaded : Json → Loaded
  failed : LoadError → Loaded

-- What an `object_pairs_hook` does with the pairs of one object.
abbrev pub Hook : Type 0
Hook = Dict Json → LoadError ⊎ Dict Json

-- Python's `json` and `str.encode`: `loads hook raw` with the hook that raises at `NaN` and
-- `Infinity`; `encoded_size` is none where the text has no UTF-8 form.
pub record Decoder : Type 0 where
  pub encoded_size : String → Option ℕ
  pub loads : Hook → String → Loaded

-- `_unique_object`: the loop, from the dictionary built so far.
unfoldable pub unique_from : Dict Json → Dict Json → LoadError ⊎ Dict Json
unique_from result [] = inr result
unique_from result ((key, value) ∷ pairs) =
    let rest = unique_from (insert key value result) pairs in
    if has_key key result then inl (duplicate key) else rest

abbrev pub unique_object : Hook
unique_object pairs = unique_from [] pairs

-- `_require_object`, with `_validate_json_value` on what it found.
unfoldable pub require_object : Json → Reading (Dict Json)
require_object (obj fs) = do insist (all_finite (obj fs)) invalid_json true; read (entries fs)
require_object _ = refused invalid_envelope true

-- `_require_exact_keys`
unfoldable pub require_exact_keys : Dict Json → List String → Reading (Unit {0})
require_exact_keys value expected = do
  insist (all (λ k. has_key k value) expected) invalid_envelope true
  insist (all (contains expected) (keys value)) invalid_envelope true

-- `d[key]`, under a check that the key is there.
abbrev pub item : String → Dict Json → Reading Json
item key d = elim (lookup key d) [ none ↦ refused invalid_envelope true | some v ↦ read v ]

abbrev pub text : Json → Reading String
text (str s) = read s
text _ = refused invalid_envelope true

-- The test on a proposed name; `MAX_TOOL_NAME_LENGTH` is 200.
abbrev pub is_tool_name : String → Bool
is_tool_name name = not (is_empty name) && name == strip name && leb (text_length name) 200

-- The body of the loop of `_parse_tool_calls`.
unfoldable pub parse_call : Json → Reading ProposedToolCall
unfolding require_object require_exact_keys
parse_call raw_call = do
  call ← require_object raw_call
  require_exact_keys call ("name" ∷ "arguments" ∷ [])
  raw_name ← item "name" call
  name ← text raw_name
  insist (is_tool_name name) invalid_envelope true
  raw_arguments ← item "arguments" call
  arguments ← require_object raw_arguments
  read record { name = name; arguments = arguments }

unfoldable pub parse_calls : List Json → Reading (List ProposedToolCall)
parse_calls [] = read []
parse_calls (raw_call ∷ rest) = do
  call ← parse_call raw_call
  calls ← parse_calls rest
  read (call ∷ calls)

-- `_parse_tool_calls`
unfoldable pub parse_tool_calls : ℕ → Json → Reading AgentAction
parse_tool_calls max_calls (arr xs) = do
  insist (ltb 0 (length (elements xs))) invalid_envelope true
  insist (leb (length (elements xs)) max_calls) tool_call_limit false
  calls ← parse_calls (elements xs)
  read (tool_calls_action calls)
parse_tool_calls max_calls _ = refused invalid_envelope true

abbrev pub of_loaded : Loaded → Reading Json
of_loaded (loaded v) = read v
of_loaded (failed (duplicate key)) = refused duplicate_key true
of_loaded (failed non_finite) = refused invalid_json true
of_loaded (failed not_one_value) = refused invalid_json true

-- The two kinds of envelope.
unfoldable pub parse_envelope : ℕ → Dict Json → String → Reading AgentAction
unfolding require_exact_keys
parse_envelope max_calls envelope kind =
    if kind == "tool_calls"
    then (require_exact_keys envelope ("kind" ∷ "calls" ∷ [])
        >> (item "calls" envelope >>= parse_tool_calls max_calls))
    else (if kind == "final"
        then (require_exact_keys envelope ("kind" ∷ "payload" ∷ [])
            >> (item "payload" envelope >>= require_object >>= λ payload.
                read (final_action payload)))
        else refused unknown_kind true)

abbrev pub as_raw : Json → Reading String
as_raw (str s) = read s
as_raw _ = refused invalid_text true

abbrev pub size_of : Option ℕ → Reading ℕ
size_of none = refused invalid_text true
size_of (some n) = read n

-- `envelope.get("kind")`
abbrev pub kind_of : Option Json → Reading Json
kind_of none = read null
kind_of (some v) = read v

abbrev pub positive : ℕ → Reading (Unit {0})
positive limit = if leb 1 limit then read tt else bad_limit

module _ (decoder : Decoder) where
  -- `parse_action`
  unfoldable pub parse_action : ℕ → ℕ → Json → Reading AgentAction
  unfolding parse_envelope require_object
  parse_action max_bytes max_calls any_raw = do
    positive max_bytes
    positive max_calls
    raw ← as_raw any_raw
    size ← size_of (decoder.encoded_size raw)
    insist (leb size max_bytes) action_too_large false
    decoded ← of_loaded (decoder.loads unique_object raw)
    envelope ← require_object decoded
    any_kind ← kind_of (lookup "kind" envelope)
    kind ← text any_kind
    parse_envelope max_calls envelope kind

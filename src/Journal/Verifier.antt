-- ===== src/Journal/Verifier.antt =====
-- `_IntegrityVerifier` of journal.py and its helpers. SHA-256 over UTF-8, with the canonical JSON
-- text, is the parameter `Hashing`.
use Prim.Native.Char.{Char, code}
use alpha_orchestration.Prelude.{
  String, Bool, true, false, not, ◌&&◌, ◌||◌, Option, none, some, [], ◌∷◌, ◌==◌, leb, eqb,
  if◌then◌else◌,
}
use alpha_orchestration.Prelude.Dict.{Dict, lookup, has_key}
use alpha_orchestration.Prelude.Text.{is_empty, text_length}
use alpha_orchestration.Result.{Result, ok, err, guard, or_raise, ◌>>=◌, ◌>>◌, value_error}
use alpha_orchestration.Json.{
  Json, null, bool, float, str, arr, obj, Items, nil, cons, Fields, end, field, entries, fields,
}
use alpha_orchestration.Json.Equality.{json_eq}
use alpha_orchestration.Domain.Candidate.{is_finite}
use alpha_orchestration.Domain.Enums.{
  EventKind, workflow_planned, workflow_completed, model_turn_started, model_turn_completed,
  tool_started, tool_completed, tool_rejected,
}
use alpha_orchestration.Domain.Event.{RunEvent}

-- `digest v` is the SHA-256 of the canonical JSON text of `v`, `text_digest` that of a text.
pub record Hashing : Type 0 where
  pub digest : Json → String
  pub text_digest : String → String

-- `json.dumps(…, allow_nan=False)` raises ValueError at a number that is not finite.
unfoldable mutual
  pub all_finite : Json → Bool
  all_finite (float f) = is_finite f
  all_finite (arr xs) = items_finite xs
  all_finite (obj fs) = fields_finite fs
  all_finite _ = true

  pub items_finite : Items → Bool
  items_finite nil = true
  items_finite (cons x xs) = all_finite x && items_finite xs

  pub fields_finite : Fields → Bool
  fields_finite end = true
  fields_finite (field k v fs) = all_finite v && fields_finite fs

-- `payload.get(key)`
abbrev pub get : Dict Json → String → Json
get payload k = elim (lookup k payload) [ none ↦ null | some v ↦ v ]

abbrev is_null : Json → Bool
is_null null = true
is_null _ = false

abbrev as_text : Json → Result String
as_text (str s) = ok s
as_text _ = err value_error

abbrev as_flag : Json → Result Bool
as_flag (bool b) = ok b
as_flag _ = err value_error

abbrev as_object : Json → Result (Dict Json)
as_object (obj fs) = ok (entries fs)
as_object _ = err value_error

-- `_required_string`
unfoldable pub required_string : Dict Json → String → Result String
required_string payload k = do
  s ← as_text (get payload k)
  guard (not (is_empty s)) value_error
  ok s

abbrev is_hex : Char → Bool
is_hex c = let n = code c in (leb 48 n && leb n 57) || (leb 97 n && leb n 102)

abbrev all_hex : String → Bool
all_hex String.[] = true
all_hex (String.◌∷◌ c s) = is_hex c && all_hex s

-- `_required_digest`
unfoldable pub required_digest : Dict Json → String → Result String
required_digest payload k = do
  s ← as_text (get payload k)
  guard (eqb (text_length s) 64) value_error
  guard (all_hex s) value_error
  ok s

-- Who the planned workflow is: id, version and plan hash.
abbrev pub Identity : Type 0
Identity = String × String × String

abbrev same_identity : Identity → Identity → Bool
same_identity (a, b, c) (x, y, z) = a == x && b == y && c == z

-- `trace.get(key) == expected` for each alias.
abbrev agrees : Dict Json → Dict Json → Bool
agrees m [] = true
agrees m ((k, v) ∷ rest) = json_eq (get m k) v && agrees m rest

module _ (hashing : Hashing) where
  -- `_canonical_hash`
  unfoldable pub canonical_hash : Json → Result String
  canonical_hash v = do guard (all_finite v) value_error; ok (hashing.digest v)

  -- `_verify_canonical_field`
  unfoldable pub verify_canonical_field : Dict Json → String → String → Result Json
  unfolding canonical_hash required_digest
  verify_canonical_field payload value_key hash_key = do
    value ← or_raise (lookup value_key payload) value_error
    expected ← required_digest payload hash_key
    actual ← canonical_hash value
    guard (actual == expected) value_error
    ok value

  -- `_verify_workflow_planned`, once the payload has a plan.
  unfoldable pub verify_plan : Option Identity → Dict Json → Json → Result (Option Identity)
  unfolding verify_canonical_field required_string required_digest
  verify_plan known payload any_plan = do
    plan ← as_object any_plan
    hashed ← verify_canonical_field payload "plan" "plan_hash"
    workflow_id ← required_string payload "workflow_id"
    workflow_version ← required_string payload "workflow_version"
    plan_workflow_id ← required_string plan "workflow_id"
    plan_version ← required_string plan "version"
    guard (workflow_id == plan_workflow_id) value_error
    guard (workflow_version == plan_version) value_error
    guard (json_eq (get payload "tasks") (get plan "tasks")) value_error
    plan_hash ← required_digest payload "plan_hash"
    elim known [
      | none ↦ ok (some (workflow_id, workflow_version, plan_hash))
      | some identity ↦ err value_error
    ]

  unfoldable pub verify_workflow_planned : Option Identity → Dict Json → Result (Option Identity)
  unfolding verify_plan
  verify_workflow_planned known payload =
      if is_null (get payload "plan")
      then ok known
      else verify_plan known payload (get payload "plan")

  -- `_verify_workflow_completed`
  unfoldable pub verify_workflow_completed : Option Identity → Dict Json → Result (Option Identity)
  unfolding required_string required_digest
  verify_workflow_completed none payload = ok none
  verify_workflow_completed (some identity) payload = do
    workflow_id ← required_string payload "workflow_id"
    workflow_version ← required_string payload "workflow_version"
    plan_hash ← required_digest payload "plan_hash"
    guard (same_identity (workflow_id, workflow_version, plan_hash) identity) value_error
    ok (some identity)

  -- The test of the output against its hash in `_verify_model_turn_completed`.
  unfoldable pub verify_output : Bool → Json → String → Result (Unit {0})
  verify_output true output output_hash = guard (is_null output) value_error
  verify_output false output output_hash = do
    text ← as_text output
    guard (hashing.text_digest text == output_hash) value_error

  -- `_verify_model_turn_completed`
  unfoldable pub verify_model_turn_completed : Dict Json → Result (Unit {0})
  unfolding verify_canonical_field required_digest verify_output
  verify_model_turn_completed payload = do
    any_trace ← verify_canonical_field payload "trace" "trace_hash"
    trace ← as_object any_trace
    truncated ← as_flag (get payload "output_truncated")
    output_hash ← required_digest payload "output_hash"
    verify_output truncated (get payload "output") output_hash
    guard
        (agrees trace (
          ("output_text", get payload "output")
          ∷ ("output_hash", str output_hash)
          ∷ ("output_truncated", bool truncated)
          ∷ []))
        value_error

  unfoldable pub verify_proposed : Dict Json → Result (Unit {0})
  unfolding verify_canonical_field
  verify_proposed payload =
      if has_key "proposed_arguments" payload || has_key "proposed_arguments_hash" payload
      then (verify_canonical_field payload "proposed_arguments" "proposed_arguments_hash" >>= λ _.
          ok tt)
      else ok tt

  abbrev in_lifecycle : Option Identity → Dict Json → Bool
  in_lifecycle known payload =
      (elim known [ none ↦ false | some i ↦ true ]) || has_key "task_id" payload

  -- `_verify_tool_started`
  unfoldable pub verify_tool_started : Option Identity → Dict Json → Result (Unit {0})
  unfolding verify_canonical_field verify_proposed
  verify_tool_started known payload =
      if in_lifecycle known payload || has_key "arguments_hash" payload
      then (verify_canonical_field payload "arguments" "arguments_hash" >>= λ _.
          verify_proposed payload)
      else ok tt

  abbrev aliases : Dict Json → Dict Json
  aliases payload =
      ("call_id", get payload "call_id")
      ∷ ("payload", get payload "result")
      ∷ ("source_ids", get payload "source_ids")
      ∷ ("retryable", get payload "retryable")
      ∷ []

  abbrev same_error : Json → Json → Bool
  same_error error (obj fs) = json_eq error (get (entries fs) "error")
  same_error error _ = true

  -- The checks of `_verify_tool_result` on the envelope that it found or put together.
  unfoldable pub verify_envelope : Dict Json → Json → Result (Unit {0})
  unfolding canonical_hash required_digest
  verify_envelope payload any_envelope = do
    envelope ← as_object any_envelope
    expected_hash ← required_digest payload "result_hash"
    actual ← canonical_hash any_envelope
    guard (actual == expected_hash) value_error
    guard (agrees envelope (aliases payload)) value_error
    guard (same_error (get payload "error") (get envelope "payload")) value_error

  -- `_verify_tool_result`
  unfoldable pub verify_tool_result : Option Identity → Dict Json → Result (Unit {0})
  unfolding verify_envelope
  verify_tool_result known payload =
      if is_null (get payload "result_envelope")
      then (elim known [
        | some i ↦ err value_error
        | none ↦
            if has_key "result_hash" payload
            then verify_envelope payload (obj (fields (aliases payload)))
            else ok tt
      ])
      else verify_envelope payload (get payload "result_envelope")

  -- `verify`: the new identity, on the kinds that the verifier reads.
  unfoldable pub verify_kind : EventKind → Option Identity → Dict Json → Result (Option Identity)
  unfolding verify_workflow_planned verify_workflow_completed verify_canonical_field
      verify_model_turn_completed verify_tool_started verify_tool_result
  verify_kind workflow_planned known payload = verify_workflow_planned known payload
  verify_kind workflow_completed known payload = verify_workflow_completed known payload
  verify_kind model_turn_started known payload = do
    hashed ← verify_canonical_field payload "request" "request_hash"
    ok known
  verify_kind model_turn_completed known payload = do verify_model_turn_completed payload; ok known
  verify_kind tool_started known payload = do verify_tool_started known payload; ok known
  verify_kind tool_completed known payload = do verify_tool_result known payload; ok known
  verify_kind tool_rejected known payload = do verify_tool_result known payload; ok known
  verify_kind _ known payload = ok known

  unfoldable pub verify : Option Identity → RunEvent → Result (Option Identity)
  unfolding verify_kind
  verify known event = verify_kind event.kind known event.payload

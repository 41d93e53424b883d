-- ===== src/FixedDag/ModelResult.antt =====
-- fixed_dag.py and ports.py: what a model returned, the checks on it and its trace.
use alpha_orchestration.Prelude.{
  ℕ, String, Bool, true, false, not, ◌&&◌, ◌||◌, Option, none, some, [], ◌∷◌, ◌==◌, leb, all,
  length, if◌then◌else◌, ◌⊎◌, inl, inr,
}
use alpha_orchestration.Prelude.Int.{pos}
use alpha_orchestration.Prelude.Dict.{Dict}
use alpha_orchestration.Prelude.Text.{text_length}
use alpha_orchestration.Json.{Json, null, bool, int, str, arr, obj, nil, elements, entries, fields}
use alpha_orchestration.Json.Sorted.{sort_fields}
use alpha_orchestration.Journal.Verifier.{all_finite}
use alpha_orchestration.FixedDag.{Surroundings}

-- `ActionModelResult` of ports.py, whose fields an adapter may fill with anything.
pub record ModelResult : Type 0 where
  pub request_id : Json
  pub output_text : Json
  pub prompt_ids : Json
  pub output_ids : Json
  pub finish_reason : Json
  pub telemetry : Json
  pub model_fingerprint : Json
  pub tokenizer_fingerprint : Json

-- What `await self.model.complete(request)` ends with: a result, a value of another class, or an
-- exception with the name of its class and its text.
pub data ModelReply : Type 0 where
  answered : ModelResult → ModelReply
  other_class : ModelReply
  model_raised : String → String → ModelReply

-- `except Exception as exc` around the call of the model.
abbrev pub caught : String → ModelReply → ModelReply
caught request_id (model_raised name text) = answered (record {
  request_id = str request_id;
  output_text = str "";
  prompt_ids = arr nil;
  output_ids = arr nil;
  finish_reason = str "model_error";
  telemetry = obj (fields (("error_type", str name) ∷ ("error", str text) ∷ []));
  model_fingerprint = str "unknown";
  tokenizer_fingerprint = str "unknown";
})
caught request_id reply = reply

-- `_token_ids_error` is None; `MAX_MODEL_TOKEN_ID` is 2 ** 31 - 1.
abbrev pub is_token : Json → Bool
is_token (int (pos n)) = leb n 2147483647
is_token _ = false

abbrev pub are_tokens : ℕ → Json → Bool
are_tokens maximum (arr xs) = leb (length (elements xs)) maximum && all is_token (elements xs)
are_tokens maximum _ = false

-- Bounded text or null; `MAX_MODEL_LABEL_LENGTH` is 500.
abbrev pub is_label : Json → Bool
is_label null = true
is_label (str s) = leb (text_length s) 500
is_label _ = false

abbrev pub is_natural_stop : Json → Bool
is_natural_stop (str s) = s == "stop" || s == "eos"
is_natural_stop _ = false

abbrev pub is_object : Json → Bool
is_object (obj fs) = true
is_object _ = false

-- `_json_copy` of a dictionary of finite numbers.
abbrev pub copied : Dict Json → Dict Json
copied d = entries (sort_fields (fields d))

module _ (around : Surroundings) where
  -- The values of `_model_result_dict`, for a text of `output_bytes` bytes.
  unfoldable pub model_result_dict : ModelResult → ℕ → String → ℕ → Dict Json
  model_result_dict result max_action_bytes text output_bytes =
      let truncated = not (leb output_bytes max_action_bytes) in
      copied (
        ("request_id", result.request_id)
        ∷ ("output_text", if truncated then null else str text)
        ∷ ("output_bytes", int (pos output_bytes))
        ∷ ("output_hash", str (around.hashing.text_digest text))
        ∷ ("output_truncated", bool truncated)
        ∷ ("prompt_ids", result.prompt_ids)
        ∷ ("output_ids", result.output_ids)
        ∷ ("prompt_ids_hash", str (around.hashing.digest result.prompt_ids))
        ∷ ("output_ids_hash", str (around.hashing.digest result.output_ids))
        ∷ ("finish_reason", result.finish_reason)
        ∷ ("telemetry", result.telemetry)
        ∷ ("model_fingerprint", result.model_fingerprint)
        ∷ ("tokenizer_fingerprint", result.tokenizer_fingerprint)
        ∷ [])

  -- `_invalid_model_result_trace`
  unfoldable pub invalid_trace : String → String → Dict Json
  invalid_trace request_id code =
      ("request_id", str request_id)
      ∷ ("output_text", str "")
      ∷ ("output_bytes", int (pos 0))
      ∷ ("output_hash", str (around.hashing.text_digest ""))
      ∷ ("output_truncated", bool false)
      ∷ ("prompt_ids", arr nil)
      ∷ ("output_ids", arr nil)
      ∷ ("prompt_ids_hash", str (around.hashing.digest (arr nil)))
      ∷ ("output_ids_hash", str (around.hashing.digest (arr nil)))
      ∷ ("finish_reason", str "invalid_model_result")
      ∷ (
        "telemetry",
        obj (
            fields (
              (
                "validation_error",
                obj (fields (("code", str code) ∷ ("message", str (around.wording code)) ∷ [])),
              )
              ∷ [])),
      )
      ∷ ("model_fingerprint", str "invalid")
      ∷ ("tokenizer_fingerprint", str "invalid")
      ∷ []

  -- The checks of `_model_result_error` after the one on the size of the text; the limits are
  -- MAX_MODEL_PROMPT_IDS, MAX_MODEL_OUTPUT_IDS, MAX_MODEL_TELEMETRY_BYTES and MAX_MODEL_TRACE_BYTES.
  unfoldable pub details_error : ModelResult → ℕ → String → ℕ → Option String
  details_error result max_action_bytes text size =
      let trace = obj (fields (model_result_dict result max_action_bytes text size)) in
      if not (are_tokens 8192 result.prompt_ids && are_tokens 4096 result.output_ids)
      then some "invalid_model_result"
      else if not (is_object result.telemetry && all_finite result.telemetry)
      then some "invalid_model_result"
      else if not (leb (around.canonical_size result.telemetry) 16384)
      then some "invalid_model_result"
      else if not (
          is_label result.finish_reason
          && is_label result.model_fingerprint
          && is_label result.tokenizer_fingerprint)
      then some "invalid_model_result"
      else if not (leb (around.canonical_size trace) 512000)
      then some "invalid_model_result"
      else if not (is_natural_stop result.finish_reason)
      then some "non_natural_stop"
      else none

  -- A text of `size` bytes: the code of what is wrong with the result, or its trace.
  unfoldable pub trace_of_text : ModelResult → ℕ → String → Option ℕ → String ⊎ Dict Json
  unfolding details_error
  trace_of_text result max_action_bytes text none = inl "invalid_model_result"
  trace_of_text result max_action_bytes text (some size) =
      if not (leb size max_action_bytes)
      then inl "action_too_large"
      else elim (details_error result max_action_bytes text size) [
        | some code ↦ inl code
        | none ↦ inr (model_result_dict result max_action_bytes text size)
      ]

  -- `_model_result_error`, and the trace of a result in which it finds nothing wrong.
  unfoldable pub checked_trace : String → ℕ → ModelReply → String ⊎ Dict Json
  unfolding trace_of_text
  checked_trace request_id max_action_bytes (answered result) = elim result.request_id [
    | str got ↦
        if not (leb (text_length got) 500)
        then inl "invalid_model_result"
        else if not (got == request_id)
        then inl "request_id_mismatch"
        else elim result.output_text [
          | str text ↦ trace_of_text result max_action_bytes text (around.decoder.encoded_size text)
          | _ ↦ inl "invalid_model_result"
        ]
    | _ ↦ inl "invalid_model_result"
  ]
  checked_trace request_id max_action_bytes _ = inl "invalid_model_result"

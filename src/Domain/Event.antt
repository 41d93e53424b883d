-- ===== src/Domain/Event.antt =====
-- `RunEvent` of domain.py and its JSON form.
use alpha_orchestration.Prelude.{ℕ, String, Option, none, some, List, [], ◌∷◌, if◌then◌else◌}
use alpha_orchestration.Prelude.Int.{ℤ}
use alpha_orchestration.Prelude.Dict.{Dict, lookup, insert}
use alpha_orchestration.Prelude.Text.{is_empty}
use alpha_orchestration.Result.{Result, ok, err, or_raise, ◌>>=◌, value_error, type_error}
use alpha_orchestration.Json.{
  Json, null, str, int, obj, arr, nil, cons, end, field, elements, entries, fields,
}
use alpha_orchestration.Json.Python.{Python, to_int, to_text}
use alpha_orchestration.Domain.Enums.{EventKind, kind_text, kinds, member_of}
use alpha_orchestration.Domain.Spec.{subscript}

-- `timestamp` is the instant, in microseconds since the epoch.
pub record RunEvent : Type 0 where
  pub schema_version : ℤ
  pub run_id : String
  pub sequence : ℤ
  pub kind : EventKind
  pub timestamp : ℕ
  pub message : String
  pub agent_id : Option String
  pub payload : Dict Json

abbrev pub optional_text : Option String → Json
optional_text none = null
optional_text (some s) = str s

-- `RunEvent.to_dict`
unfoldable pub event_to_dict : Python → RunEvent → Dict Json
event_to_dict py e =
    ("schema_version", int e.schema_version)
    ∷ ("run_id", str e.run_id)
    ∷ ("sequence", int e.sequence)
    ∷ ("kind", str (kind_text e.kind))
    ∷ ("timestamp", str (py.iso_text e.timestamp))
    ∷ ("message", str e.message)
    ∷ ("agent_id", optional_text e.agent_id)
    ∷ ("payload", obj (fields e.payload))
    ∷ []

-- `None if data.get("agent_id") is None else str(data["agent_id"])`
abbrev pub read_agent : Python → Option Json → Option String
read_agent py none = none
read_agent py (some null) = none
read_agent py (some v) = some (to_text py v)

-- One item of an iterable that `dict` reads as pairs: an array of two, a text of two characters or
-- an object of two keys. A first part that is no text is refused: payloads have text keys.
abbrev read_pair : Json → Result (String × Json)
read_pair (arr (cons (str k) (cons v nil))) = ok (k, v)
read_pair (str (String.◌∷◌ c (String.◌∷◌ d String.[]))) =
    ok (String.◌∷◌ c String.[], str (String.◌∷◌ d String.[]))
read_pair (obj (field j v (field k w end))) = ok (j, str k)
read_pair (arr xs) = err value_error
read_pair (str s) = err value_error
read_pair (obj fs) = err value_error
read_pair v = err type_error

abbrev read_pairs : Dict Json → List Json → Result (Dict Json)
read_pairs m [] = ok m
read_pairs m (x ∷ xs) = read_pair x >>= λ p. read_pairs (insert (p.0) (p.1) m) xs

-- `dict(data.get("payload", {}))`
abbrev read_payload : Option Json → Result (Dict Json)
read_payload none = ok []
read_payload (some (obj fs)) = ok (entries fs)
read_payload (some (arr xs)) = read_pairs [] (elements xs)
read_payload (some (str s)) = if is_empty s then ok [] else err value_error
read_payload (some v) = err type_error

-- `RunEvent.from_dict`
unfoldable pub event_from_dict : Python → Dict Json → Result RunEvent
event_from_dict py m = do
  version_value ← subscript m "schema_version"
  schema_version ← to_int py version_value
  run_id ← subscript m "run_id"
  sequence_value ← subscript m "sequence"
  sequence ← to_int py sequence_value
  kind_value ← subscript m "kind"
  kind ← or_raise (member_of kind_text kinds (to_text py kind_value)) value_error
  time_value ← subscript m "timestamp"
  timestamp ← or_raise (py.iso_parse (to_text py time_value)) value_error
  message ← subscript m "message"
  payload ← read_payload (lookup "payload" m)
  ok (record {
    schema_version = schema_version;
    run_id = to_text py run_id;
    sequence = sequence;
    kind = kind;
    timestamp = timestamp;
    message = to_text py message;
    agent_id = read_agent py (lookup "agent_id" m);
    payload = payload;
  })

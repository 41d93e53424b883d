-- ===== src/Journal/Store.antt =====
-- `MemoryJournal` and `JsonlJournal` of journal.py. The file of a `JsonlJournal` is the list of its
-- lines; `json.dumps` and `json.loads` are the parameter `Codec`.
use alpha_orchestration.Prelude.{String, Bool, true, false, List, [], ◌∷◌, ◌++◌, if◌then◌else◌}
use alpha_orchestration.Result.{Result, ok, err, guard, ◌>>◌, runtime_error, value_error}
use alpha_orchestration.Json.{Json, obj, fields}
use alpha_orchestration.Json.Python.{Python}
use alpha_orchestration.Domain.Event.{RunEvent, event_to_dict}
use alpha_orchestration.Journal.Verifier.{all_finite}

-- `loads` refuses, as an error, what is no JSON text, repeated keys and non-finite constants.
pub record Codec : Type 0 where
  pub dumps : Json → String
  pub loads : String → Result Json

pub record MemoryJournal : Type 0 where
  pub events : List RunEvent
  pub closed : Bool

abbrev pub new_memory : MemoryJournal
new_memory = record { events = []; closed = false }

unfoldable pub memory_append : MemoryJournal → RunEvent → Result MemoryJournal
memory_append j event =
    if j.closed then err runtime_error else ok (record j { events = j.events ++ event ∷ [] })

abbrev pub memory_close : MemoryJournal → MemoryJournal
memory_close j = record j { closed = true }

pub record JsonlJournal : Type 0 where
  pub lines : List String
  pub closed : Bool

abbrev pub new_jsonl : JsonlJournal
new_jsonl = record { lines = []; closed = false }

module _ (py : Python) (codec : Codec) where
  -- `append`: one line for the event; a number that is not finite is refused before the write.
  unfoldable pub jsonl_append : JsonlJournal → RunEvent → Result JsonlJournal
  jsonl_append j event = if j.closed then err runtime_error else (do
    let value = obj (fields (event_to_dict py event))
    guard (all_finite value) value_error
    ok (record j { lines = j.lines ++ codec.dumps value ∷ [] }))

abbrev pub jsonl_close : JsonlJournal → JsonlJournal
jsonl_close j = if j.closed then j else record j { closed = true }

-- ===== src/Journal/Load.antt =====
-- `load_events` and `replay` of journal.py.
use alpha_orchestration.Prelude.{
  String, Bool, true, false, Option, none, some, List, [], ◌∷◌, if◌then◌else◌,
}
use alpha_orchestration.Prelude.Dict.{Dict, lookup}
use alpha_orchestration.Prelude.Text.{strip, is_empty}
use alpha_orchestration.Result.{
  Result, ok, err, guard, ◌>>=◌, ◌>>◌, value_error, key_error, type_error,
}
use alpha_orchestration.Json.{Json, obj, entries}
use alpha_orchestration.Json.Python.{Python}
use alpha_orchestration.Domain.Enums.{EventKind, run_created}
use alpha_orchestration.Domain.Spec.{spec_from_dict}
use alpha_orchestration.Domain.Event.{RunEvent, event_from_dict}
use alpha_orchestration.Domain.State.{RunState, fresh_state}
use alpha_orchestration.Reducer.Run.{reduce_all}
use alpha_orchestration.Journal.Verifier.{Hashing, Identity, verify}
use alpha_orchestration.Journal.Store.{Codec}

-- `except (KeyError, TypeError, ValueError, json.JSONDecodeError)`
abbrev except_data {ℓ} : {A : Type ℓ} → Result A → Result A
except_data (err key_error) = err value_error
except_data (err type_error) = err value_error
except_data r = r

abbrev event_object : Json → Result (Dict Json)
event_object (obj fs) = ok (entries fs)
event_object _ = err value_error

abbrev spec_object : Option Json → Result (Dict Json)
spec_object (some (obj fs)) = ok (entries fs)
spec_object _ = err value_error

abbrev is_created : EventKind → Bool
is_created run_created = true
is_created _ = false

module _ (py : Python) (codec : Codec) (hashing : Hashing) where
  -- One line: the event, and the verifier after it.
  unfoldable pub load_line : Option Identity → String → Result (RunEvent × Option Identity)
  load_line known line = except_data do
    value ← codec.loads line
    payload ← event_object value
    event ← event_from_dict py payload
    next ← verify hashing known event
    ok (event, next)

  unfoldable pub load_from : Option Identity → List String → Result (List RunEvent)
  unfolding load_line
  load_from known [] = ok []
  load_from known (line ∷ rest) =
      let skipped = load_from known rest in
      let loaded =
        load_line known line >>= λ p. load_from (p.1) rest >>= λ events. ok (p.0 ∷ events) in
      if is_empty (strip line) then skipped else loaded

  abbrev pub load_events : List String → Result (List RunEvent)
  load_events lines = load_from none lines

  -- `replay`, past the loading of the events.
  unfoldable pub replay_events : List RunEvent → Result RunState
  replay_events [] = err value_error
  replay_events (first ∷ rest) = do
    guard (is_created first.kind) value_error
    raw_spec ← spec_object (lookup "spec" first.payload)
    spec ← spec_from_dict py raw_spec
    reduce_all py (fresh_state spec) (first ∷ rest)

  unfoldable pub replay : List String → Result RunState
  unfolding load_from replay_events
  replay lines = load_events lines >>= replay_events

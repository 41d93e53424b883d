-- ===== src/Tests/Journals.antt =====
-- Journals, their reading back, and a controller.
use alpha_orchestration.Prelude.{◌≡◌, refl, true, not, ◌||◌, false, none, some, List, [], ◌∷◌, All}
use alpha_orchestration.Prelude.Text.{strip}
use alpha_orchestration.Result.{ok, runtime_error}
use alpha_orchestration.Domain.Enums.{run_created}
use alpha_orchestration.Domain.Spec.{make_spec, universe_bounds, spec_to_dict, spec_from_dict}
use alpha_orchestration.Domain.Event.{RunEvent, event_to_dict, event_from_dict}
use alpha_orchestration.Domain.State.{terminal}
use alpha_orchestration.Domain.RoundTrip.{event_from_dict-to_dict, spec_from_dict-to_dict}
use alpha_orchestration.Journal.Verifier.{Hashing, verify, all_finite}
use alpha_orchestration.Journal.Store.{Codec, JsonlJournal, new_jsonl, jsonl_append, memory_append}
use alpha_orchestration.Journal.Load.{load_events}
use alpha_orchestration.Journal.RoundTrip.{
  event_value, IsReadable, verify_all, write_all, load_events-written,
}
use alpha_orchestration.Controller.{
  RunController, Reaction, new_controller, start, publish, reduced, settle, notify, on_cancelled,
  on_failed, finish, cancel,
}
use alpha_orchestration.Controller.Ends.{controller-ends}
use alpha_orchestration.Controller.Told.{IsCalm, IsTold, controller-IsTold}
use alpha_orchestration.Controller.Steps.{starts}
use alpha_orchestration.Controller.Replays.{here, next, IsAccounted, controller-IsAccounted}
use alpha_orchestration.Tests.Samples.{plain_python, mandate, at, program}

abbrev first : RunEvent
first = at 0 run_created []

event_from_dict-to_dict_example :
    event_from_dict plain_python (event_to_dict plain_python first) ≡ ok first
event_from_dict-to_dict_example = event_from_dict-to_dict plain_python first refl

accepted : make_spec mandate ≡ ok mandate
unfolding make_spec strip universe_bounds
accepted = refl

spec_from_dict-to_dict_example : spec_from_dict plain_python (spec_to_dict mandate) ≡ ok mandate
spec_from_dict-to_dict_example = spec_from_dict-to_dict plain_python mandate mandate accepted

-- A codec that knows one line.
abbrev one_line : Codec
one_line = record { dumps = λ v. "line"; loads = λ s. ok (event_value plain_python first) }

abbrev constant : Hashing
constant = record { digest = λ v. "0"; text_digest = λ s. "0" }

abbrev written : JsonlJournal
written = record { lines = "line" ∷ []; closed = false }

writes : write_all plain_python one_line new_jsonl (first ∷ []) ≡ ok written
unfolding write_all jsonl_append all_finite event_to_dict
writes = refl

verifies : verify_all constant none (first ∷ []) ≡ ok none
unfolding verify_all verify
verifies = refl

readable : IsReadable plain_python one_line first
unfolding strip
readable = record { visible = refl; decoded = refl; dated = refl }

load_events-written_example :
    load_events plain_python one_line constant written.lines ≡ ok (first ∷ [])
load_events-written_example =
    load_events-written plain_python one_line constant (first ∷ []) written none writes
      (readable, tt) verifies

-- One that raises at every event, and one that would come after it.
abbrev listeners : List Reaction
listeners = (λ past e. some runtime_error) ∷ (λ past e. none) ∷ []

abbrev begun : RunController
begun = (start plain_python 7 (new_controller mandate listeners)).1

controller-IsAccounted_example : IsAccounted plain_python mandate begun
controller-IsAccounted_example =
    controller-IsAccounted plain_python mandate listeners begun (next here (starts 7 begun refl))

-- One that never raises.
abbrev watched : RunController
watched = new_controller mandate ((λ past e. none) ∷ [])

abbrev watched_begun : RunController
watched_begun = (start plain_python 7 watched).1

watched-IsCalm : All IsCalm watched_begun.subscribers
unfolding program start publish reduced settle notify memory_append
watched-IsCalm = (λ past e. refl, tt)

controller-IsTold_example : IsTold watched watched_begun
controller-IsTold_example =
    controller-IsTold plain_python watched watched_begun (next here (starts 7 watched_begun refl))
      watched-IsCalm

begun_open : begun.journal.closed ≡ false
unfolding program start publish reduced settle notify memory_append
begun_open = refl

controller-ends_example :
    (terminal (on_cancelled plain_python 8 begun).1.state ≡ true)
    × (terminal (on_failed plain_python 8 "ValueError" "refused" begun).1.state ≡ true)
    × (terminal (finish plain_python 8 begun).1.state
        ≡ terminal begun.state || not begun.cancel_requested)
    × (terminal (cancel plain_python 8 begun).1.state ≡ terminal begun.state || not begun.started)
controller-ends_example =
    controller-ends plain_python mandate listeners begun 8 "ValueError" "refused"
      (next here (starts 7 begun refl)) begun_open

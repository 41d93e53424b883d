-- ===== src/Controller.antt =====
-- src/alpha_orchestration/controller.py: the run controller over a memory journal. The awaits between
-- two operations are the boundaries of steps: `_publish` holds its lock and does not await inside, so
-- it is one step. `now` is what `utc_now` returned. An operation returns the exception that it raised,
-- if any, with the controller as it was changed by then.
pub mod Steps
pub mod Replays
pub mod Told
pub mod Ends
use alpha_orchestration.Prelude.{
  ℕ, String, Bool, true, false, not, ◌&&◌, Option, none, some, List, [], ◌∷◌, ◌++◌, map,
  if◌then◌else◌,
}
use Prim.Native.String.{◌++◌ as ◌+++◌}
use alpha_orchestration.Prelude.Int.{ℤ, pos, next_ℤ}
use alpha_orchestration.Prelude.Dict.{Dict}
use alpha_orchestration.Result.{Error, Result, ok, err, runtime_error}
use alpha_orchestration.Json.{Json, int, str, obj, fields}
use alpha_orchestration.Json.Python.{Python}
use alpha_orchestration.Domain.Enums.{
  RunStatus, EventKind, run_created, run_started, run_paused, run_resumed, run_completed,
  run_cancelled, run_failed,
}
use alpha_orchestration.Domain.Spec.{RunSpec, spec_to_dict}
use alpha_orchestration.Domain.Event.{RunEvent}
use alpha_orchestration.Domain.State.{RunState, fresh_state, terminal}
use alpha_orchestration.Reducer.Step.{reduce_event}
use alpha_orchestration.Journal.Store.{MemoryJournal, new_memory, memory_append, memory_close}

-- `EventDraft` of ports.py.
pub record EventDraft : Type 0 where
  pub kind : EventKind
  pub message : String
  pub agent_id : Option String
  pub payload : Dict Json

-- What a subscriber does with an event, after the events that it was handed before: it returns, or
-- raises an exception.
abbrev pub Reaction : Type 0
Reaction = List RunEvent → RunEvent → Option Error

-- A subscriber and the events that it was handed.
pub record Subscriber : Type 0 where
  pub react : Reaction
  pub heard : List RunEvent

abbrev pub new_subscriber : Reaction → Subscriber
new_subscriber react = record { react = react; heard = [] }

pub record RunController : Type 0 where
  pub spec : RunSpec
  pub journal : MemoryJournal
  pub state : RunState
  pub subscribers : List Subscriber
  pub gate : Bool
  pub started : Bool
  pub cancel_requested : Bool
  pub journal_closed : Bool

-- `RunController(spec, runtime, journal, subscribers)` over a new journal.
abbrev pub new_controller : RunSpec → List Reaction → RunController
new_controller spec reactions = record {
  spec = spec;
  journal = new_memory;
  state = fresh_state spec;
  subscribers = map new_subscriber reactions;
  gate = true;
  started = false;
  cancel_requested = false;
  journal_closed = false;
}

-- `subscribe`
unfoldable pub subscribe : Reaction → RunController → RunController
subscribe react c = record c { subscribers = c.subscribers ++ new_subscriber react ∷ [] }

-- What an operation leaves: the exception that it raised, if any, and the controller, with all that
-- was changed before the exception.
abbrev pub Outcome : Type 0
Outcome = Option Error × RunController

-- The next statement, unless an exception is on its way.
abbrev pub and_then : Outcome → (RunController → Outcome) → Outcome
and_then (none, c) later = later c
and_then (some e, c) later = (some e, c)

abbrev pub hand : RunEvent → Subscriber → Subscriber
hand event s = record s { heard = s.heard ++ event ∷ [] }

-- The loop, from what the next subscriber did with the event: the subscribers after one that raised
-- are not called. `told` is what calling them leaves.
abbrev pub go_on :
    RunEvent
    → Subscriber
    → List Subscriber
    → Option Error × List Subscriber
    → Option Error
    → Option Error × List Subscriber
go_on event s rest (raised, told) none = (raised, hand event s ∷ told)
go_on event s rest (raised, told) (some e) = (some e, hand event s ∷ rest)

-- `for subscriber in tuple(self._subscribers): subscriber(event)`
unfoldable pub notify : RunEvent → List Subscriber → Option Error × List Subscriber
notify event [] = (none, [])
notify event (s ∷ rest) = go_on event s rest (notify event rest) (s.react s.heard event)

-- `self.journal.append(event)`, from what the append returned or raised.
abbrev pub appended : Result MemoryJournal → RunController → Outcome
appended (err e) c = (some e, c)
appended (ok journal) c = (none, record c { journal = journal })

-- `self.state = next_state`, and the loop over the subscribers.
unfoldable pub settle : RunState → RunEvent → RunController → Outcome
unfolding notify
settle next_state event c =
    let (raised, told) = notify event c.subscribers in
    (raised, record c { state = next_state; subscribers = told })

-- `_publish`, from what `reduce_event` returned or raised.
unfoldable pub reduced : Result RunState → RunEvent → RunController → Outcome
unfolding settle
reduced (err e) event c = (some e, c)
reduced (ok next_state) event c =
    and_then (appended (memory_append c.journal event) c) (settle next_state event)

abbrev pub close_journal : RunController → RunController
close_journal c =
    if c.journal_closed
    then c
    else record c { journal = memory_close c.journal; journal_closed = true }

abbrev can_pause : RunStatus → Bool
can_pause RunStatus.running = true
can_pause RunStatus.synthesizing = true
can_pause _ = false

abbrev is_paused : RunStatus → Bool
is_paused RunStatus.paused = true
is_paused _ = false

abbrev pub plain : EventKind → String → EventDraft
plain kind message = record { kind = kind; message = message; agent_id = none; payload = [] }

module _ (py : Python) (now : ℕ) where
  abbrev pub drafted : RunController → EventDraft → RunEvent
  drafted c draft = record {
    schema_version = pos 1;
    run_id = c.spec.run_id;
    sequence = next_ℤ c.state.last_sequence;
    kind = draft.kind;
    timestamp = now;
    message = draft.message;
    agent_id = draft.agent_id;
    payload = draft.payload;
  }

  -- `_publish`
  unfoldable pub publish : EventDraft → RunController → Outcome
  unfolding reduced
  publish draft c = let event = drafted c draft in reduced (reduce_event py c.state event) event c

  abbrev pub created : RunController → EventDraft
  created c = record {
    kind = run_created;
    message = "Research mandate created for " +++ c.spec.sector;
    agent_id = none;
    payload = ("spec", obj (fields (spec_to_dict c.spec))) ∷ [];
  }

  -- `start`, up to the creation of the task.
  unfoldable pub start : RunController → Outcome
  start c =
      if c.started
      then (some runtime_error, c)
      else and_then (publish (created c) c) (λ d. (none, record d { started = true }))

  -- `_drive`: its first event.
  unfoldable pub begin : RunController → Outcome
  begin c =
      publish
        (plain run_started (
          "Admitted "
          +++ py.text_of (int c.spec.agent_budget)
          +++ " logical agents over "
          +++ py.text_of (int c.spec.active_slots)
          +++ " active slots"))
        c

  -- One round of `async for`: the gate is open, so the draft is dropped or published.
  unfoldable pub take_draft : EventDraft → RunController → Outcome
  take_draft draft c = if c.cancel_requested then (none, c) else publish draft c

  -- After the stream.
  unfoldable pub finish : RunController → Outcome
  finish c =
      if not (terminal c.state) && not c.cancel_requested
      then publish (plain run_completed "Candidate triage is ready for human review") c
      else (none, c)

  -- `except asyncio.CancelledError`
  unfoldable pub on_cancelled : RunController → Outcome
  on_cancelled c =
      if terminal c.state
      then (none, c)
      else publish (plain run_cancelled "Run cancelled; pending work was drained") c

  -- `except Exception as exc`, where `name` is its class and `text` is
  -- `str(exc)`.
  unfoldable pub on_failed : String → String → RunController → Outcome
  on_failed name text c =
      if terminal c.state
      then (none, c)
      else publish
          (record {
            kind = run_failed;
            message = "Run failed: " +++ name;
            agent_id = none;
            payload = ("error", str text) ∷ [];
          })
          c

  unfoldable pub pause : RunController → Outcome
  pause c =
      if can_pause c.state.status
      then and_then (publish (plain run_paused "Run paused by operator") c)
          (λ d. (none, record d { gate = false }))
      else (none, c)

  unfoldable pub resume : RunController → Outcome
  resume c =
      if is_paused c.state.status
      then (let opened = record c { gate = true } in
          publish (plain run_resumed "Run resumed by operator") opened)
      else (none, c)

  -- `cancel`: a started task is asked to stop, and ends by `on_cancelled`.
  unfoldable pub cancel : RunController → Outcome
  cancel c =
      if terminal c.state
      then (none, c)
      else (let asked = record c { cancel_requested = true; gate = true } in
          if asked.started
          then (none, asked)
          else and_then (publish (plain run_cancelled "Run cancelled") asked)
              (λ d. (none, close_journal d)))

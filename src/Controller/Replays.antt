-- ===== src/Controller/Replays.antt =====
-- The journal of a run accounts for its state at every moment.
use alpha_orchestration.Prelude.{
  List, map, All, Option, none, some, ◌≡◌, refl, sym, ap, ◌∙◌, [], ◌∷◌, ◌++◌,
}
use alpha_orchestration.Result.{Error, ok}
use alpha_orchestration.Json.Python.{Python}
use alpha_orchestration.Domain.Spec.{RunSpec}
use alpha_orchestration.Domain.Event.{RunEvent}
use alpha_orchestration.Domain.State.{RunState, fresh_state}
use alpha_orchestration.Reducer.Step.{reduce_event}
use alpha_orchestration.Reducer.Run.{reduce_all, reduce_all-append}
use alpha_orchestration.Controller.{
  RunController, Reaction, Subscriber, new_subscriber, go_on, notify, new_controller,
}
use alpha_orchestration.Controller.Steps.{Step, Published, quiet, event, Step-Published}

pub data Reach (py : Python) (c : RunController) : RunController → Type 0 where
  here : Reach py c c
  next : {d e : RunController} → Reach py c d → Step py d e → Reach py c e

-- The events were picked from the list, in its order and each at most once.
pub data Picked : List RunEvent → List RunEvent → Type 0 where
  nothing : (from : List RunEvent) → Picked [] from
  passes :
      {heard from : List RunEvent} (e : RunEvent)
      → Picked heard from
      → Picked heard (from ++ e ∷ [])
  picks :
      {heard from : List RunEvent} (e : RunEvent)
      → Picked heard from
      → Picked (heard ++ e ∷ []) (from ++ e ∷ [])

abbrev pub AllPicked : List RunEvent → List Subscriber → Type 0
AllPicked events = All (λ s. Picked s.heard events)

-- The journal's events lead from a fresh state to the state, and each subscriber was handed events
-- picked from them.
pub record IsAccounted (py : Python) (spec : RunSpec) (c : RunController) : Type 0 where
  pub mandate : c.spec ≡ spec
  pub replays : reduce_all py (fresh_state spec) c.journal.events ≡ ok c.state
  pub heard : AllPicked c.journal.events c.subscribers

new-AllPicked :
    (events : List RunEvent) (reactions : List Reaction)
    → AllPicked events (map new_subscriber reactions)
new-AllPicked events [] = tt
new-AllPicked events (r ∷ rest) = (nothing events, new-AllPicked events rest)

append-AllPicked :
    (events : List RunEvent) (ss ts : List Subscriber)
    → AllPicked events ss
    → AllPicked events ts
    → AllPicked events (ss ++ ts)
append-AllPicked events [] ts h k = k
append-AllPicked events (s ∷ ss) ts (p, h) k = (p, append-AllPicked events ss ts h k)

pass-AllPicked :
    (events : List RunEvent) (e : RunEvent) (ss : List Subscriber)
    → AllPicked events ss
    → AllPicked (events ++ e ∷ []) ss
pass-AllPicked events e [] h = tt
pass-AllPicked events e (s ∷ ss) (p, h) = (passes e p, pass-AllPicked events e ss h)

go_on-AllPicked :
    (events : List RunEvent) (e : RunEvent) (s : Subscriber) (ss told : List Subscriber)
    (raised reaction : Option Error)
    → AllPicked events (s ∷ ss)
    → AllPicked (events ++ e ∷ []) told
    → AllPicked (events ++ e ∷ []) (go_on e s ss (raised, told) reaction).1
go_on-AllPicked events e s ss told raised none (p, h) k = (picks e p, k)
go_on-AllPicked events e s ss told raised (some x) (p, h) k =
    (picks e p, pass-AllPicked events e ss h)

notify-AllPicked :
    (events : List RunEvent) (e : RunEvent) (ss : List Subscriber)
    → AllPicked events ss
    → AllPicked (events ++ e ∷ []) (notify e ss).1
unfolding notify
notify-AllPicked events e [] h = tt
notify-AllPicked events e (s ∷ ss) (p, h) =
    go_on-AllPicked events e s ss (notify e ss).1 (notify e ss).0 (s.react s.heard e) (p, h)
      (notify-AllPicked events e ss h)

new-IsAccounted :
    (py : Python) (spec : RunSpec) (reactions : List Reaction)
    → IsAccounted py spec (new_controller spec reactions)
unfolding reduce_all
new-IsAccounted py spec reactions = record {
  mandate = refl;
  replays = refl;
  heard = new-AllPicked [] reactions;
}

reduce_all-one :
    (py : Python) (s t : RunState) (e : RunEvent)
    → reduce_event py s e ≡ ok t
    → reduce_all py s (e ∷ []) ≡ ok t
unfolding reduce_all
reduce_all-one py s t e h = rw h refl

Published-IsAccounted :
    (py : Python) (spec : RunSpec) (c d : RunController)
    → IsAccounted py spec c
    → Published py c d
    → IsAccounted py spec d
Published-IsAccounted py spec c d a (quiet new p q r s) = record {
  mandate = p ∙ a.mandate;
  replays = ap (reduce_all py (fresh_state spec)) r ∙ a.replays ∙ ap ok (sym q);
  heard =
      rw (r, s)
        (append-AllPicked c.journal.events c.subscribers (map new_subscriber new) a.heard
          (new-AllPicked c.journal.events new));
}
Published-IsAccounted py spec c d a (event e p q r s) = record {
  mandate = p ∙ a.mandate;
  replays =
      ap (reduce_all py (fresh_state spec)) r
      ∙ reduce_all-append py (fresh_state spec) c.state c.journal.events (e ∷ []) a.replays
      ∙ reduce_all-one py c.state d.state e q;
  heard = rw (r, s) (notify-AllPicked c.journal.events e c.subscribers a.heard);
}

Reach-IsAccounted :
    (py : Python) (spec : RunSpec) (c d : RunController)
    → IsAccounted py spec c
    → Reach py c d
    → IsAccounted py spec d
Reach-IsAccounted py spec c d a here = a
Reach-IsAccounted py spec c d a (next {d = m} r step) =
    Published-IsAccounted py spec m d (Reach-IsAccounted py spec c m a r)
      (Step-Published py m d step)

-- However subscriptions, starts, drafts, pauses, resumptions, cancellations, failures and closings
-- interleave, also where the reducer, the journal or a subscriber raises in the middle of one, the
-- events that the journal holds reduce a fresh state to the controller's state, and what each
-- subscriber was handed are events of the journal, in its order and each at most once.
pub controller-IsAccounted :
    (py : Python) (spec : RunSpec) (reactions : List Reaction) (c : RunController)
    → Reach py (new_controller spec reactions) c
    → IsAccounted py spec c
controller-IsAccounted py spec reactions c r =
    Reach-IsAccounted py spec (new_controller spec reactions) c (new-IsAccounted py spec reactions)
      r

-- ===== src/Controller/Told.antt =====
-- What the subscribers of a run are handed when none of them raises.
use mathlib.Core.List.{append_assoc, append-nil}
use alpha_orchestration.Prelude.{
  ◌≡◌, refl, sym, ap, ◌∙◌, subst, Option, none, some, List, [], ◌∷◌, ◌++◌, map, All,
}
use alpha_orchestration.Result.{Error}
use alpha_orchestration.Json.Python.{Python}
use alpha_orchestration.Domain.Event.{RunEvent}
use alpha_orchestration.Controller.{RunController, Subscriber, new_subscriber, hand, go_on, notify}
use alpha_orchestration.Controller.Steps.{Published, quiet, event, Step-Published}
use alpha_orchestration.Controller.Replays.{Reach, here, next}

-- A subscriber that never raises.
abbrev pub IsCalm : Subscriber → Type 0
IsCalm s = (past : List RunEvent) (e : RunEvent) → s.react past e ≡ none

abbrev pub told : List RunEvent → Subscriber → Subscriber
told events s = record s { heard = s.heard ++ events }

-- Between the two, the journal has got `added`, every subscriber was handed exactly that, and the
-- others came later.
pub record IsTold (c d : RunController) : Type 0 where
  pub added : List RunEvent
  pub later : List Subscriber
  pub kept : d.journal.events ≡ c.journal.events ++ added
  pub handed : d.subscribers ≡ map (told added) c.subscribers ++ later

unappend-IsCalm : (ss ts : List Subscriber) → All IsCalm (ss ++ ts) → All IsCalm ss
unappend-IsCalm [] ts h = tt
unappend-IsCalm (s ∷ ss) ts (p, h) = (p, unappend-IsCalm ss ts h)

go_on-IsCalm :
    (e : RunEvent) (s : Subscriber) (ss heard : List Subscriber) (raised reaction : Option Error)
    → (All IsCalm heard → All IsCalm ss)
    → All IsCalm (go_on e s ss (raised, heard) reaction).1
    → All IsCalm (s ∷ ss)
go_on-IsCalm e s ss heard raised none back (p, h) = (p, back h)
go_on-IsCalm e s ss heard raised (some x) back (p, h) = (p, h)

notify-IsCalm : (e : RunEvent) (ss : List Subscriber) → All IsCalm (notify e ss).1 → All IsCalm ss
unfolding notify
notify-IsCalm e [] h = tt
notify-IsCalm e (s ∷ ss) h =
    go_on-IsCalm e s ss (notify e ss).1 (notify e ss).0 (s.react s.heard e) (notify-IsCalm e ss) h

go_on_calm :
    (e : RunEvent) (s : Subscriber) (ss heard : List Subscriber) (raised reaction : Option Error)
    → reaction ≡ none
    → heard ≡ map (hand e) ss
    → (go_on e s ss (raised, heard) reaction).1 ≡ map (hand e) (s ∷ ss)
go_on_calm e s ss heard raised none q h = ap (λ rest. hand e s ∷ rest) h
go_on_calm e s ss heard raised (some x) q h = absurd cc

notify-calm :
    (e : RunEvent) (ss : List Subscriber) → All IsCalm ss → (notify e ss).1 ≡ map (hand e) ss
unfolding notify
notify-calm e [] h = refl
notify-calm e (s ∷ ss) (p, h) =
    go_on_calm e s ss (notify e ss).1 (notify e ss).0 (s.react s.heard e) (p s.heard e)
      (notify-calm e ss h)

told_none : (ss : List Subscriber) → map (told []) ss ++ [] ≡ ss
told_none [] = refl
told_none (s ∷ ss) =
    ap (λ h. record s { heard = h } ∷ (map (told []) ss ++ [])) (append-nil s.heard)
    ∙ ap (λ rest. s ∷ rest) (told_none ss)

map-hand :
    (e : RunEvent) (added : List RunEvent) (ss later : List Subscriber)
    → map (hand e) (map (told added) ss ++ later)
      ≡ map (told (added ++ e ∷ [])) ss ++ map (hand e) later
map-hand e added [] later = refl
map-hand e added (s ∷ ss) later =
    ap (λ h. record s { heard = h } ∷ map (hand e) (map (told added) ss ++ later))
      (append_assoc s.heard added (e ∷ []))
    ∙ ap (λ rest. told (added ++ e ∷ []) s ∷ rest) (map-hand e added ss later)

Published-IsTold :
    (py : Python) (c m d : RunController)
    → All IsCalm m.subscribers
    → IsTold c m
    → Published py m d
    → IsTold c d
Published-IsTold py c m d calm t (quiet new p q r s) = record {
  added = t.added;
  later = t.later ++ map new_subscriber new;
  kept = r ∙ t.kept;
  handed =
      s
      ∙ ap (λ l. l ++ map new_subscriber new) t.handed
      ∙ append_assoc (map (told t.added) c.subscribers) t.later (map new_subscriber new);
}
Published-IsTold py c m d calm t (event e p q r s) = record {
  added = t.added ++ e ∷ [];
  later = map (hand e) t.later;
  kept = r ∙ ap (λ l. l ++ e ∷ []) t.kept ∙ append_assoc c.journal.events t.added (e ∷ []);
  handed =
      s
      ∙ notify-calm e m.subscribers calm
      ∙ ap (map (hand e)) t.handed
      ∙ map-hand e t.added c.subscribers t.later;
}

before-IsCalm :
    (py : Python) (m d : RunController)
    → Published py m d
    → All IsCalm d.subscribers
    → All IsCalm m.subscribers
before-IsCalm py m d (quiet new p q r s) calm =
    unappend-IsCalm m.subscribers (map new_subscriber new) (subst (All IsCalm) s calm)
before-IsCalm py m d (event e p q r s) calm =
    notify-IsCalm e m.subscribers (subst (All IsCalm) s calm)

-- Between any two moments of a run, when no subscriber of the later moment ever raises: the events
-- that the journal has got in between are exactly those that every subscriber of the earlier moment
-- was handed, in the same order, whatever other steps and new subscriptions interleave.
pub controller-IsTold :
    (py : Python) (c d : RunController) → Reach py c d → All IsCalm d.subscribers → IsTold c d
controller-IsTold py c d here calm = record {
  added = [];
  later = [];
  kept = sym (append-nil c.journal.events);
  handed = sym (told_none c.subscribers);
}
controller-IsTold py c d (next {d = m} r step) calm =
    let done = Step-Published py m d step in
    let before = before-IsCalm py m d done calm in
    Published-IsTold py c m d before (controller-IsTold py c m r before) done

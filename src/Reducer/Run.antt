-- ===== src/Reducer/Run.antt =====
-- The reduction of a whole list of events (the loop of `replay` in journal.py), and a proof rule for
-- it.
use alpha_orchestration.Prelude.{◌≡◌, subst, List, [], ◌∷◌, ◌++◌}
use alpha_orchestration.Result.{Result, ok, ◌>>=◌, >>=-eq-ok}
use alpha_orchestration.Json.Python.{Python}
use alpha_orchestration.Domain.Event.{RunEvent}
use alpha_orchestration.Domain.State.{RunState}
use alpha_orchestration.Reducer.Step.{reduce_event}

-- `for event in events: state = reduce_event(state, event)`
unfoldable pub reduce_all : Python → RunState → List RunEvent → Result RunState
reduce_all py s [] = ok s
reduce_all py s (e ∷ es) = reduce_event py s e >>= λ t. reduce_all py t es

pub reduce_all-nil : (py : Python) (s t : RunState) → reduce_all py s [] ≡ ok t → s ≡ t
unfolding reduce_all
reduce_all-nil py s t h = cc

pub reduce_all-cons :
    (py : Python) (s t : RunState) (e : RunEvent) (es : List RunEvent)
    → reduce_all py s (e ∷ es) ≡ ok t
    → (m : RunState) × (reduce_event py s e ≡ ok m) × (reduce_all py m es ≡ ok t)
unfolding reduce_all
reduce_all-cons py s t e es h = >>=-eq-ok (reduce_event py s e) (λ m. reduce_all py m es) h

pub reduce_all-append :
    (py : Python) (s m : RunState) (es fs : List RunEvent)
    → reduce_all py s es ≡ ok m
    → reduce_all py s (es ++ fs) ≡ reduce_all py m fs
unfolding reduce_all
reduce_all-append py s m [] fs h = cc
reduce_all-append py s m (e ∷ es) fs h =
    let (n, one, rest) = reduce_all-cons py s m e es h in
    rw one (reduce_all-append py n m es fs rest)

-- What every accepted event keeps holds after all of them.
pub reduce_all-keeps {ℓ} :
    (py : Python) (P : RunState → Type ℓ)
    → ((s t : RunState) (e : RunEvent) → P s → reduce_event py s e ≡ ok t → P t)
    → (s t : RunState) (es : List RunEvent) → P s
    → reduce_all py s es ≡ ok t
    → P t
reduce_all-keeps py P step s t [] p h = subst P (reduce_all-nil py s t h) p
reduce_all-keeps py P step s t (e ∷ es) p h =
    let (m, one, rest) = reduce_all-cons py s t e es h in
    reduce_all-keeps py P step m t es (step s m e p one) rest

-- ===== src/Reducer/History.antt =====
-- What the run state remembers of its events: the mandate, the numbering and the recent window.
use mathlib.Core.List.{append_assoc, append-nil}
use alpha_orchestration.Prelude.{
  ℕ, zero, suc, ◌+◌, ◌≡◌, refl, sym, ap, subst, ◌∙◌, List, [], ◌∷◌, ◌++◌, take_last, take_last-snoc,
  length, length-append, arith,
}
use alpha_orchestration.Prelude.Int.{pos, sub_ℕ, next_ℤ}
use alpha_orchestration.Result.{ok}
use alpha_orchestration.Json.Python.{Python}
use alpha_orchestration.Domain.Spec.{RunSpec}
use alpha_orchestration.Domain.Event.{RunEvent}
use alpha_orchestration.Domain.State.{RunState, fresh_state}
use alpha_orchestration.Reducer.Envelope.{Accepted, reduce_event-Accepted}
use alpha_orchestration.Reducer.Run.{reduce_all, reduce_all-nil, reduce_all-cons}

-- The events of a run, numbered from `n`.
abbrev pub IsNumbered : RunSpec → ℕ → List RunEvent → Type 0
IsNumbered spec n [] = Unit {0}
IsNumbered spec n (e ∷ es) =
    (e.sequence ≡ pos n)
    × (e.run_id ≡ spec.run_id)
    × (e.schema_version ≡ pos 1)
    × IsNumbered spec (suc n) es

-- The state after the events `past`.
pub record Remembers (spec : RunSpec) (past : List RunEvent) (s : RunState) : Type 0 where
  pub mandate : s.spec ≡ spec
  pub window : s.recent_events ≡ take_last 80 past
  pub numbered : s.last_sequence ≡ sub_ℕ (length past) 1

next_of_count : (n : ℕ) → next_ℤ (sub_ℕ n 1) ≡ pos n
next_of_count zero = refl
next_of_count (suc n) = ground arith

count_of_next : (n : ℕ) → pos n ≡ sub_ℕ (n + 1) 1
count_of_next n = ground arith

Remembers-step :
    (py : Python) (spec : RunSpec) (past : List RunEvent) (s t : RunState) (e : RunEvent)
    → Remembers spec past s
    → Accepted s e t
    → Remembers spec (past ++ e ∷ []) t
Remembers-step py spec past s t e r a = record {
  mandate = a.spec ∙ r.mandate;
  window = a.recent ∙ ap (λ xs. take_last 79 xs ++ e ∷ []) r.window ∙ take_last-snoc 79 past e;
  numbered =
      a.sequence
      ∙ a.in_order
      ∙ ap next_ℤ r.numbered
      ∙ next_of_count (length past)
      ∙ count_of_next (length past)
      ∙ ap (λ n. sub_ℕ n 1) (sym (length-append past (e ∷ [])));
}

reduce_all-Remembers :
    (py : Python) (spec : RunSpec) (es past : List RunEvent) (s t : RunState)
    → Remembers spec past s
    → reduce_all py s es ≡ ok t
    → Remembers spec (past ++ es) t × IsNumbered spec (length past) es
reduce_all-Remembers py spec [] past s t r h =
    (rw append-nil (subst (Remembers spec past) (reduce_all-nil py s t h) r), tt)
reduce_all-Remembers py spec (e ∷ es) past s t r h =
    let (m, one, rest) = reduce_all-cons py s t e es h in
    let a = reduce_event-Accepted py s e m one in
    let (all_past, later) =
      reduce_all-Remembers py spec es (past ++ e ∷ []) m t (Remembers-step py spec past s m e r a)
        rest in
    (
      subst (λ xs. Remembers spec xs t) (append_assoc past (e ∷ []) es) all_past,
      (
        a.in_order ∙ ap next_ℤ r.numbered ∙ next_of_count (length past),
        a.same_run ∙ ap (λ x. x.run_id) r.mandate,
        a.schema,
        subst (λ n. IsNumbered spec n es) (omega (arith, length-append past (e ∷ []))) later,
      ),
    )

fresh-Remembers : (spec : RunSpec) → Remembers spec [] (fresh_state spec)
fresh-Remembers spec = record { mandate = refl; window = refl; numbered = refl }

-- When a list of events is reduced from a fresh state, the events carry schema 1, the run's id and
-- the numbers 0, 1, 2, … in order; and the final state has the mandate that it began with, as last
-- sequence one less than the number of events, and as recent events the last 80 of them.
pub reduce_all-history :
    (py : Python) (spec : RunSpec) (es : List RunEvent) (s : RunState)
    → reduce_all py (fresh_state spec) es ≡ ok s
    → Remembers spec es s × IsNumbered spec 0 es
reduce_all-history py spec es s h =
    reduce_all-Remembers py spec es [] (fresh_state spec) s (fresh-Remembers spec) h

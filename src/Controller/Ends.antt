-- ===== src/Controller/Ends.antt =====
-- How a drive brings its run to an end.
use alpha_orchestration.Prelude.{
  ◌≡◌, refl, sym, ap, ◌∙◌, ℕ, String, true, false, not, ◌||◌, none, some, List, eq_iff, arith,
  Bool-cases, if◌then◌else◌, inl, inr,
}
use alpha_orchestration.Prelude.Int.{pos, next_ℤ, eqb_ℤ-refl}
use alpha_orchestration.Result.{ok}
use alpha_orchestration.Json.Python.{Python}
use alpha_orchestration.Domain.Enums.{EventKind, run_completed, run_cancelled, run_failed}
use alpha_orchestration.Domain.Spec.{RunSpec}
use alpha_orchestration.Domain.Event.{RunEvent}
use alpha_orchestration.Domain.State.{RunState, terminal}
use alpha_orchestration.Reducer.Step.{reduce_event, dispatch, advance, accepts}
use alpha_orchestration.Reducer.Endings.{is_ending}
use alpha_orchestration.Reducer.History.{reduce_all-history}
use alpha_orchestration.Journal.Store.{memory_append}
use alpha_orchestration.Controller.{
  EventDraft, RunController, Reaction, new_controller, drafted, publish, reduced, settle, finish,
  on_cancelled, on_failed, cancel, plain, Outcome, and_then, close_journal,
}
use alpha_orchestration.Controller.Replays.{Reach, controller-IsAccounted}

dispatch-ending :
    (py : Python) (e : RunEvent) (kind : EventKind) (s : RunState)
    → is_ending kind ≡ true
    → (t : RunState) × (dispatch py e kind s ≡ ok t) × (terminal t ≡ true)
unfolding dispatch
dispatch-ending py e run_completed s h = (_, refl, refl)
dispatch-ending py e run_cancelled s h = (_, refl, refl)
dispatch-ending py e run_failed s h = (_, refl, refl)
dispatch-ending py e _ s h = absurd cc

closed-state : (o : Outcome) → (and_then o (λ d. (none, close_journal d))).1.state ≡ o.1.state
closed-state (none, c) = ground arith
closed-state (some e, c) = refl

module _ (py : Python) (now : ℕ) (c : RunController) where
  accepts-drafted :
      (draft : EventDraft)
      → c.state.spec ≡ c.spec
      → terminal c.state ≡ false
      → accepts c.state (drafted py now c draft) ≡ true
  accepts-drafted draft same open_run =
      let same_id : c.spec.run_id ≡ c.state.spec.run_id = sym (ap (λ s. s.run_id) same) in
      ground (
        arith,
        eqb_ℤ-refl (pos 1),
        eqb_ℤ-refl (next_ℤ c.state.last_sequence),
        eq_iff c.spec.run_id c.state.spec.run_id,
      )

  -- Publishing what the reducer accepts, into an open journal, even where a subscriber raises.
  publish-state :
      (draft : EventDraft) (t : RunState)
      → reduce_event py c.state (drafted py now c draft) ≡ ok t
      → c.journal.closed ≡ false
      → (publish py now draft c).1.state ≡ t
  unfolding publish reduced settle memory_append
  publish-state draft t h opened = rw (h, opened) refl

  publish-ending :
      (draft : EventDraft)
      → c.state.spec ≡ c.spec
      → c.journal.closed ≡ false
      → is_ending draft.kind ≡ true
      → terminal c.state ≡ false
      → terminal (publish py now draft c).1.state ≡ true
  unfolding reduce_event
  publish-ending draft same opened ends open_run =
      let e = drafted py now c draft in
      let (t, d, over) = dispatch-ending py e draft.kind (advance c.state e) ends in
      ap terminal (publish-state draft t (rw (accepts-drafted draft same open_run) d) opened) ∙ over

  -- A last statement that publishes an ending unless the run is over.
  guarded_ending :
      (draft : EventDraft)
      → c.state.spec ≡ c.spec
      → c.journal.closed ≡ false
      → is_ending draft.kind ≡ true
      → terminal (if terminal c.state then (none, c) else publish py now draft c).1.state ≡ true
  guarded_ending draft same opened ends = elim (Bool-cases (terminal c.state)) [
    | inl e ↦ rw e e
    | inr e ↦ rw e (publish-ending draft same opened ends e)
  ]

module _ (py : Python) (now : ℕ) (c : RunController) where
  finish_ends :
      c.state.spec ≡ c.spec
      → c.journal.closed ≡ false
      → terminal (finish py now c).1.state ≡ terminal c.state || not c.cancel_requested
  unfolding finish
  finish_ends same opened = elim (Bool-cases (terminal c.state)) [
    | inl e ↦ ground arith
    | inr e ↦ elim (Bool-cases c.cancel_requested) [
      | inl g ↦ ground arith
      | inr g ↦ ground (arith, publish-ending py now c completed same opened refl e)
    ]
  ]
    where
      completed : EventDraft
      completed = plain run_completed "Candidate triage is ready for human review"

  cancel_ends :
      c.state.spec ≡ c.spec
      → c.journal.closed ≡ false
      → terminal (cancel py now c).1.state ≡ terminal c.state || not c.started
  unfolding cancel
  cancel_ends same opened = elim (Bool-cases (terminal c.state)) [
    | inl e ↦ ground arith
    | inr e ↦ elim (Bool-cases c.started) [
      | inl g ↦ ground arith
      | inr g ↦
          let o = publish py now stopped asked in
          ground (arith, closed-state o, publish-ending py now asked stopped same opened refl e)
    ]
  ]
    where
      asked : RunController
      asked = record c { cancel_requested = true; gate = true }

      stopped : EventDraft
      stopped = plain run_cancelled "Run cancelled"

-- In every controller that is reached from a new one and whose journal is open, whatever its
-- subscribers raise: the handlers of a cancellation and of an exception leave the run over; so does
-- the end of the stream unless a cancellation was requested, and so does `cancel` before the start.
-- Where these do not publish, they leave the run over or not as it was.
pub controller-ends :
    (py : Python) (spec : RunSpec) (reactions : List Reaction) (c : RunController) (now : ℕ)
    (name text : String)
    → Reach py (new_controller spec reactions) c
    → c.journal.closed ≡ false
    → (terminal (on_cancelled py now c).1.state ≡ true)
      × (terminal (on_failed py now name text c).1.state ≡ true)
      × (terminal (finish py now c).1.state ≡ terminal c.state || not c.cancel_requested)
      × (terminal (cancel py now c).1.state ≡ terminal c.state || not c.started)
unfolding on_cancelled on_failed
controller-ends py spec reactions c now name text r opened =
    let books = controller-IsAccounted py spec reactions c r in
    let history = (reduce_all-history py spec c.journal.events c.state books.replays).0 in
    let same : c.state.spec ≡ c.spec = history.mandate ∙ sym books.mandate in
    (
      guarded_ending py now c _ same opened refl,
      guarded_ending py now c _ same opened refl,
      finish_ends py now c same opened,
      cancel_ends py now c same opened,
    )

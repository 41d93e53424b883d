-- ===== src/Controller/Steps.antt =====
-- The operations of the controller as steps, in whatever order the event loop runs them, and what
-- one step does to the journal, the state and the subscribers.
use alpha_orchestration.Prelude.{
  ℕ, ◌≡◌, refl, sym, ap, subst, ◌∙◌, String, Bool, true, false, none, some, List, [], ◌∷◌, ◌++◌,
  map, arith, if◌then◌else◌,
}
use alpha_orchestration.Result.{Result, ok, err}
use alpha_orchestration.Json.Python.{Python}
use alpha_orchestration.Domain.Enums.{run_paused, run_cancelled}
use alpha_orchestration.Domain.Event.{RunEvent}
use alpha_orchestration.Domain.State.{RunState}
use alpha_orchestration.Reducer.Step.{reduce_event}
use alpha_orchestration.Journal.Store.{MemoryJournal, memory_append}
use alpha_orchestration.Controller.{
  EventDraft, RunController, Reaction, Subscriber, new_subscriber, subscribe, notify, appended,
  reduced, settle, and_then, close_journal, publish, start, begin, take_draft, finish, on_cancelled,
  on_failed, pause, resume, cancel, created, plain, Outcome,
}

-- One step of the controller. A step that raises leaves what it had changed; the drive goes on from
-- there by `cancelled` or `fails`.
pub data Step (py : Python) (c : RunController) : RunController → Type 0 where
  subscribes : (react : Reaction) (d : RunController) → d ≡ subscribe react c → Step py c d
  starts : (now : ℕ) (d : RunController) → d ≡ (start py now c).1 → Step py c d
  begins : (now : ℕ) (d : RunController) → d ≡ (begin py now c).1 → Step py c d
  drafts :
      (now : ℕ) (draft : EventDraft) (d : RunController)
      → c.gate ≡ true
      → d ≡ (take_draft py now draft c).1
      → Step py c d
  finishes : (now : ℕ) (d : RunController) → d ≡ (finish py now c).1 → Step py c d
  cancelled : (now : ℕ) (d : RunController) → d ≡ (on_cancelled py now c).1 → Step py c d
  fails :
      (now : ℕ) (name text : String) (d : RunController)
      → d ≡ (on_failed py now name text c).1
      → Step py c d
  pauses : (now : ℕ) (d : RunController) → d ≡ (pause py now c).1 → Step py c d
  resumes : (now : ℕ) (d : RunController) → d ≡ (resume py now c).1 → Step py c d
  cancels : (now : ℕ) (d : RunController) → d ≡ (cancel py now c).1 → Step py c d
  closes : (d : RunController) → d ≡ close_journal c → Step py c d

-- What a step does: nothing to these fields but that somebody may subscribe, or one event that the
-- reducer accepted is kept, becomes part of the state and is handed out.
pub data Published (py : Python) (c d : RunController) : Type 0 where
  quiet :
      (reactions : List Reaction)
      → d.spec ≡ c.spec
      → d.state ≡ c.state
      → d.journal.events ≡ c.journal.events
      → d.subscribers ≡ c.subscribers ++ map new_subscriber reactions
      → Published py c d
  event :
      (e : RunEvent)
      → d.spec ≡ c.spec
      → reduce_event py c.state e ≡ ok d.state
      → d.journal.events ≡ c.journal.events ++ e ∷ []
      → d.subscribers ≡ (notify e c.subscribers).1
      → Published py c d

-- The fields that `Published` reads.
record SameBooks (c d : RunController) : Type 0 where
  spec : d.spec ≡ c.spec
  state : d.state ≡ c.state
  events : d.journal.events ≡ c.journal.events
  subscribers : d.subscribers ≡ c.subscribers

append-nil : (ss : List Subscriber) → ss ≡ ss ++ []
append-nil [] = refl
append-nil (s ∷ ss) = ap (λ rest. s ∷ rest) (append-nil ss)

module _ {py : Python} where
  same-Published : {c d : RunController} → SameBooks c d → Published py c d
  same-Published {c} b = quiet [] b.spec b.state b.events (b.subscribers ∙ append-nil c.subscribers)

  Published-after : {c d e : RunController} → Published py c d → SameBooks d e → Published py c e
  Published-after (quiet new p q r s) b =
      quiet new (b.spec ∙ p) (b.state ∙ q) (b.events ∙ r) (b.subscribers ∙ s)
  Published-after {c} (event e p q r s) b =
      event e (b.spec ∙ p) (q ∙ ap ok (sym b.state)) (b.events ∙ r) (b.subscribers ∙ s)

  Published-before : {c d e : RunController} → SameBooks c d → Published py d e → Published py c e
  Published-before b (quiet new p q r s) =
      quiet new (p ∙ b.spec) (q ∙ b.state) (r ∙ b.events)
        (s ∙ ap (λ l. l ++ map new_subscriber new) b.subscribers)
  Published-before b (event e p q r s) =
      event e (p ∙ b.spec) (ap (λ t. reduce_event py t e) (sym b.state) ∙ q)
        (r ∙ ap (λ l. l ++ e ∷ []) b.events) (s ∙ ap (λ l. (notify e l).1) b.subscribers)

  still : (c : RunController) → Published py c c
  still c = same-Published (record { spec = refl; state = refl; events = refl; subscribers = refl })

  -- Of an operation that may raise, and of what follows it when it does not.
  and_then-Published :
      (c : RunController) (o : Outcome) (f : RunController → RunController)
      → Published py c o.1
      → ((d : RunController) → SameBooks d (f d))
      → Published py c (and_then o (λ d. (none, f d))).1
  and_then-Published c (none, d) f p same = Published-after p (same d)
  and_then-Published c (some e, d) f p same = p

  if-Published :
      (c : RunController) (b : Bool) (x y : Outcome)
      → Published py c x.1
      → Published py c y.1
      → Published py c (if b then x else y).1
  if-Published c true x y p q = p
  if-Published c false x y p q = q

module _ (py : Python) (now : ℕ) where
  appended-Published :
      (c : RunController) (e : RunEvent) (s : RunState) (kept : Result MemoryJournal)
      → memory_append c.journal e ≡ kept
      → reduce_event py c.state e ≡ ok s
      → Published py c (and_then (appended kept c) (settle s e)).1
  unfolding settle memory_append
  appended-Published c e s (err _) q h = still c
  appended-Published c e s (ok j) q h = event e refl h (ground arith) refl

  reduced-Published :
      (c : RunController) (e : RunEvent) (next_state : Result RunState)
      → reduce_event py c.state e ≡ next_state
      → Published py c (reduced next_state e c).1
  unfolding reduced
  reduced-Published c e (err _) h = still c
  reduced-Published c e (ok s) h = appended-Published c e s _ refl h

  publish-Published :
      (draft : EventDraft) (c : RunController) → Published py c (publish py now draft c).1
  unfolding publish
  publish-Published draft c = reduced-Published c _ _ refl

close-SameBooks : (c : RunController) → SameBooks c (close_journal c)
close-SameBooks c = ground arith

module _ (py : Python) (now : ℕ) (c : RunController) where
  subscribe-Published : (react : Reaction) → Published py c (subscribe react c)
  unfolding subscribe
  subscribe-Published react = quiet (react ∷ []) refl refl refl refl

  start-Published : Published py c (start py now c).1
  unfolding start
  start-Published = if-Published c c.started _ _ (still c) (
      and_then-Published c (publish py now (created py now c) c) (λ d. record d { started = true })
        (publish-Published py now (created py now c) c) (λ d. ground arith))

  pause-Published : Published py c (pause py now c).1
  unfolding pause
  pause-Published =
      if-Published c _ _ _
        (and_then-Published c (publish py now paused c) (λ d. record d { gate = false })
          (publish-Published py now paused c) (λ d. ground arith))
        (still c)
    where
      paused : EventDraft
      paused = plain run_paused "Run paused by operator"

  resume-Published : Published py c (resume py now c).1
  unfolding resume
  resume-Published =
      if-Published c _ _ _
        (Published-before {d = opened} (ground arith) (publish-Published py now _ opened)) (still c)
    where
      opened : RunController
      opened = record c { gate = true }

  cancel-Published : Published py c (cancel py now c).1
  unfolding cancel
  cancel-Published = if-Published c _ _ _ (still c) (
      Published-before {d = asked} (ground arith) (
        if-Published asked c.started _ _ (still asked) (
          and_then-Published asked (publish py now stopped asked) close_journal
            (publish-Published py now stopped asked) close-SameBooks)))
    where
      asked : RunController
      asked = record c { cancel_requested = true; gate = true }

      stopped : EventDraft
      stopped = plain run_cancelled "Run cancelled"

  begin-Published : Published py c (begin py now c).1
  unfolding begin
  begin-Published = publish-Published py now _ c

  take_draft-Published : (draft : EventDraft) → Published py c (take_draft py now draft c).1
  unfolding take_draft
  take_draft-Published draft =
      if-Published c c.cancel_requested _ _ (still c) (publish-Published py now draft c)

  finish-Published : Published py c (finish py now c).1
  unfolding finish
  finish-Published = if-Published c _ _ _ (publish-Published py now _ c) (still c)

  on_cancelled-Published : Published py c (on_cancelled py now c).1
  unfolding on_cancelled
  on_cancelled-Published = if-Published c _ _ _ (still c) (publish-Published py now _ c)

  on_failed-Published : (name text : String) → Published py c (on_failed py now name text c).1
  unfolding on_failed
  on_failed-Published name text = if-Published c _ _ _ (still c) (publish-Published py now _ c)

-- Every step publishes nothing or one event that the reducer accepted.
pub Step-Published : (py : Python) (c d : RunController) → Step py c d → Published py c d
Step-Published py c d (subscribes react _ e) =
    subst (Published py c) (sym e) (subscribe-Published py 0 c react)
Step-Published py c d (starts now _ e) = subst (Published py c) (sym e) (start-Published py now c)
Step-Published py c d (begins now _ e) = subst (Published py c) (sym e) (begin-Published py now c)
Step-Published py c d (drafts now draft _ open_gate e) =
    subst (Published py c) (sym e) (take_draft-Published py now c draft)
Step-Published py c d (finishes now _ e) =
    subst (Published py c) (sym e) (finish-Published py now c)
Step-Published py c d (cancelled now _ e) =
    subst (Published py c) (sym e) (on_cancelled-Published py now c)
Step-Published py c d (fails now name text _ e) =
    subst (Published py c) (sym e) (on_failed-Published py now c name text)
Step-Published py c d (pauses now _ e) = subst (Published py c) (sym e) (pause-Published py now c)
Step-Published py c d (resumes now _ e) = subst (Published py c) (sym e) (resume-Published py now c)
Step-Published py c d (cancels now _ e) = subst (Published py c) (sym e) (cancel-Published py now c)
Step-Published py c d (closes _ e) =
    subst (Published py c) (sym e) (same-Published (close-SameBooks c))

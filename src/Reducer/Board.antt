-- ===== src/Reducer/Board.antt =====
-- The candidates and the evidence of a run.
use alpha_orchestration.Prelude.{
  ◌≡◌, sym, subst, ◌∙◌, ap, String, true, some, List, [], arith, inl, inr, all_unique,
}
use alpha_orchestration.Prelude.Int.{pos, ◌≤ℤ◌}
use alpha_orchestration.Prelude.Dict.{Dict, lookup, insert, lookup-insert_cases}
use alpha_orchestration.Result.{Result, ok, err, ◌>>=◌, >>=-eq-ok}
use alpha_orchestration.Json.Python.{Python}
use alpha_orchestration.Domain.Enums.{EventKind, candidate_updated}
use alpha_orchestration.Domain.Candidate.{Candidate, make_candidate, sources_listed}
use alpha_orchestration.Domain.Spec.{RunSpec}
use alpha_orchestration.Domain.Event.{RunEvent}
use alpha_orchestration.Domain.State.{RunState, fresh_state}
use alpha_orchestration.Reducer.Tasks.{task_event}
use alpha_orchestration.Reducer.Agents.{
  read_candidate, candidate_event, except_type_value, register_agent, agent_event, evidence_event,
}
use alpha_orchestration.Reducer.Step.{dispatch, plan_workflow, complete_workflow, advance}
use alpha_orchestration.Reducer.Envelope.{reduce_event-inverts}
use alpha_orchestration.Reducer.Run.{reduce_all, reduce_all-keeps}

-- What `Candidate.__post_init__` promises of the score and the sources.
pub record IsListed (c : Candidate) : Type 0 where
  pub above : pos 0 ≤ℤ c.priority_score
  pub below : c.priority_score ≤ℤ pos 100
  pub unique : all_unique c.evidence_ids ≡ true
  pub sources : sources_listed c ≡ true

-- Whenever `r` returns a value, the value has the property.
record Returns {A : Type 0} (P : A → Type 0) (r : Result A) : Type 0 where
  at : (a : A) → r ≡ ok a → P a

Returns-bind :
    {A B : Type 0} {P : B → Type 0} (m : Result A) (f : A → Result B)
    → ((a : A) → Returns P (f a))
    → Returns P (m >>= f)
Returns-bind (ok a) f h = h a
Returns-bind (err e) f h = record { at = λ a q. cc }

make_candidate-IsListed : (c : Candidate) → Returns IsListed (make_candidate c)
unfolding make_candidate
make_candidate-IsListed c = record { at = λ d h. ground arith }

module _ (py : Python) (event : RunEvent) where
  read_candidate-IsListed : Returns IsListed (read_candidate py event)
  unfolding read_candidate
  read_candidate-IsListed = search (Returns-bind, make_candidate-IsListed) depth 60

  candidate_event-board :
      (s t : RunState)
      → candidate_event py event s ≡ ok t
      → (c : Candidate) × IsListed c × (t.candidates ≡ insert c.candidate_id c s.candidates)
  unfolding candidate_event
  candidate_event-board s t h =
      let (c, read, done) = >>=-eq-ok (except_type_value (read_candidate py event)) store h in
      (c, read_candidate-IsListed.at c (ground arith), ground arith)
    where
      store : Candidate → Result RunState
      store c = ok (record s { candidates = insert c.candidate_id c s.candidates })

  task_event-board :
      (kind : EventKind) (s t : RunState)
      → task_event py event kind s ≡ ok t
      → t.candidates ≡ s.candidates
  unfolding task_event
  task_event-board kind s t h = ground arith

  agent_event-board :
      (kind : EventKind) (s t : RunState)
      → agent_event py event kind s ≡ ok t
      → t.candidates ≡ s.candidates
  unfolding agent_event
  agent_event-board kind s t h = ground arith

  evidence_event-board :
      (s t : RunState) → evidence_event py event s ≡ ok t → t.candidates ≡ s.candidates
  unfolding evidence_event
  evidence_event-board s t h = ground arith

  register_agent-board :
      (s t : RunState) → register_agent py event s ≡ ok t → t.candidates ≡ s.candidates
  unfolding register_agent
  register_agent-board s t h = ground arith

  plan_workflow-board :
      (s t : RunState) → plan_workflow py event s ≡ ok t → t.candidates ≡ s.candidates
  unfolding plan_workflow
  plan_workflow-board s t h = ground arith

  complete_workflow-board :
      (s t : RunState) → complete_workflow py event s ≡ ok t → t.candidates ≡ s.candidates
  unfolding complete_workflow
  complete_workflow-board s t h = ground arith

  -- The board is as it was, or a candidate that passed its checks was put under its own id.
  data BoardChange (s t : RunState) : Type 0 where
    same_board : t.candidates ≡ s.candidates → BoardChange s t
    listed :
        (c : Candidate)
        → IsListed c
        → t.candidates ≡ insert c.candidate_id c s.candidates
        → BoardChange s t

  dispatch-board :
      (kind : EventKind) (s t : RunState) → dispatch py event kind s ≡ ok t → BoardChange s t
  unfolding dispatch
  dispatch-board candidate_updated s t h =
      let (c, good, e) = candidate_event-board s t h in listed c good e
  dispatch-board kind s t h = same_board (
      ground (
        arith,
        task_event-board kind s t,
        agent_event-board kind s t,
        evidence_event-board s t,
        register_agent-board s t,
        plan_workflow-board s t,
        complete_workflow-board s t,
      ))

-- Every candidate stands under its own id and passed its checks.
pub record IsBoard (candidates : Dict Candidate) : Type 0 where
  pub keyed : (k : String) (c : Candidate) → lookup k candidates ≡ some c → c.candidate_id ≡ k
  pub good : (k : String) (c : Candidate) → lookup k candidates ≡ some c → IsListed c

insert-IsBoard :
    (c : Candidate) (m : Dict Candidate)
    → IsListed c
    → IsBoard m
    → IsBoard (insert c.candidate_id c m)
insert-IsBoard c m l b = record {
  keyed = λ k d h. elim (lookup-insert_cases c.candidate_id k c d m h) [
    | inl (e, f) ↦ ap (λ x. x.candidate_id) f ∙ e
    | inr old ↦ b.keyed k d old
  ];
  good = λ k d h. elim (lookup-insert_cases c.candidate_id k c d m h) [
    | inl (e, f) ↦ subst IsListed (sym f) l
    | inr old ↦ b.good k d old
  ];
}

IsBoard-step :
    (py : Python) (e : RunEvent) (s t : RunState)
    → IsBoard s.candidates
    → BoardChange py e s t
    → IsBoard t.candidates
IsBoard-step py e s t b (same_board kept) = subst IsBoard (sym kept) b
IsBoard-step py e s t b (listed c good becomes) =
    subst IsBoard (sym becomes) (insert-IsBoard c s.candidates good b)

nothing-IsBoard : IsBoard []
unfolding lookup
nothing-IsBoard = record { keyed = λ k c h. cc; good = λ k c h. cc }

-- In the state that any accepted events lead to from a fresh one, every candidate stands under its
-- own id, its score is between 0 and 100, its evidence ids are different, and the sources of its
-- financials are among them.
pub reduce_all-IsBoard :
    (py : Python) (spec : RunSpec) (es : List RunEvent) (s : RunState)
    → reduce_all py (fresh_state spec) es ≡ ok s
    → IsBoard s.candidates
reduce_all-IsBoard py spec es s h =
    reduce_all-keeps py (λ m. IsBoard m.candidates)
      (λ m n e b one.
        IsBoard-step py e (advance m e) n b
          (dispatch-board py e e.kind (advance m e) n (reduce_event-inverts py m e n one).1))
      (fresh_state spec) s es nothing-IsBoard h

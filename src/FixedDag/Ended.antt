-- ===== src/FixedDag/Ended.antt =====
-- fixed_dag.py: how a turn, and then the worker, ends.
use alpha_orchestration.Prelude.{
  ◌≡◌, refl, sym, subst, ℕ, suc, ◌+◌, ◌≤◌, String, true, false, none, List, [], ◌∷◌, arith,
  Bool-cases, inl, inr, ◌⊎◌, length, leb,
}
use alpha_orchestration.Prelude.Dict.{Dict}
use alpha_orchestration.Result.{Result, ok, err}
use alpha_orchestration.Json.{Json, str}
use alpha_orchestration.Journal.Verifier.{get, all_finite}
use alpha_orchestration.Domain.Enums.{TaskStatus}
use alpha_orchestration.Domain.State.{TaskState}
use alpha_orchestration.Actions.{
  AgentAction, tool_calls_action, final_action, Reading, read, refused, bad_limit, ProposedToolCall,
}
use alpha_orchestration.FixedDag.{Surroundings, Bound, bound, unbound, broken, ◌>>=◌}
use alpha_orchestration.FixedDag.Sources.{all_in, cited_source_ids}
use alpha_orchestration.Schema.Validate.{validate_json}
use alpha_orchestration.FixedDag.Records.{
  PreparedCall, ToolCall, ModelRequest, object, request_to_dict,
}
use alpha_orchestration.FixedDag.Drafts.{draft_turn, draft_answer}
use alpha_orchestration.FixedDag.ModelResult.{invalid_trace, ModelReply}
use alpha_orchestration.FixedDag.Preflight.{preflight_call, preflight_calls, is_schema_failure}
use alpha_orchestration.FixedDag.Worker.{
  code_text, Assignment, Worker, Step, emit, ToolReply, take_citations, take_final,
}
use alpha_orchestration.FixedDag.Calls.{take_calls}
use alpha_orchestration.FixedDag.Turns.{take_action, take_output, take_trace, take_turn, request_of}
use alpha_orchestration.FixedDag.Own.{IsOwn, All-snoc, answer-IsOwn, turn-IsOwn}
use alpha_orchestration.FixedDag.Tracking.{follow-snoc, update-turn, update-answer}
use alpha_orchestration.FixedDag.Working.{
  IsAt, IsWorking, IsBroken, Ends, refuse-Ends, recall-IsWorking, accept-IsSettled,
}
use alpha_orchestration.FixedDag.Calling.{make_calls-Ends}

-- Inversion of a successful bind.
>>=-eq-bound {ℓ κ} :
    {V : Type ℓ} {W : Type κ} (first : Bound V) (later : V → Bound W) {w : W}
    → (first >>= later) ≡ bound w
    → (v : V) × (first ≡ bound v) × (later v ≡ bound w)
>>=-eq-bound (unbound code repairable) later h = absurd cc
>>=-eq-bound (broken e) later h = absurd cc
>>=-eq-bound (bound v) later h = (v, refl, h)

module _ (around : Surroundings) (names sources : List String) (contracts : Dict (Dict Json)) where
  -- The preflight keeps the number of calls.
  pub length-preflight_calls :
      (evidence : _) (calls : List ProposedToolCall) (prepared : List PreparedCall)
      → preflight_calls around names sources contracts evidence calls ≡ bound prepared
      → length prepared ≡ length calls
  unfolding preflight_calls
  length-preflight_calls evidence [] prepared h = ground arith
  length-preflight_calls evidence (c ∷ rest) prepared h =
      let (first, _, h1) =
        >>=-eq-bound (preflight_call around names sources contracts evidence c) _ h in
      let (others, found, h2) =
        >>=-eq-bound (preflight_calls around names sources contracts evidence rest) _ h1 in
      let same = length-preflight_calls evidence rest others found in ground arith

module _ (around : Surroundings) (complete : ModelRequest → ModelReply)
    (execute : ToolCall → ToolReply) (a : Assignment) (tasks : Dict TaskState)
    (start : TaskState) where
  abbrev Working : ℕ → ℕ → Worker → Type 0
  Working = IsWorking around a tasks start

  abbrev EndingOf : ℕ → Step → Type 0
  EndingOf = Ends around a tasks start

  -- A crash leaves what was yielded.
  crashed-Ends :
      (status : TaskStatus) (turns room : ℕ) (w : Worker)
      → IsAt around a tasks start status turns room w
      → IsBroken around a tasks start w
  crashed-Ends status turns room w p = record {
    task = p.holds.task;
    followed = p.holds.followed;
    own = p.holds.own;
  }

  widen :
      (turns room : ℕ) (w : Worker)
      → Working turns 0 w
      → w.outcome.tool_calls + room ≤ a.task.max_tool_calls
      → Working turns room w
  widen turns room w p h = record {
    within = record {
      repairs = p.within.repairs;
      turns_taken = p.within.turns_taken;
      calls = h;
      sources = p.within.sources;
    };
    holds = p.holds;
  }

  take_citations-Ends :
      (turns turn : ℕ) (output : Dict Json) (citations : Bound (List String)) (w : Worker)
      → Working turns 0 w
      → validate_json around.repr (object output) (object a.task.output_schema) ≡ ok tt
      → cited_source_ids (object output) ≡ citations
      → EndingOf turns (take_citations around a turn output citations w)
  unfolding take_citations
  take_citations-Ends turns turn output (unbound code repairable) w p valid found =
      refuse-Ends around a tasks start turns 0 turn code (around.wording code) (object output) false
        w p
  take_citations-Ends turns turn output (broken e) w p valid found = crashed-Ends _ turns 0 w p
  take_citations-Ends turns turn output (bound cited) w p valid found =
      elim (Bool-cases (all_in a.allowed_sources cited)) [
        | inl e ↦
            rw e (accept-IsSettled around a tasks start turns 0 output cited w p valid found e)
        | inr e ↦ rw e (
            refuse-Ends around a tasks start turns 0 turn "source_not_allowed"
              (around.wording "source_not_allowed") (object output) false w p)
      ]

  take_final-Ends :
      (turns turn : ℕ) (output : Dict Json) (checked : Result (Unit {0})) (w : Worker)
      → Working turns 0 w
      → validate_json around.repr (object output) (object a.task.output_schema) ≡ checked
      → EndingOf turns (take_final around a turn output checked w)
  unfolding take_final
  take_final-Ends turns turn output (ok u) w p valid =
      take_citations-Ends turns turn output _ w p valid refl
  take_final-Ends turns turn output (err e) w p valid = elim (Bool-cases (is_schema_failure e)) [
    | inl q ↦ rw q (
        refuse-Ends around a tasks start turns 0 turn "invalid_final_output"
          (around.wording "invalid_final_output") (object output) true w p)
    | inr q ↦ rw q (crashed-Ends _ turns 0 w p)
  ]

  take_calls-Ends :
      (turns turn room : ℕ) (output : Json) (prepared : Bound (List PreparedCall)) (w : Worker)
      → Working turns room w
      → ((calls : List PreparedCall) → prepared ≡ bound calls → length calls ≡ room)
      → EndingOf turns (take_calls around execute a turn output prepared w)
  unfolding take_calls
  take_calls-Ends turns turn room output (bound calls) w p counted =
      make_calls-Ends around execute a tasks start turns turn 0 output calls w
        (subst (λ n. Working turns n w) (sym (counted calls refl)) p)
  take_calls-Ends turns turn room output (unbound code repairable) w p counted =
      refuse-Ends around a tasks start turns room turn code (around.wording code) output repairable
        w p
  take_calls-Ends turns turn room output (broken e) w p counted = crashed-Ends _ turns room w p

  take_action-Ends :
      (turns turn : ℕ) (output : Json) (action : Reading AgentAction) (w : Worker)
      → Working turns 0 w
      → EndingOf turns (take_action around complete execute a turn output action w)
  unfolding take_action
  take_action-Ends turns turn output bad_limit w p = crashed-Ends _ turns 0 w p
  take_action-Ends turns turn output (refused code repairable) w p =
      refuse-Ends around a tasks start turns 0 turn (code_text code)
        (around.wording (code_text code)) output repairable w p
  take_action-Ends turns turn output (read (final_action payload)) w p =
      take_final-Ends turns turn payload _ w p refl
  take_action-Ends turns turn output (read (tool_calls_action calls)) w p =
      elim (Bool-cases (leb (w.outcome.tool_calls + length calls) a.task.max_tool_calls)) [
        | inl e ↦ rw e (
            take_calls-Ends turns turn (length calls) output _ w
              (widen turns (length calls) w p (ground arith))
              (length-preflight_calls around a.scoped_names a.allowed_sources a.contracts a.evidence
                calls))
        | inr e ↦ rw e (
            refuse-Ends around a tasks start turns 0 turn "tool_budget_exceeded" _ output false w p)
      ]

  answer-IsWorking :
      (turns turn : ℕ) (session_id : String) (trace : Dict Json) (w : Worker)
      → IsAt around a tasks start TaskStatus.waiting_model turns 0 w
      → Working turns 0 (emit (draft_answer around a.task turn session_id trace) w)
  answer-IsWorking turns turn session_id trace w p = record {
    within = record {
      repairs = p.within.repairs;
      turns_taken = p.within.turns_taken;
      calls = p.within.calls;
      sources = p.within.sources;
    };
    holds = record {
      task = record p.holds.task {
        status = TaskStatus.running;
        output = get trace "output_text";
        error = none;
      };
      followed = follow-snoc around.py tasks start p.holds.task _ w.emitted _ p.holds.followed (
          update-answer around.py tasks a.task turn p.holds.task around session_id trace
            p.holds.has_status);
      has_status = refl;
      same_turns = p.holds.same_turns;
      same_calls = p.holds.same_calls;
      own =
          All-snoc (IsOwn a.task) w.emitted _ p.holds.own
            (answer-IsOwn a.task turn around session_id trace);
    };
  }

  take_output-Ends :
      (turns turn : ℕ) (output : Json) (w : Worker)
      → Working turns 0 w
      → EndingOf turns (take_output around complete execute a turn output w)
  unfolding take_output
  take_output-Ends turns turn (str text) w p =
      take_action-Ends turns turn (str text) _ _
        (recall-IsWorking around a tasks start turns 0 _ w p)
  take_output-Ends turns turn _ w p = crashed-Ends _ turns 0 w p

  take_trace-Ends :
      (turns turn : ℕ) (request : ModelRequest) (verdict : String ⊎ Dict Json) (w : Worker)
      → IsAt around a tasks start TaskStatus.waiting_model turns 0 w
      → EndingOf turns (take_trace around complete execute a turn request verdict w)
  unfolding take_trace
  take_trace-Ends turns turn request (inl code) w p =
      let trace = invalid_trace around request.request_id code in
      refuse-Ends around a tasks start turns 0 turn code (around.wording code)
        (get trace "output_text") false _ (answer-IsWorking turns turn request.session_id trace w p)
  take_trace-Ends turns turn request (inr trace) w p =
      take_output-Ends turns turn (get trace "output_text") _
        (answer-IsWorking turns turn request.session_id trace w p)

  begun-IsAt :
      (done : ℕ) (w : Worker) (request : ModelRequest)
      → Working done 0 w
      → IsAt around a tasks start TaskStatus.waiting_model (suc done) 0 (
          emit
            (draft_turn around a.task (suc done) request)
            (record w { outcome = record w.outcome { turns = suc done } }))
  begun-IsAt done w request p = record {
    within = record {
      repairs = p.within.repairs;
      turns_taken = refl;
      calls = p.within.calls;
      sources = p.within.sources;
    };
    holds = record {
      task = record p.holds.task {
        status = TaskStatus.waiting_model;
        turns = p.holds.task.turns + 1;
        error = none;
      };
      followed = follow-snoc around.py tasks start p.holds.task _ w.emitted _ p.holds.followed (
          update-turn around.py tasks a.task (suc done) p.holds.task around request
            p.holds.has_status);
      has_status = refl;
      same_turns = omega (arith, p.holds.same_turns);
      same_calls = p.holds.same_calls;
      own =
          All-snoc (IsOwn a.task) w.emitted _ p.holds.own
            (turn-IsOwn a.task (suc done) around request);
    };
  }

  pub take_turn-Ends :
      (done : ℕ) (w : Worker)
      → Working done 0 w
      → EndingOf (suc done) (take_turn around complete execute a (suc done) w)
  unfolding take_turn
  take_turn-Ends done w p =
      let begun = record w { outcome = record w.outcome { turns = suc done } } in
      let request = request_of around complete execute a (suc done) begun in
      elim (Bool-cases (all_finite (object (request_to_dict request)))) [
        | inl e ↦
            rw e (take_trace-Ends (suc done) (suc done) request _ _ (begun-IsAt done w request p))
        | inr e ↦
            rw e (record { task = p.holds.task; followed = p.holds.followed; own = p.holds.own })
      ]

-- ===== src/FixedDag/Calling.antt =====
-- fixed_dag.py: how the tool calls of a turn end.
use alpha_orchestration.Prelude.{
  ◌≡◌, refl, ℕ, suc, ◌+◌, String, Bool, true, false, Option, none, some, List, [], ◌∷◌, ◌++◌, arith,
  Bool-cases, inl, inr, length, contains,
}
use alpha_orchestration.Prelude.Dict.{Dict}
use alpha_orchestration.Json.{Json}
use alpha_orchestration.Journal.Verifier.{get}
use alpha_orchestration.Domain.Enums.{TaskStatus}
use alpha_orchestration.Domain.State.{TaskState}
use alpha_orchestration.FixedDag.{Surroundings}
use alpha_orchestration.FixedDag.Sources.{all_in, distinct_texts}
use alpha_orchestration.FixedDag.Records.{PreparedCall, ToolCall, ToolResult}
use alpha_orchestration.FixedDag.Drafts.{draft_call, draft_broken_call, draft_result}
use alpha_orchestration.FixedDag.Preflight.{validate_tool_result}
use alpha_orchestration.FixedDag.Worker.{
  Assignment, Worker, Step, emit, ToolReply, returned, tool_raised, is_true,
}
use alpha_orchestration.FixedDag.Calls.{
  take_result, fail_call, take_reply, make_call, make_calls, is_hashable,
}
use alpha_orchestration.FixedDag.Own.{IsOwn, All-snoc, broken_call-IsOwn, result-IsOwn, call-IsOwn}
use alpha_orchestration.FixedDag.Tracking.{
  follow-snoc, update-call, update-broken_call, update-result,
}
use alpha_orchestration.FixedDag.Working.{
  all-merged, IsAt, IsWorking, Ends, fail-IsSettled, refuse-Ends, recall-IsWorking,
}

module _ (around : Surroundings) (execute : ToolCall → ToolReply) (a : Assignment)
    (tasks : Dict TaskState) (start : TaskState) where
  abbrev At : TaskStatus → ℕ → ℕ → Worker → Type 0
  At = IsAt around a tasks start

  abbrev Working : ℕ → ℕ → Worker → Type 0
  Working = IsWorking around a tasks start

  abbrev EndingOf : ℕ → Step → Type 0
  EndingOf = Ends around a tasks start

  -- Whatever comes next in the loop ends the turn.
  abbrev GoesOn : ℕ → ℕ → (Worker → Step) → Type 0
  GoesOn turns room go_on = (w : Worker) → Working turns room w → EndingOf turns (go_on w)

  broken_call-IsWorking :
      (turns room turn index : ℕ) (call_id tool message : String) (w : Worker)
      → At TaskStatus.waiting_tool turns room w
      → Working turns room
          (emit (draft_broken_call around a.task turn index call_id tool message) w)
  broken_call-IsWorking turns room turn index call_id tool message w p =
      let (failure, updated) =
        update-broken_call around.py tasks a.task turn p.holds.task around index call_id tool
          message p.holds.has_status in
      record {
        within = record {
          repairs = p.within.repairs;
          turns_taken = p.within.turns_taken;
          calls = p.within.calls;
          sources = p.within.sources;
        };
        holds = record {
          task = record p.holds.task { status = TaskStatus.running; error = failure };
          followed =
              follow-snoc around.py tasks start p.holds.task _ w.emitted _ p.holds.followed updated;
          has_status = refl;
          same_turns = p.holds.same_turns;
          same_calls = p.holds.same_calls;
          own =
              All-snoc (IsOwn a.task) w.emitted _ p.holds.own
                (broken_call-IsOwn a.task turn around index call_id tool message);
        };
      }

  result-IsWorking :
      (turns room turn index : ℕ) (call_id tool : String) (result : Dict Json) (error : Json)
      (succeeded : Bool) (w : Worker)
      → At TaskStatus.waiting_tool turns room w
      → Working turns room
          (emit (draft_result around a.task turn index call_id tool result error succeeded) w)
  result-IsWorking turns room turn index call_id tool result error succeeded w p =
      let (failure, updated) =
        update-result around.py tasks a.task turn p.holds.task around index call_id tool result
          error succeeded p.holds.has_status in
      record {
        within = record {
          repairs = p.within.repairs;
          turns_taken = p.within.turns_taken;
          calls = p.within.calls;
          sources = p.within.sources;
        };
        holds = record {
          task = record p.holds.task { status = TaskStatus.running; error = failure };
          followed =
              follow-snoc around.py tasks start p.holds.task _ w.emitted _ p.holds.followed updated;
          has_status = refl;
          same_turns = p.holds.same_turns;
          same_calls = p.holds.same_calls;
          own =
              All-snoc (IsOwn a.task) w.emitted _ p.holds.own
                (result-IsOwn a.task turn around index call_id tool result error succeeded);
        };
      }

  call-IsAt :
      (turns room turn index : ℕ) (call_id : String) (contract : Dict Json)
      (prepared : PreparedCall) (w : Worker)
      → Working turns (suc room) w
      → At TaskStatus.waiting_tool turns room (
          emit
            (draft_call around a.task turn index call_id contract prepared)
            (record w { outcome = record w.outcome { tool_calls = suc w.outcome.tool_calls } }))
  call-IsAt turns room turn index call_id contract prepared w p = record {
    within = record {
      repairs = p.within.repairs;
      turns_taken = p.within.turns_taken;
      calls = omega (arith, p.within.calls);
      sources = p.within.sources;
    };
    holds = record {
      task = record p.holds.task {
        status = TaskStatus.waiting_tool;
        tool_calls = p.holds.task.tool_calls + 1;
        error = none;
      };
      followed = follow-snoc around.py tasks start p.holds.task _ w.emitted _ p.holds.followed (
          update-call around.py tasks a.task turn p.holds.task around index call_id contract
            prepared p.holds.has_status);
      has_status = refl;
      same_turns = p.holds.same_turns;
      same_calls = omega (arith, p.holds.same_calls);
      own =
          All-snoc (IsOwn a.task) w.emitted _ p.holds.own
            (call-IsOwn a.task turn around index call_id contract prepared);
    };
  }

  sourced-IsWorking :
      (turns room : ℕ) (sources : List String) (w : Worker)
      → Working turns room w
      → all_in a.allowed_sources sources ≡ true
      → Working turns room (record w {
        outcome = record w.outcome {
          source_ids = distinct_texts (w.outcome.source_ids ++ sources);
        };
      })
  sourced-IsWorking turns room sources w p known = record {
    within = record {
      repairs = p.within.repairs;
      turns_taken = p.within.turns_taken;
      calls = p.within.calls;
      sources =
          all-merged (contains a.allowed_sources) w.outcome.source_ids sources p.within.sources
            known;
    };
    holds = record {
      task = p.holds.task;
      followed = p.holds.followed;
      has_status = p.holds.has_status;
      same_turns = p.holds.same_turns;
      same_calls = p.holds.same_calls;
      own = p.holds.own;
    };
  }

  take_result-Ends :
      (turns room turn index : ℕ) (output : Json) (call : ToolCall) (result : ToolResult)
      (go_on : Worker → Step) (w : Worker)
      → GoesOn turns room go_on
      → all_in a.allowed_sources result.source_ids ≡ true
      → At TaskStatus.waiting_tool turns room w
      → EndingOf turns (take_result around execute a turn index output call result go_on w)
  unfolding take_result
  take_result-Ends turns room turn index output call result go_on w goes known p =
      elim (Bool-cases (is_true (get result.payload "ok"))) [
        | inl e ↦ rw e (
            goes _ (
              sourced-IsWorking turns room result.source_ids _
                (recall-IsWorking around a tasks start turns room _ _
                  (result-IsWorking turns room turn index call.call_id call.name _ _ true w p))
                known))
        | inr e ↦ rw e (
            refuse-Ends around a tasks start turns room turn _ _ output _ _ (
              recall-IsWorking around a tasks start turns room _ _
                (result-IsWorking turns room turn index call.call_id call.name _ _ false w p)))
      ]

  fail_call-Ends :
      (turns room turn index : ℕ) (call : ToolCall) (message : String) (w : Worker)
      → At TaskStatus.waiting_tool turns room w
      → EndingOf turns (fail_call around execute a turn index call message w)
  unfolding fail_call
  fail_call-Ends turns room turn index call message w p =
      fail-IsSettled around a tasks start turns room "tool_execution_error" message _
        (broken_call-IsWorking turns room turn index call.call_id call.name message w p)

  known_sources :
      (call : ToolCall) (result : ToolResult)
      → validate_tool_result call result a.allowed_sources ≡ true
      → all_in a.allowed_sources result.source_ids ≡ true
  unfolding validate_tool_result
  known_sources call result h = ground arith

  take_reply-Ends :
      (turns room turn index : ℕ) (output : Json) (call : ToolCall) (reply : ToolReply)
      (go_on : Worker → Step) (w : Worker)
      → GoesOn turns room go_on
      → At TaskStatus.waiting_tool turns room w
      → EndingOf turns (take_reply around execute a turn index output call reply go_on w)
  unfolding take_reply
  take_reply-Ends turns room turn index output call (tool_raised name text) go_on w goes p =
      fail_call-Ends turns room turn index call _ w p
  take_reply-Ends turns room turn index output call (returned result) go_on w goes p =
      elim (Bool-cases (validate_tool_result call result a.allowed_sources)) [
        | inl e ↦ rw e (
            take_result-Ends turns room turn index output call result go_on w goes
              (known_sources call result e) p)
        | inr e ↦ rw e (fail_call-Ends turns room turn index call _ w p)
      ]

  make_call-Ends :
      (turns room turn index : ℕ) (output : Json) (prepared : PreparedCall)
      (contract : Option (Dict Json)) (go_on : Worker → Step) (w : Worker)
      → GoesOn turns room go_on
      → Working turns (suc room) w
      → EndingOf turns (make_call around execute a turn index output prepared contract go_on w)
  unfolding make_call
  make_call-Ends turns room turn index output prepared none go_on w goes p = record {
    task = p.holds.task;
    followed = p.holds.followed;
    own = p.holds.own;
  }
  make_call-Ends turns room turn index output prepared (some contract) go_on w goes p =
      elim (Bool-cases (is_hashable prepared)) [
        | inl e ↦ rw e (
            take_reply-Ends turns room turn index output _ _ go_on _ goes
              (call-IsAt turns room turn index _ contract prepared w p))
        | inr e ↦
            rw e record { task = p.holds.task; followed = p.holds.followed; own = p.holds.own }
      ]

  pub make_calls-Ends :
      (turns turn index : ℕ) (output : Json) (calls : List PreparedCall)
      → GoesOn turns (length calls) (make_calls around execute a turn index output calls)
  unfolding make_calls
  make_calls-Ends turns turn index output [] w p = p
  make_calls-Ends turns turn index output (prepared ∷ rest) w p =
      make_call-Ends turns (length rest) turn index output prepared _ _ w
        (make_calls-Ends turns turn (suc index) output rest) p

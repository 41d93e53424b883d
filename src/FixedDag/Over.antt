-- ===== src/FixedDag/Over.antt =====
-- fixed_dag.py: how a worker ends, all of its turns together.
use alpha_orchestration.Prelude.{◌≡◌, refl, ℕ, zero, suc, ◌+◌, ◌≤◌, none, List, arith}
use alpha_orchestration.Prelude.Dict.{Dict}
use alpha_orchestration.Result.{Result, ok, err}
use alpha_orchestration.Json.{Json}
use alpha_orchestration.Domain.Enums.{TaskStatus}
use alpha_orchestration.Domain.State.{TaskState}
use alpha_orchestration.FixedDag.{Surroundings}
use alpha_orchestration.FixedDag.Records.{ToolCall, ModelRequest, dependency_reports}
use alpha_orchestration.FixedDag.ModelResult.{ModelReply}
use alpha_orchestration.FixedDag.Worker.{
  Assignment, Worker, Step, next, stopped, crashed, Ending, and_then, ToolReply,
}
use alpha_orchestration.FixedDag.Turns.{take_turns, new_worker, with_reports, stream_task}
use alpha_orchestration.FixedDag.Tracking.{follow}
use alpha_orchestration.FixedDag.Working.{IsWorking, IsSettled, IsBroken, Ends, fail-IsSettled}
use alpha_orchestration.FixedDag.Ended.{take_turn-Ends}

module _ (around : Surroundings) (complete : ModelRequest → ModelReply)
    (execute : ToolCall → ToolReply) (a : Assignment) (tasks : Dict TaskState)
    (start : TaskState) where
  abbrev Working : ℕ → ℕ → Worker → Type 0
  Working = IsWorking around a tasks start

  abbrev EndingOf : ℕ → Step → Type 0
  EndingOf = Ends around a tasks start

  -- How the whole worker ends.
  pub record IsOver (ending : Ending) : Type 0 where
    pub broken_off : IsBroken around a tasks start (ending.1)
    pub over :
        ending.0 ≡ none
        → (turns : ℕ) × (turns ≤ a.task.max_turns) × IsSettled around a tasks start turns (ending.1)

  settled-IsOver :
      (turns : ℕ) (w : Worker)
      → turns ≤ a.task.max_turns
      → IsSettled around a tasks start turns w
      → IsOver (none, w)
  settled-IsOver turns w h p = record {
    broken_off = record { task = p.holds.task; followed = p.holds.followed; own = p.holds.own };
    over = λ q. (turns, h, p);
  }

  and_then-IsOver :
      (turns : ℕ) (step : Step) (later : Worker → Ending)
      → turns ≤ a.task.max_turns
      → EndingOf turns step
      → ((w : Worker) → Working turns 0 w → IsOver (later w))
      → IsOver (and_then step later)
  and_then-IsOver turns (next w) later h p goes = goes w p
  and_then-IsOver turns (stopped w) later h p goes = settled-IsOver turns w h p
  and_then-IsOver turns (crashed e w) later h p goes = record {
    broken_off = p;
    over = λ q. absurd cc;
  }

  take_turns-IsOver :
      (left done : ℕ) (w : Worker)
      → done + left ≡ a.task.max_turns
      → Working done 0 w
      → IsOver (take_turns around complete execute a left (suc done) w)
  unfolding take_turns
  take_turns-IsOver zero done w h p =
      settled-IsOver done _ (omega arith)
        (fail-IsSettled around a tasks start done 0 "turn_budget_exhausted" _ w p)
  take_turns-IsOver (suc left) done w h p =
      and_then-IsOver (suc done) _ _ (omega arith)
        (take_turn-Ends around complete execute a tasks start done w p)
        (λ v q. take_turns-IsOver left (suc done) v (omega arith) q)

  pub stream_task-IsOver :
      start.status ≡ TaskStatus.running
      → start.turns ≡ 0
      → start.tool_calls ≡ 0
      → IsOver (stream_task around complete execute a)
  unfolding stream_task follow
  stream_task-IsOver running no_turns no_calls =
      with_reports-IsOver (dependency_reports a.task.depends_on a.outcomes)
    where
      new-IsWorking :
          (transcript : List Json) → Working 0 0 (new_worker around complete execute a transcript)
      new-IsWorking transcript = record {
        within = record {
          repairs = omega arith;
          turns_taken = refl;
          calls = omega arith;
          sources = refl;
        };
        holds = record {
          task = start;
          followed = refl;
          has_status = running;
          same_turns = no_turns;
          same_calls = no_calls;
          own = tt;
        };
      }

      with_reports-IsOver :
          (reports : Result (Dict Json)) → IsOver (with_reports around complete execute a reports)
      with_reports-IsOver (err e) = record {
        broken_off = record { task = start; followed = refl; own = tt };
        over = λ q. absurd cc;
      }
      with_reports-IsOver (ok reports) =
          take_turns-IsOver a.task.max_turns 0 _ (omega arith) (new-IsWorking _)

-- ===== src/Tests/Samples.antt =====
-- A run of two tasks, the second of which depends on the first.
use alpha_orchestration.Prelude.{ℕ, String, true, none, some, List, [], ◌∷◌}
use alpha_orchestration.Prelude.Int.{pos}
use alpha_orchestration.Prelude.Dict.{Dict, lookup, insert}
use alpha_orchestration.Prelude.Text.{strip}
use alpha_orchestration.Result.{Result, ok, err}
use alpha_orchestration.Json.{Json, bool, int, str, arr, obj, finite, items, fields}
use alpha_orchestration.Json.Python.{Python, to_int, to_text, truthy}
use alpha_orchestration.Domain.Enums.{
  EventKind, run_created, run_completed, workflow_planned, task_started, task_completed,
  task_failed, candidate_updated, standard,
}
use alpha_orchestration.Domain.Candidate.{make_candidate, texts_present}
use alpha_orchestration.Domain.Spec.{RunSpec, make_spec}
use alpha_orchestration.Domain.Event.{RunEvent}
use alpha_orchestration.Domain.State.{RunState, fresh_state}
use alpha_orchestration.Reducer.Payload.{
  require, nonempty_string, optional_nonempty_string, string_tuple, candidate_financials,
}
use alpha_orchestration.Reducer.Plan.{
  read_task, plan_task, plan_from, check_plan, planned_tasks, drain,
}
use alpha_orchestration.Reducer.Tasks.{
  find_task, blocked, task_error, update_task, touch_agent, task_event,
}
use alpha_orchestration.Reducer.Agents.{read_candidate, candidate_event}
use alpha_orchestration.Reducer.Step.{
  distinct, plan_workflow, complete_workflow, dispatch, reduce_event,
}
use alpha_orchestration.Reducer.Run.{reduce_all}

abbrev pub plain_python : Python
plain_python = record {
  text_of = λ v. "?";
  int_of_text = λ s. none;
  float_of_int = λ n. some (finite n (pos 0));
  iso_text = λ t. "1970-01-01T00:00:00+00:00";
  iso_parse = λ s. some 0;
}

abbrev pub mandate : RunSpec
mandate = record {
  sector = "Semiconductors";
  depth = standard;
  universe_size = pos 18;
  agent_budget = pos 8;
  active_slots = pos 4;
  mode = "synthetic_demo";
  run_id = "run-1";
}

abbrev pub at : ℕ → EventKind → Dict Json → RunEvent
at n kind payload = record {
  schema_version = pos 1;
  run_id = "run-1";
  sequence = pos n;
  kind = kind;
  timestamp = 0;
  message = "event";
  agent_id = none;
  payload = payload;
}

abbrev plan_entry : String → List Json → Json
plan_entry id dependencies = obj (
    fields (
      ("task_id", str id)
      ∷ ("agent_id", str "agent-1")
      ∷ ("depends_on", arr (items dependencies))
      ∷ ("required", bool true)
      ∷ []))

abbrev plan : Dict Json
plan =
    ("workflow_id", str "triage")
    ∷ ("workflow_version", str "1")
    ∷ ("tasks", arr (items (plan_entry "screen" [] ∷ plan_entry "rank" (str "screen" ∷ []) ∷ [])))
    ∷ []

abbrev pub of_task : String → Dict Json
of_task id = ("task_id", str id) ∷ []

abbrev candidate_payload : Dict Json
candidate_payload =
    ("candidate_id", str "c1")
    ∷ ("ticker", str "ABC")
    ∷ ("company", str "Abc")
    ∷ ("bucket", str "advance")
    ∷ ("priority_score", int (pos 70))
    ∷ ("variant_wedge", str "w")
    ∷ ("why_now", str "n")
    ∷ ("first_rejection", str "r")
    ∷ ("investable_if", str "i")
    ∷ ("kill_if", str "k")
    ∷ ("next_workflow", str "x")
    ∷ ("evidence_ids", arr (items (str "e1" ∷ [])))
    ∷ []

abbrev pub planned_only : List RunEvent
planned_only = at 0 run_created [] ∷ at 1 workflow_planned plan ∷ []

-- Created, planned, and the first task done.
abbrev pub opening : List RunEvent
opening =
    at 0 run_created []
    ∷ at 1 workflow_planned plan
    ∷ at 2 task_started (of_task "screen")
    ∷ at 3 task_completed (of_task "screen")
    ∷ []

-- The second task, and the declaration that the workflow is complete.
abbrev pub middle : List RunEvent
middle = at 4 task_started (of_task "rank") ∷ at 5 task_failed (of_task "rank") ∷ []

abbrev pub closing : List RunEvent
closing = at 7 candidate_updated candidate_payload ∷ at 8 run_completed [] ∷ []

abbrev pub state_of : Result RunState → RunState
state_of (ok s) = s
state_of (err e) = fresh_state mandate

unfoldable pub program : Unit {0}
unfolding reduce_all reduce_event dispatch distinct plan_workflow complete_workflow planned_tasks
    plan_from plan_task read_task check_plan drain require nonempty_string optional_nonempty_string
    string_tuple candidate_financials task_event find_task blocked task_error update_task
    touch_agent candidate_event read_candidate make_candidate texts_present make_spec to_int to_text
    truthy lookup insert strip
program = tt

-- ===== src/Tests/Stops.antt =====
-- A witness on a run that is cancelled while one agent works and another has finished.
use alpha_orchestration.Prelude.{◌≡◌, refl, true, [], ◌∷◌}
use alpha_orchestration.Prelude.Int.{pos}
use alpha_orchestration.Result.{ok}
use alpha_orchestration.Domain.Enums.{AgentStatus, run_cancelled}
use alpha_orchestration.Domain.Event.{RunEvent}
use alpha_orchestration.Domain.State.{
  AgentState, RunState, fresh_state, terminal, active_agents, complete_agents,
}
use alpha_orchestration.Reducer.Step.{reduce_event}
use alpha_orchestration.Reducer.Cancel.{cancel_idles}
use alpha_orchestration.Tests.Samples.{plain_python, mandate, at, state_of, program}

abbrev worker : AgentStatus → AgentState
worker status = record {
  agent_id = "agent-1";
  role = "analyst";
  lane = "evidence";
  status = status;
  progress = pos 40;
  current_task = "reading";
  tool_calls = 1;
  evidence_count = 0;
}

abbrev busy : RunState
busy = record (fresh_state mandate) {
  agents = ("agent-1", worker AgentStatus.running) ∷ ("agent-2", worker AgentStatus.complete) ∷ [];
}

abbrev stop : RunEvent
stop = at 0 run_cancelled []

abbrev stopped : RunState
stopped = state_of (reduce_event plain_python busy stop)

stopped_runs : reduce_event plain_python busy stop ≡ ok stopped
unfolding program
stopped_runs = refl

cancel_idles_example :
    (terminal stopped ≡ true)
    × (active_agents stopped ≡ 0)
    × (complete_agents stopped ≡ complete_agents busy)
    × (stopped.tasks ≡ busy.tasks)
cancel_idles_example = cancel_idles plain_python busy stop stopped refl stopped_runs

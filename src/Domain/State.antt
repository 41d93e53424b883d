-- ===== src/Domain/State.antt =====
-- `AgentState`, `TaskState`, `Evidence` and `RunState` of domain.py.
use alpha_orchestration.Prelude.{ℕ, String, Bool, true, false, Option, none, List, [], length, keep}
use alpha_orchestration.Prelude.Int.{ℤ, pos, negsuc}
use alpha_orchestration.Prelude.Dict.{Dict, values}
use alpha_orchestration.Json.{Json}
use alpha_orchestration.Domain.Enums.{AgentStatus, RunStatus, Stage, TaskStatus}
use alpha_orchestration.Domain.Spec.{RunSpec}
use alpha_orchestration.Domain.Candidate.{Candidate}
use alpha_orchestration.Domain.Event.{RunEvent}

pub record AgentState : Type 0 where
  pub agent_id : String
  pub role : String
  pub lane : String
  pub status : AgentStatus
  pub progress : ℤ
  pub current_task : String
  pub tool_calls : ℕ
  pub evidence_count : ℕ

pub record TaskState : Type 0 where
  pub task_id : String
  pub agent_id : String
  pub depends_on : List String
  pub required : Bool
  pub allow_failed_dependencies : Bool
  pub status : TaskStatus
  pub turns : ℕ
  pub tool_calls : ℕ
  pub output : Json
  pub error : Option String

pub record Evidence : Type 0 where
  pub evidence_id : String
  pub title : String
  pub source : String
  pub source_kind : String
  pub summary : String
  pub observed_at : String
  pub synthetic : Bool
  pub retrieved_at : String
  pub source_url : String

pub record RunState : Type 0 where
  pub spec : RunSpec
  pub status : RunStatus
  pub current_stage : Option Stage
  pub completed_stages : List Stage
  pub progress : ℤ
  pub agents : Dict AgentState
  pub workflow_id : Option String
  pub workflow_version : Option String
  pub tasks : Dict TaskState
  pub evidence : Dict Evidence
  pub candidates : Dict Candidate
  pub recent_events : List RunEvent
  pub last_sequence : ℤ
  pub failure : Option String

-- `RunState(spec=spec)`
abbrev pub fresh_state : RunSpec → RunState
fresh_state spec = record {
  spec = spec;
  status = RunStatus.idle;
  current_stage = none;
  completed_stages = [];
  progress = pos 0;
  agents = [];
  workflow_id = none;
  workflow_version = none;
  tasks = [];
  evidence = [];
  candidates = [];
  recent_events = [];
  last_sequence = negsuc 0;
  failure = none;
}

abbrev pub is_final : RunStatus → Bool
is_final RunStatus.complete = true
is_final RunStatus.cancelled = true
is_final RunStatus.failed = true
is_final _ = false

-- The property `terminal`.
abbrev pub terminal : RunState → Bool
terminal s = is_final s.status

abbrev pub is_active_agent : AgentState → Bool
is_active_agent a = elim a.status [
  | AgentStatus.running ↦ true
  | AgentStatus.waiting_tool ↦ true
  | _ ↦ false
]

abbrev pub is_complete_agent : AgentState → Bool
is_complete_agent a = elim a.status [ AgentStatus.complete ↦ true | _ ↦ false ]

-- The properties `active_agents` and `complete_agents`.
abbrev pub active_agents : RunState → ℕ
active_agents s = length (keep is_active_agent (values s.agents))

abbrev pub complete_agents : RunState → ℕ
complete_agents s = length (keep is_complete_agent (values s.agents))

-- ===== src/Reducer/Agents.antt =====
-- The agent, evidence and candidate branches of `reduce_event` in reducer.py.
use alpha_orchestration.Prelude.{◌+◌, String, false, Option, not}
use alpha_orchestration.Prelude.Int.{ℤ, pos, max_ℤ, min_ℤ}
use alpha_orchestration.Prelude.Dict.{lookup, insert, has_key}
use alpha_orchestration.Result.{
  Result, ok, err, guard, or_raise, ◌>>=◌, ◌>>◌, state_invariant, value_error, type_error,
}
use alpha_orchestration.Json.{bool, int, str}
use alpha_orchestration.Json.Python.{Python, to_int, to_text, truthy}
use alpha_orchestration.Domain.Enums.{
  AgentStatus, EventKind, agent_started, agent_progress, agent_completed, agent_failed,
  tool_started, member_of, bucket_text, buckets, confidence_text, confidences, quality_text,
  qualities, source_mode_text, source_modes,
}
use alpha_orchestration.Domain.Candidate.{Candidate, make_candidate}
use alpha_orchestration.Domain.Event.{RunEvent}
use alpha_orchestration.Domain.State.{AgentState, Evidence, RunState}
use alpha_orchestration.Reducer.Payload.{
  get_or, require, nonempty_string, optional_nonempty_string, optional_string, string_tuple,
  candidate_financials,
}

-- `max(0, min(100, n))`
abbrev pub clamp : ℤ → ℤ
clamp n = max_ℤ (pos 0) (min_ℤ (pos 100) n)

-- `_agent`
unfoldable pub find_agent : RunState → RunEvent → Result AgentState
find_agent state event = do
  agent_id ← or_raise event.agent_id state_invariant
  or_raise (lookup agent_id state.agents) state_invariant

-- `except (TypeError, ValueError) as exc: raise StateInvariantError`
abbrev pub except_type_value {ℓ} : {A : Type ℓ} → Result A → Result A
except_type_value (err value_error) = err state_invariant
except_type_value (err type_error) = err state_invariant
except_type_value r = r

module _ (py : Python) (event : RunEvent) where
  abbrev text_field : String → Result String
  text_field k = require event.payload k >>= λ v. ok (to_text py v)

  -- The branch for agent_registered.
  unfoldable pub register_agent : RunState → Result RunState
  unfolding require
  register_agent state = do
    agent_id ← or_raise event.agent_id state_invariant
    guard (not (has_key agent_id state.agents)) state_invariant
    role ← text_field "role"
    lane ← text_field "lane"
    ok (record state {
      agents =
          insert agent_id
            (record {
              agent_id = agent_id;
              role = role;
              lane = lane;
              status = AgentStatus.queued;
              progress = pos 0;
              current_task = "Awaiting admission";
              tool_calls = 0;
              evidence_count = 0;
            })
            state.agents;
    })

  unfoldable pub read_evidence : Result Evidence
  unfolding require optional_string
  read_evidence = do
    evidence_id ← text_field "evidence_id"
    title ← text_field "title"
    source ← text_field "source"
    source_kind ← text_field "source_kind"
    summary ← text_field "summary"
    observed_at ← text_field "observed_at"
    retrieved_at ← optional_string event.payload "retrieved_at" "not provided"
    source_url ← optional_string event.payload "source_url" ""
    ok (record {
      evidence_id = evidence_id;
      title = title;
      source = source;
      source_kind = source_kind;
      summary = summary;
      observed_at = observed_at;
      synthetic = truthy (get_or event.payload "synthetic" (bool false));
      retrieved_at = retrieved_at;
      source_url = source_url;
    })

  -- The new record of the agent, on the branches that only change the agent.
  unfoldable pub update_agent : EventKind → AgentState → Result AgentState
  update_agent agent_started current = do
    n ← to_int py (get_or event.payload "progress" (int (pos 5)))
    ok (record current {
      status = AgentStatus.running;
      progress = max_ℤ current.progress n;
      current_task = event.message;
    })
  update_agent agent_progress current = do
    n ← to_int py (get_or event.payload "progress" (int current.progress))
    ok (record current {
      status = AgentStatus.running;
      progress = clamp n;
      current_task = event.message;
    })
  update_agent agent_completed current = ok (record current {
    status = AgentStatus.complete;
    progress = pos 100;
    current_task = event.message;
  })
  update_agent agent_failed current =
      ok (record current { status = AgentStatus.failed; current_task = event.message })
  update_agent tool_started current = ok (record current {
    status = AgentStatus.waiting_tool;
    current_task = event.message;
    tool_calls = current.tool_calls + 1;
  })
  update_agent _ current =
      ok (record current { status = AgentStatus.running; current_task = event.message })

  -- The branch for agent events and for tool events with no task.
  unfoldable pub agent_event : EventKind → RunState → Result RunState
  unfolding find_agent update_agent
  agent_event kind state = do
    current ← find_agent state event
    updated ← update_agent kind current
    ok (record state { agents = insert current.agent_id updated state.agents })

  -- The branch for evidence_added.
  unfoldable pub evidence_event : RunState → Result RunState
  unfolding find_agent read_evidence
  evidence_event state = do
    current ← find_agent state event
    evidence ← read_evidence
    ok (record state {
      agents =
          insert current.agent_id
            (record current {
              current_task = event.message;
              evidence_count = current.evidence_count + 1;
            })
            state.agents;
      evidence = insert evidence.evidence_id evidence state.evidence;
    })

  abbrev enum_field {ℓ} : {A : Type ℓ} → (String → Option A) → String → String → Result A
  enum_field find k default =
      or_raise (find (to_text py (get_or event.payload k (str default)))) value_error

  -- The arguments of `Candidate(…)`, in the order in which they are evaluated.
  unfoldable pub read_candidate : Result Candidate
  unfolding require nonempty_string optional_nonempty_string string_tuple candidate_financials
  read_candidate = do
    candidate_id ← nonempty_string event.payload "candidate_id"
    ticker ← nonempty_string event.payload "ticker"
    company ← nonempty_string event.payload "company"
    bucket_value ← nonempty_string event.payload "bucket"
    bucket ← or_raise (member_of bucket_text buckets bucket_value) value_error
    score_value ← require event.payload "priority_score"
    priority_score ← to_int py score_value
    variant_wedge ← nonempty_string event.payload "variant_wedge"
    why_now ← nonempty_string event.payload "why_now"
    first_rejection ← nonempty_string event.payload "first_rejection"
    investable_if ← nonempty_string event.payload "investable_if"
    kill_if ← nonempty_string event.payload "kill_if"
    next_workflow ← nonempty_string event.payload "next_workflow"
    evidence_ids ← string_tuple event.payload "evidence_ids"
    financials ← candidate_financials py event.payload
    confidence ← enum_field (member_of confidence_text confidences) "confidence" "not_assessed"
    data_quality ← enum_field (member_of quality_text qualities) "data_quality" "not_assessed"
    as_of ← optional_nonempty_string event.payload "as_of" "not provided"
    source_mode ← enum_field (member_of source_mode_text source_modes) "source_mode" "unspecified"
    evidence_gaps ← string_tuple event.payload "evidence_gaps"
    make_candidate (record {
      candidate_id = candidate_id;
      ticker = ticker;
      company = company;
      bucket = bucket;
      priority_score = priority_score;
      variant_wedge = variant_wedge;
      why_now = why_now;
      first_rejection = first_rejection;
      investable_if = investable_if;
      kill_if = kill_if;
      next_workflow = next_workflow;
      evidence_ids = evidence_ids;
      financials = financials;
      confidence = confidence;
      data_quality = data_quality;
      as_of = as_of;
      source_mode = source_mode;
      evidence_gaps = evidence_gaps;
    })

  -- The branch for candidate_updated.
  unfoldable pub candidate_event : RunState → Result RunState
  candidate_event state = do
    candidate ← except_type_value read_candidate
    ok (record state { candidates = insert candidate.candidate_id candidate state.candidates })

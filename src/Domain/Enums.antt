-- ===== src/Domain/Enums.antt =====
-- The string enumerations of domain.py with their values, and the lookup of a member by its value.
use alpha_orchestration.Prelude.{String, Option, none, some, List, [], ◌∷◌, ◌==◌, if◌then◌else◌}

-- `Enum(text)`: the first member with that value.
abbrev pub member_of {ℓ} : {A : Type ℓ} → (A → String) → List A → String → Option A
member_of text [] t = none
member_of text (x ∷ xs) t = if text x == t then some x else member_of text xs t

pub data ResearchDepth : Type 0 where
  quick standard deep : ResearchDepth

abbrev pub depth_text : ResearchDepth → String
depth_text quick = "quick"
depth_text standard = "standard"
depth_text deep = "deep"

abbrev pub depths : List ResearchDepth
depths = quick ∷ standard ∷ deep ∷ []

pub data RunStatus : Type 0 where
  idle planning running paused synthesizing complete cancelled failed : RunStatus

pub data AgentStatus : Type 0 where
  queued running waiting_tool complete cancelled failed : AgentStatus

pub data TaskStatus : Type 0 where
  queued running waiting_model waiting_tool complete partial failed skipped : TaskStatus

pub data Stage : Type 0 where
  universe evidence analysis synthesis review : Stage

abbrev pub stage_text : Stage → String
stage_text universe = "universe"
stage_text evidence = "evidence"
stage_text analysis = "analysis"
stage_text synthesis = "synthesis"
stage_text review = "human_review"

abbrev pub stages : List Stage
stages = universe ∷ evidence ∷ analysis ∷ synthesis ∷ review ∷ []

pub data EventKind : Type 0 where
  run_created run_started run_paused run_resumed run_synthesizing run_completed : EventKind
  run_cancelled run_failed stage_started stage_completed agent_registered agent_started : EventKind
  agent_progress agent_completed agent_failed workflow_planned task_started : EventKind
  model_turn_started model_turn_completed action_rejected tool_started tool_completed : EventKind
  tool_rejected tool_failed task_completed task_failed task_skipped : EventKind
  workflow_completed evidence_added candidate_updated : EventKind

abbrev pub kind_text : EventKind → String
kind_text run_created = "run_created"
kind_text run_started = "run_started"
kind_text run_paused = "run_paused"
kind_text run_resumed = "run_resumed"
kind_text run_synthesizing = "run_synthesizing"
kind_text run_completed = "run_completed"
kind_text run_cancelled = "run_cancelled"
kind_text run_failed = "run_failed"
kind_text stage_started = "stage_started"
kind_text stage_completed = "stage_completed"
kind_text agent_registered = "agent_registered"
kind_text agent_started = "agent_started"
kind_text agent_progress = "agent_progress"
kind_text agent_completed = "agent_completed"
kind_text agent_failed = "agent_failed"
kind_text workflow_planned = "workflow_planned"
kind_text task_started = "task_started"
kind_text model_turn_started = "model_turn_started"
kind_text model_turn_completed = "model_turn_completed"
kind_text action_rejected = "action_rejected"
kind_text tool_started = "tool_started"
kind_text tool_completed = "tool_completed"
kind_text tool_rejected = "tool_rejected"
kind_text tool_failed = "tool_failed"
kind_text task_completed = "task_completed"
kind_text task_failed = "task_failed"
kind_text task_skipped = "task_skipped"
kind_text workflow_completed = "workflow_completed"
kind_text evidence_added = "evidence_added"
kind_text candidate_updated = "candidate_updated"

abbrev pub kinds : List EventKind
kinds =
    run_created ∷ run_started ∷ run_paused ∷ run_resumed ∷ run_synthesizing ∷ run_completed
    ∷ run_cancelled ∷ run_failed ∷ stage_started ∷ stage_completed ∷ agent_registered
    ∷ agent_started ∷ agent_progress ∷ agent_completed ∷ agent_failed ∷ workflow_planned
    ∷ task_started ∷ model_turn_started ∷ model_turn_completed ∷ action_rejected ∷ tool_started
    ∷ tool_completed ∷ tool_rejected ∷ tool_failed ∷ task_completed ∷ task_failed ∷ task_skipped
    ∷ workflow_completed ∷ evidence_added ∷ candidate_updated ∷ []

pub data CandidateBucket : Type 0 where
  advance valuation_gated exposure_unproven deprioritized : CandidateBucket

abbrev pub bucket_text : CandidateBucket → String
bucket_text advance = "advance"
bucket_text valuation_gated = "valuation_gated"
bucket_text exposure_unproven = "exposure_unproven"
bucket_text deprioritized = "deprioritized"

abbrev pub buckets : List CandidateBucket
buckets = advance ∷ valuation_gated ∷ exposure_unproven ∷ deprioritized ∷ []

pub data CandidateConfidence : Type 0 where
  not_assessed low medium high : CandidateConfidence

abbrev pub confidence_text : CandidateConfidence → String
confidence_text not_assessed = "not_assessed"
confidence_text low = "low"
confidence_text medium = "medium"
confidence_text high = "high"

abbrev pub confidences : List CandidateConfidence
confidences = CandidateConfidence.not_assessed ∷ low ∷ medium ∷ high ∷ []

pub data CandidateDataQuality : Type 0 where
  not_assessed limited partial complete : CandidateDataQuality

abbrev pub quality_text : CandidateDataQuality → String
quality_text CandidateDataQuality.not_assessed = "not_assessed"
quality_text limited = "limited"
quality_text CandidateDataQuality.partial = "partial"
quality_text CandidateDataQuality.complete = "complete"

abbrev pub qualities : List CandidateDataQuality
qualities =
    CandidateDataQuality.not_assessed ∷ limited ∷ CandidateDataQuality.partial
    ∷ CandidateDataQuality.complete ∷ []

pub data CandidateSourceMode : Type 0 where
  unspecified synthetic live mixed : CandidateSourceMode

abbrev pub source_mode_text : CandidateSourceMode → String
source_mode_text unspecified = "unspecified"
source_mode_text synthetic = "synthetic"
source_mode_text live = "live"
source_mode_text mixed = "mixed"

abbrev pub source_modes : List CandidateSourceMode
source_modes = unspecified ∷ synthetic ∷ live ∷ mixed ∷ []

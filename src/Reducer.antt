-- ===== src/Reducer.antt =====
-- src/alpha_orchestration/reducer.py: the reduction of events to run state.
pub mod Payload
pub mod Plan
pub mod Tasks
pub mod Agents
pub mod Step
pub mod Envelope
pub mod Change
pub mod Lifecycle
pub mod Wiring
pub mod Planned
pub mod Acyclic
pub mod Run
pub mod Tracking
pub mod History
pub mod Endings
pub mod Sealed
pub mod Errors
pub mod Raises
pub mod Board
pub mod Cancel

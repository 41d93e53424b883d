-- ===== src/Domain.antt =====
-- src/alpha_orchestration/domain.py: enumerations, mandate, events and run state.
pub mod Enums
pub mod Spec
pub mod Candidate
pub mod Event
pub mod State
pub mod RoundTrip

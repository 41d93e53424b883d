-- ===== src/Journal.antt =====
-- src/alpha_orchestration/journal.py: append-only persistence, integrity checks and replay.
pub mod Verifier
pub mod Store
pub mod Load
pub mod RoundTrip

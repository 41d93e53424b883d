-- ===== src/Tests.antt =====
-- Small inputs, what the program does on them, and each theorem applied to one of them.
pub mod Samples
mod Runs
mod Journals
mod Stops
mod Workers
mod Registries
mod Models

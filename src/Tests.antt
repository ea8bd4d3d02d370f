-- ===== src/Tests.antt =====
-- Runs of the models on small inputs, in a module per part of the program.
pub mod Streams
pub mod Queues
pub mod Processes
pub mod Failures
pub mod Saved
pub mod Limits
pub mod Transcripts
pub mod Branches
pub mod Heuristics
pub mod Requests

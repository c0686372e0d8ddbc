-- ===== src/Replay.antt =====
-- The pacing of a replayed recording: src/pipeline/ReplayPacing.cpp, PacedFrameScheduler.cpp.
pub mod Pacing
pub mod Turns
pub mod Kept
pub mod Due
pub mod Schedule

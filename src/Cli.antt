-- ===== src/Cli.antt =====
-- The command line of the host program: src/cli, and the targets of src/pipeline/PipelineFactory.cpp.
pub mod Target
pub mod TargetRoundTrip
pub mod Options
pub mod Validate
pub mod Accepted
pub mod Examples
pub mod Focus
pub mod ExamplesRoundTrip

-- ===== src/Orchestration.antt =====
-- src/orchestration: the strategies that run several agents, and what they make of the results.
pub mod Results
pub mod Flow
pub mod FlowFile
pub mod FlowRun
pub mod Parallel
pub mod Voting

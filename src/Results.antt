-- ===== src/Results.antt =====
-- src/results: the terminal reports of agents, and how they are read.
pub mod Paging

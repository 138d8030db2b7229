-- ===== src/Pruning.antt =====
-- agentcook-core/src/agentcook_core/pruning.py: strategies that drop single turns of a history.
-- `embed` and `similarity` of the embedding provider and Python's `repr` of a list of arguments are
-- arguments.
pub mod Scan
pub mod Duplicate
pub mod Relevance
pub mod Composite
mod Tests

-- ===== src/MultiAgent.antt =====
-- agentcook-core/src/agentcook_core/multi_agent.py: routing a task to one of several agents.
-- `str.lower`, `re.search`, `repr`, the nodes and the compiled graph are arguments.
pub mod Route
pub mod Config
pub mod Orchestrator
mod Tests

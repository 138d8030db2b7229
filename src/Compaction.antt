-- ===== src/Compaction.antt =====
-- agentcook-core/src/agentcook_core/compaction.py: strategies that shrink a message history.
-- The injected collaborators are arguments: the summarizer, the token counter, the preamble of the
-- identity provider, and Python's `str` of a dict of tool arguments.
pub mod Count
pub mod Summary
pub mod Window
pub mod Budget
mod Tests

-- ===== src/Memory.antt =====
-- agentcook-core/src/agentcook_core/memory.py: the layered memory of an agent.
-- Each call of `time.time()` is an argument, in microseconds; one call of an operation reads one time.
pub mod Embedding
pub mod Entry
pub mod Store
pub mod Identity
pub mod Soul
pub mod Manager
mod Tests

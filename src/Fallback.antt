-- ===== src/Fallback.antt =====
-- agentcook-providers/src/agentcook_providers/fallback.py: a chain of providers.
pub mod Chain
pub mod Laws
mod Tests

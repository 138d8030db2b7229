-- ===== src/Quota.antt =====
-- agentcook/src/agentcook_app/middleware/quota.py: which provider a turn of the chat uses.
pub mod Resolver
pub mod Laws
mod Tests

-- ===== src/Security.antt =====
-- agentcook/src/agentcook_app/security.py: who a request is from, and what it may do.
pub mod Token
pub mod Laws
mod Tests

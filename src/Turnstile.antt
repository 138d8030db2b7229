-- ===== src/Turnstile.antt =====
-- agentcook/src/agentcook_app/middleware/turnstile.py: the check of a visitor's token.
pub mod Verifier
pub mod Laws
mod Tests

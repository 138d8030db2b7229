-- ===== src/Connectors.antt =====
-- agentcook-core/src/agentcook_core/connector.py: connector adapters and their manager. The HTTP
-- transport, the token store and tokens are arguments; `World` is what their calls change.
pub mod Adapter
pub mod Manager
mod Tests

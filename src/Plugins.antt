-- ===== src/Plugins.antt =====
-- agentcook-core/src/agentcook_core/plugin_loader.py: the loading of a plugin bundle, and its registry.
-- A directory is what is read of it; JSON texts stand as what `json.loads` gives.
pub mod Parts
pub mod Loader
pub mod Registry
mod Tests

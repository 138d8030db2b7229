-- ===== src/Hooks.antt =====
-- agentcook-core/src/agentcook_core/hook_runtime.py: hooks around a core callable.
-- Hooks and core are arguments; `World` is the state that they share outside of the context.
pub mod Context
pub mod Registry
pub mod Builtin
pub mod Pipeline
mod Tests

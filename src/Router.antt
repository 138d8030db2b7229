-- ===== src/Router.antt =====
-- agentcook-core/src/agentcook_core/model_router.py: the registry of models and the choice of one.
-- The health probe is a function of the model's name; costs are floats.
pub mod Registry
pub mod Choice
pub mod Select
mod Tests

-- ===== src/Media.antt =====
-- agentcook-core/src/agentcook_core/media.py: the renderers of attachments and their registry.
pub mod Escape
pub mod Types
pub mod Markdown
pub mod Mermaid
pub mod Cards
pub mod Registry
mod Tests

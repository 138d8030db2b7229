-- ===== src/Skills.antt =====
-- agentcook-core/src/agentcook_core/skill_loader.py: skills in Markdown files. Texts are lists of code
-- points; the file system is an argument.
pub mod Frontmatter
pub mod Manifest
pub mod Registry
mod Tests

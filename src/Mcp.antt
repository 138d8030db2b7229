-- ===== src/Mcp.antt =====
-- agentcook-core/src/agentcook_core/mcp_adapter.py: clients of MCP servers and their tools. The
-- transport is an argument, and `World` is what its calls change.
pub mod Client
pub mod Registry
mod Tests

-- ===== src/Mcp/Registry/Laws.antt =====
-- Disconnecting all clients.
use agentcook.Prelude.{String, ◌≡◌, refl, [], ◌∷◌, All, arith}
use agentcook.Prelude.Results.{ok}
use agentcook.Mcp.Client.{Server, McpClient, disconnect}
use agentcook.Mcp.Registry.{McpToolRegistry, disconnect_all, all_tools, list_servers}

module _ (sv : Server) (World : Type 0) where
  -- A client whose disconnecting never raises.
  abbrev pub Disconnects : String × McpClient sv World → Type 0
  Disconnects e = (world : World) → (e.1.transport.disconnect_from world).0 ≡ ok tt

  -- After `disconnect_all` no tool is left, if no disconnecting raises, and the servers stay registered.
  pub all_tools-disconnect_all :
      (r : McpToolRegistry sv World) (world : World)
      → All Disconnects r
      → (all_tools sv World (disconnect_all sv World r world).0 ≡ [])
        × (list_servers sv World (disconnect_all sv World r world).0 ≡ list_servers sv World r)
  unfolding all_tools disconnect_all disconnect
  all_tools-disconnect_all [] world h = (refl, refl)
  all_tools-disconnect_all ((name, c) ∷ r) world h =
      let rest = all_tools-disconnect_all r (c.transport.disconnect_from world).1 h.1 in
      (ground (arith, h.0 world, rest.0), ground (arith, h.0 world, rest.1))

-- ===== src/Mcp/Registry.antt =====
-- `McpToolRegistry` of mcp_adapter.py. What raises in `connect_all` and `disconnect_all` is logged.
pub mod Laws
use agentcook.Prelude.{String, List, [], ◌∷◌, ◌++◌, Option, none, some, map}
use agentcook.Prelude.Strings.{fmt}
use agentcook.Prelude.Results.{Result, ok, raise, value_error}
use agentcook.Prelude.Dict
use agentcook.Prelude.Dict.{Dict}
use agentcook.Mcp.Client.{Server, McpToolAdapter, McpClient, connect, disconnect}

module _ (sv : Server) (World : Type 0) where
  abbrev pub McpToolRegistry : Type 0
  McpToolRegistry = Dict (McpClient sv World)

  unfoldable pub add : McpClient sv World → McpToolRegistry → Result McpToolRegistry
  add c r = elim (Dict.get c.name r) [
    | some _ ↦
        raise (value_error (fmt ("MCP server " ∷ sv.repr c.name ∷ " already registered" ∷ [])))
    | none ↦ ok (Dict.put c.name c r)
  ]

  unfoldable pub connect_all : McpToolRegistry → World → McpToolRegistry × World
  connect_all [] world = ([], world)
  connect_all ((name, c) ∷ r) world =
      let (_, c', world') = connect sv World c world in
      let (r', world'') = connect_all r world' in ((name, c') ∷ r', world'')

  unfoldable pub disconnect_all : McpToolRegistry → World → McpToolRegistry × World
  disconnect_all [] world = ([], world)
  disconnect_all ((name, c) ∷ r) world =
      let (_, c', world') = disconnect sv World c world in
      let (r', world'') = disconnect_all r world' in ((name, c') ∷ r', world'')

  unfoldable pub all_tools : McpToolRegistry → List (McpToolAdapter sv World)
  all_tools [] = []
  all_tools ((name, c) ∷ r) = c.tools ++ all_tools r

  abbrev pub get_client : String → McpToolRegistry → Option (McpClient sv World)
  get_client name r = Dict.get name r

  abbrev pub list_servers : McpToolRegistry → List String
  list_servers r = map (λ e. e.0) r

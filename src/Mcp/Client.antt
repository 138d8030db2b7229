-- ===== src/Mcp/Client.antt =====
-- `McpToolAdapter` and `McpClient` of mcp_adapter.py. `str(exc)` and `repr` are arguments.
pub mod Laws
use agentcook.Prelude.{
  String, ℕ, Bool, true, false, List, [], ◌∷◌, Option, none, some, map, str_eq, if◌then◌else◌,
}
use agentcook.Prelude.Strings.{fmt}
use agentcook.Prelude.Results.{Error, Result, ok, raise}
use agentcook.Prelude.Dict
use agentcook.Prelude.Dict.{Dict}
use agentcook.Chat.{Metadata, text}

-- `Value` is the type of JSON values, `items` the dict that a value is, if it is one, and `not_dict` the
-- `AttributeError` of `.get` on another value. `Config` is the connection.
pub record Server : Type 1 where
  pub Value : Type 0
  pub Arguments : Type 0
  pub Config : Type 0
  pub items : Value → Option (Dict Value)
  pub not_dict : Value → Error
  pub str_exc : Error → String
  pub repr : String → String

pub record ToolResult (Output : Type 0) : Type 0 where
  pub success : Bool
  pub output : Option Output
  pub error : Option String
  pub metadata : Metadata

module _ (sv : Server) (World : Type 0) where
  open sv use {Value, Arguments, Config}

  pub record McpToolSchema : Type 0 where
    pub name : String
    pub description : String
    pub input_schema : Value

  pub record McpTransport : Type 0 where
    pub connect_to : Config → World → Result (Unit {0}) × World
    pub disconnect_from : World → Result (Unit {0}) × World
    pub list_tools : World → Result (List McpToolSchema) × World
    pub call : String → Arguments → World → Result Value × World
    pub is_connected : World → Bool

  pub record McpToolAdapter : Type 0 where
    pub schema : McpToolSchema
    pub server_name : String

  pub record McpClient : Type 0 where
    pub name : String
    pub config : Config
    pub transport : McpTransport
    pub tools : List McpToolAdapter

  abbrev pub tool_metadata : McpToolAdapter → Metadata
  tool_metadata tool = ("server", text tool.server_name) ∷ ("tool", text tool.schema.name) ∷ []

  abbrev pub wrapped : McpToolAdapter → Result Value → ToolResult Value
  wrapped tool (ok x) = record {
    success = true;
    output = some x;
    error = none;
    metadata = tool_metadata tool;
  }
  wrapped tool (raise e) = record {
    success = false;
    output = none;
    error = some (sv.str_exc e);
    metadata = tool_metadata tool;
  }

  -- `raw.get("content", raw)`.
  unfoldable pub content_of : Value → Result Value
  content_of raw = elim (sv.items raw) [
    | none ↦ raise (sv.not_dict raw)
    | some d ↦ elim (Dict.get "content" d) [ none ↦ ok raw | some content ↦ ok content ]
  ]

  abbrev pub bound : Result Value → Result Value
  bound (ok raw) = content_of raw
  bound (raise e) = raise e

  -- `McpToolAdapter.invoke`: an exception is caught and becomes a result.
  unfoldable pub invoke :
      McpTransport → McpToolAdapter → Arguments → World → ToolResult Value × World
  invoke transport tool arguments world =
      let (raw, world') = transport.call tool.schema.name arguments world in
      (wrapped tool (bound raw), world')

  abbrev pub adapter_of : String → McpToolSchema → McpToolAdapter
  adapter_of name schema = record { schema = schema; server_name = name }

  unfoldable pub listed : McpClient → Result (List McpToolSchema) → Result (Unit {0}) × McpClient
  listed c (raise e) = (raise e, c)
  listed c (ok schemas) = (ok tt, record c { tools = map (adapter_of c.name) schemas })

  unfoldable pub connect : McpClient → World → Result (Unit {0}) × McpClient × World
  connect c world =
      let (connected, world') = c.transport.connect_to c.config world in
      let (schemas, world'') = c.transport.list_tools world' in
      elim connected [
        | raise e ↦ (raise e, c, world')
        | ok _ ↦ ((listed c schemas).0, (listed c schemas).1, world'')
      ]

  -- The loop of `call_tool` over the tools.
  unfoldable pub find_tool : String → List McpToolAdapter → Option McpToolAdapter
  find_tool name [] = none
  find_tool name (tool ∷ tools) =
      let rest = find_tool name tools in if str_eq tool.schema.name name then some tool else rest

  unfoldable pub call_tool : McpClient → String → Arguments → World → ToolResult Value × World
  call_tool c tool_name arguments world = elim (find_tool tool_name c.tools) [
    | some tool ↦ invoke c.transport tool arguments world
    | none ↦ (
      record {
        success = false;
        output = none;
        error =
            some
              (fmt ("Tool " ∷ sv.repr tool_name ∷ " not found on server " ∷ sv.repr c.name ∷ []));
        metadata = [];
      },
      world,
    )
  ]

  unfoldable pub disconnect : McpClient → World → Result (Unit {0}) × McpClient × World
  disconnect c world =
      let (done, world') = c.transport.disconnect_from world in
      elim done [ raise e ↦ (raise e, c, world') | ok _ ↦ (ok tt, record c { tools = [] }, world') ]

-- ===== src/Mcp/Tests.antt =====
-- Runs of a client of a server with one tool, and the theorems at those.
use agentcook.Prelude.{
  String, ℕ, ◌+◌, ◌≡◌, ◌⊎◌, refl, true, false, [], ◌∷◌, Option, none, some, All,
}
use agentcook.Prelude.Dict
use agentcook.Prelude.Dict.{Dict}
use agentcook.Prelude.Members.{First}
use agentcook.Prelude.Results.{ok, runtime_error}
use agentcook.Mcp.Client.{
  Server, McpToolSchema, McpToolAdapter, McpTransport, McpClient, content_of, adapter_of, call_tool,
  find_tool, invoke,
}
use agentcook.Mcp.Client.Laws.{Named, OtherName, Wraps, call_tool-First}

-- A JSON value is a text or an object, here with at most one key.
data Json : Type 0 where
  text : String → Json
  empty : Json
  keyed : String → Json → Json

abbrev items : Json → Option (Dict Json)
items (text s) = none
items empty = some []
items (keyed k v) = some ((k, v) ∷ [])

abbrev server : Server
server = record {
  Value = Json;
  Arguments = String;
  Config = String;
  items = items;
  not_dict = λ v. runtime_error "no attribute 'get'";
  str_exc = λ e. "error";
  repr = λ s. s;
}

abbrev schema : McpToolSchema server ℕ
schema = record { name = "search"; description = "searches"; input_schema = empty }

-- A transport that counts its calls.
abbrev transport : McpTransport server ℕ
transport = record {
  connect_to = λ c n. (ok tt, n + 1);
  disconnect_from = λ n. (ok tt, n + 1);
  list_tools = λ n. (ok (schema ∷ []), n + 1);
  call = λ name arguments n. (ok (keyed "content" (text "found")), n + 1);
  is_connected = λ n. true;
}

abbrev client : McpClient server ℕ
client = record {
  name = "web";
  config = "";
  transport = transport;
  tools = adapter_of server ℕ "web" schema ∷ [];
}

call_tool_run : (call_tool server ℕ client "search" "x" 0).0.success ≡ true
unfolding call_tool find_tool invoke content_of Dict.get
call_tool_run = refl

call_tool-First_example :
    ((tool : McpToolAdapter server ℕ) × First
        (Named server ℕ "search")
        (OtherName server ℕ "search")
        tool
        client.tools
      × ((call_tool server ℕ client "search" "x" 0).1 ≡ 1)
      × Wraps server ℕ
          (ok (keyed "content" (text "found")))
          (call_tool server ℕ client "search" "x" 0).0)
    ⊎ (All (OtherName server ℕ "search") client.tools
        × ((call_tool server ℕ client "search" "x" 0).1 ≡ 0)
        × ((call_tool server ℕ client "search" "x" 0).0.success ≡ false))
call_tool-First_example = call_tool-First server ℕ client "search" "x" 0

-- ===== src/Chat.antt =====
-- agentcook-core/src/agentcook_core/types.py: the messages of a conversation.
use agentcook.Prelude.{true, String, ℕ, Bool, false, not, List, Option, none, some, is_empty}

-- The values that the code itself puts into a `dict[str, Any]`.
pub data Value : Type 0 where
  text : String → Value
  num : ℕ → Value
  nums : List ℕ → Value
  flag : Bool → Value

abbrev pub Metadata : Type 0
Metadata = List (String × Value)

pub data Role : Type 0 where
  system user assistant tool : Role

pub record ToolCall : Type 0 where
  pub id : String
  pub name : String
  pub arguments : List (String × Value)

pub record Message : Type 0 where
  pub role : Role
  pub content : String
  pub name : Option String
  pub tool_calls : Option (List ToolCall)
  pub tool_call_id : Option String
  pub metadata : Metadata

-- `if msg.tool_calls:`.
abbrev pub has_tool_calls : Message → Bool
has_tool_calls m = elim m.tool_calls [ none ↦ false | some calls ↦ not (is_empty calls) ]

abbrev pub is_system : Message → Bool
is_system m = elim m.role [ system ↦ true | _ ↦ false ]

abbrev pub is_user : Message → Bool
is_user m = elim m.role [ user ↦ true | _ ↦ false ]

abbrev pub is_assistant : Message → Bool
is_assistant m = elim m.role [ assistant ↦ true | _ ↦ false ]

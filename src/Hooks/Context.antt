-- ===== src/Hooks/Context.antt =====
-- `HookEvent`, `HookContext` and `Hook` of hook_runtime.py.
use agentcook.Prelude.{String, Bool, true, false, [], Option, none, some}
use agentcook.Chat.{Metadata}

pub data HookEvent : Type 0 where
  agent_run tool_invoke model_call connector_open plugin_activate memory_write custom : HookEvent

abbrev pub event_value : HookEvent → String
event_value agent_run = "agent_run"
event_value tool_invoke = "tool_invoke"
event_value model_call = "model_call"
event_value connector_open = "connector_open"
event_value plugin_activate = "plugin_activate"
event_value memory_write = "memory_write"
event_value custom = "custom"

pub record HookContext : Type 0 where
  pub event : HookEvent
  pub data_values : Metadata
  pub metadata : Metadata
  pub cancelled : Bool
  pub cancel_reason : Option String

unfoldable pub cancel : String → HookContext → HookContext
cancel reason context = record context { cancelled = true; cancel_reason = some reason }

-- The context at the start of a run. No data and an empty dict are the same.
abbrev pub new_context : HookEvent → Metadata → HookContext
new_context event values = record {
  event = event;
  data_values = values;
  metadata = [];
  cancelled = false;
  cancel_reason = none;
}

-- A method call that may raise: the message of the exception if it does, and the state after.
pub record Hook (Output World : Type 0) : Type 0 where
  pub name : String
  pub pre_execute : HookContext → World → Option String × HookContext × World
  pub post_execute : HookContext → Option Output → World → Option String × HookContext × World

-- ===== src/MultiAgent/Config.antt =====
-- `RouterConfig` and `parse_router_config` of multi_agent.py. The raw dict is read as its keys: a key
-- that is missing is none, and a value has the type that the format gives it.
pub mod Laws
use agentcook.Prelude.{
  String, ℕ, Bool, true, false, List, [], ◌∷◌, Option, none, some, str_eq, if◌then◌else◌,
}
use agentcook.Prelude.Results.{Result, ok, raise, key_error, ◌>>=◌}
use agentcook.Chat.{Metadata}
use agentcook.MultiAgent.Route.{AgentNodeConfig}

pub data RoutingStrategy : Type 0 where
  pattern_match llm_classify tool_route : RoutingStrategy

abbrev pub strategy_value : RoutingStrategy → String
strategy_value pattern_match = "pattern_match"
strategy_value llm_classify = "llm_classify"
strategy_value tool_route = "tool_route"

pub record RouteRule : Type 0 where
  pub target : String
  pub patterns : List String
  pub description : String
  pub priority : ℕ

pub record RouterConfig : Type 0 where
  pub name : String
  pub description : String
  pub agents : List AgentNodeConfig
  pub rules : List RouteRule
  pub strategy : RoutingStrategy
  pub metadata : Metadata

pub record RawAgent : Type 0 where
  pub name : Option String
  pub description : Option String
  pub model : Option String
  pub system_prompt : Option String
  pub is_fallback : Option Bool
  pub trigger_patterns : Option (List String)

pub record RawRule : Type 0 where
  pub target : Option String
  pub patterns : Option (List String)
  pub description : Option String
  pub priority : Option ℕ

-- The two keys of the section `router` that are read; a section that is missing has neither.
pub record RawConfig : Type 0 where
  pub router_name : Option String
  pub router_description : Option String
  pub agents : Option (List RawAgent)
  pub rules : Option (List RawRule)
  pub routing_strategy : Option String

-- `d.get(key, default)`.
abbrev pub or_default : {A : Type 0} → A → Option A → A
or_default d none = d
or_default d (some a) = a

-- `d[key]`.
abbrev pub required : {A : Type 0} → String → Option A → Result A
required key none = raise (key_error key)
required key (some a) = ok a

unfoldable pub parse_agent : RawAgent → Result AgentNodeConfig
parse_agent a = do
  name ← required "name" a.name
  ok (record {
    name = name;
    description = or_default "" a.description;
    model = or_default "gpt-4o" a.model;
    system_prompt = or_default "" a.system_prompt;
    is_fallback = or_default false a.is_fallback;
    trigger_patterns = or_default [] a.trigger_patterns;
  })

unfoldable pub parse_agents : List RawAgent → Result (List AgentNodeConfig)
parse_agents [] = ok []
parse_agents (a ∷ as') = do agent ← parse_agent a; agents ← parse_agents as'; ok (agent ∷ agents)

unfoldable pub parse_rule : RawRule → Result RouteRule
parse_rule r = do
  target ← required "target" r.target
  ok (record {
    target = target;
    patterns = or_default [] r.patterns;
    description = or_default "" r.description;
    priority = or_default 0 r.priority;
  })

unfoldable pub parse_rules : List RawRule → Result (List RouteRule)
parse_rules [] = ok []
parse_rules (r ∷ rs) = do rule ← parse_rule r; rules ← parse_rules rs; ok (rule ∷ rules)

-- `RoutingStrategy(text)`, with `PATTERN_MATCH` where that raises a ValueError.
unfoldable pub parse_strategy : String → RoutingStrategy
parse_strategy text =
    if str_eq text "llm_classify"
    then llm_classify
    else if str_eq text "tool_route"
    then tool_route
    else pattern_match

unfoldable pub parse_router_config : RawConfig → Result RouterConfig
parse_router_config raw = do
  agents ← parse_agents (or_default [] raw.agents)
  rules ← parse_rules (or_default [] raw.rules)
  ok (record {
    name = or_default "default-router" raw.router_name;
    description = or_default "" raw.router_description;
    agents = agents;
    rules = rules;
    strategy = parse_strategy (or_default "pattern_match" raw.routing_strategy);
    metadata = [];
  })

-- ===== src/MultiAgent/Config/Laws.antt =====
-- Writing a configuration and parsing it.
use agentcook.Prelude.{◌≡◌, refl, List, [], ◌∷◌, some, map, arith}
use agentcook.Prelude.Results.{ok}
use agentcook.MultiAgent.Route.{AgentNodeConfig}
use agentcook.MultiAgent.Config.{
  RoutingStrategy, pattern_match, llm_classify, tool_route, strategy_value, RouteRule, RouterConfig,
  RawAgent, RawRule, RawConfig, parse_agent, parse_agents, parse_rule, parse_rules, parse_strategy,
  parse_router_config,
}

abbrev raw_agent : AgentNodeConfig → RawAgent
raw_agent a = record {
  name = some a.name;
  description = some a.description;
  model = some a.model;
  system_prompt = some a.system_prompt;
  is_fallback = some a.is_fallback;
  trigger_patterns = some a.trigger_patterns;
}

abbrev raw_rule : RouteRule → RawRule
raw_rule r = record {
  target = some r.target;
  patterns = some r.patterns;
  description = some r.description;
  priority = some r.priority;
}

-- The dict with every key of a configuration; the metadata have none.
abbrev pub raw_config : RouterConfig → RawConfig
raw_config c = record {
  router_name = some c.name;
  router_description = some c.description;
  agents = some (map raw_agent c.agents);
  rules = some (map raw_rule c.rules);
  routing_strategy = some (strategy_value c.strategy);
}

parse_agents-map : (as' : List AgentNodeConfig) → parse_agents (map raw_agent as') ≡ ok as'
unfolding parse_agents parse_agent
parse_agents-map [] = refl
parse_agents-map (a ∷ as') = ground (arith, parse_agents-map as')

parse_rules-map : (rs : List RouteRule) → parse_rules (map raw_rule rs) ≡ ok rs
unfolding parse_rules parse_rule
parse_rules-map [] = refl
parse_rules-map (r ∷ rs) = ground (arith, parse_rules-map rs)

parse_strategy-value : (s : RoutingStrategy) → parse_strategy (strategy_value s) ≡ s
unfolding parse_strategy
parse_strategy-value pattern_match = refl
parse_strategy-value llm_classify = refl
parse_strategy-value tool_route = refl

-- A configuration that is written as a dict with every key is parsed to itself, but for its metadata,
-- which the format does not carry.
pub parse_router_config-raw :
    (c : RouterConfig) → parse_router_config (raw_config c) ≡ ok (record c { metadata = [] })
unfolding parse_router_config
parse_router_config-raw c =
    ground
      (arith, parse_agents-map c.agents, parse_rules-map c.rules, parse_strategy-value c.strategy)

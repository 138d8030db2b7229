-- ===== src/MultiAgent/Tests.antt =====
-- Runs of the orchestrator, and the theorems at those.
use agentcook.Prelude.{
  String, ℕ, ◌+◌, ◌≡◌, refl, Bool, true, false, List, [], ◌∷◌, Option, none, some, starts_with,
}
use agentcook.Prelude.Dict
use agentcook.Prelude.Results.{ok}
use agentcook.Chat.{user, assistant, text}
use agentcook.Samples.{message}
use agentcook.MultiAgent.Route.{
  AgentNodeConfig, some_pattern, is_triggered, find_triggered, find_fallback, last, route,
  pattern_match_route,
}
use agentcook.MultiAgent.Route.Laws.{IsRouted, route-IsRouted}
use agentcook.MultiAgent.Config.{RouterConfig, tool_route}
use agentcook.MultiAgent.Orchestrator.{
  AgentNode, OrchestrationResult, MultiAgentOrchestrator, last_content, route_target, dispatched,
  run_node, run_simple, run,
}
use agentcook.MultiAgent.Orchestrator.Laws.{run-IsRouted}

abbrev agent : String → Bool → List String → AgentNodeConfig
agent name is_fallback patterns = record {
  name = name;
  description = "";
  model = "gpt-4o";
  system_prompt = "";
  is_fallback = is_fallback;
  trigger_patterns = patterns;
}

abbrev agents : List AgentNodeConfig
agents = agent "math" false ("sum" ∷ []) ∷ agent "help" true [] ∷ []

abbrev lower : String → String
lower s = s

-- Patterns are beginnings of the text here.
abbrev search : String → String → Option Bool
search pattern s = some (starts_with s pattern)

abbrev config : RouterConfig
config = record {
  name = "r";
  description = "";
  agents = agents;
  rules = [];
  strategy = tool_route;
  metadata = [];
}

-- A node that counts its calls.
abbrev node : String → AgentNode ℕ
node answer messages calls = (ok (message assistant answer), calls + 1)

abbrev orchestrator : MultiAgentOrchestrator ℕ
orchestrator = record {
  config = config;
  nodes = ("math", node "3") ∷ ("help", node "Hello") ∷ [];
  compiled_graph = none;
}

abbrev repr : String → String
repr s = s

abbrev repr_names : List String → String
repr_names names = "[...]"

route_run : route lower search "sum of 1 and 2" agents ≡ ok (agent "math" false ("sum" ∷ []))
unfolding route find_triggered is_triggered some_pattern find_fallback last
route_run = refl

route-IsRouted_example :
    IsRouted lower search (lower "sum of 1 and 2") agents (agent "math" false ("sum" ∷ []))
route-IsRouted_example =
    route-IsRouted lower search "sum of 1 and 2" agents (agent "math" false ("sum" ∷ [])) route_run

abbrev answer : OrchestrationResult
answer = record {
  output = message assistant "Hello";
  route_path = "router" ∷ "help" ∷ [];
  metadata = ("strategy", text "tool_route") ∷ [];
}

run-graph_run :
    (run orchestrator lower search repr repr_names (message user "Hi" ∷ []) "" 0).0 ≡ ok answer
unfolding run run_simple run_node pattern_match_route dispatched route find_triggered is_triggered
    some_pattern find_fallback last last_content Dict.get
run-graph_run = refl

run-IsRouted_example :
    (a : AgentNodeConfig) × (n : AgentNode ℕ) × IsRouted lower search
      (lower (route_target "" (message user "Hi" ∷ [])))
      config.agents
      a
    × (Dict.get a.name orchestrator.nodes ≡ some n)
    × ((n (message user "Hi" ∷ []) 0).0 ≡ ok answer.output)
    × ((run orchestrator lower search repr repr_names (message user "Hi" ∷ []) "" 0).1
        ≡ (n (message user "Hi" ∷ []) 0).1)
    × (answer.route_path ≡ "router" ∷ a.name ∷ [])
run-IsRouted_example =
    run-IsRouted orchestrator lower search repr repr_names (message user "Hi" ∷ []) "" 0 answer refl
      run-graph_run

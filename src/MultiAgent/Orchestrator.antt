-- ===== src/MultiAgent/Orchestrator.antt =====
-- `MultiAgentOrchestrator` of multi_agent.py. A node and a compiled graph act on a `World`;
-- the optional context, which is only handed on to the node, is part of it.
pub mod Laws
use agentcook.Prelude.{
  String, Bool, true, false, List, [], ◌∷◌, Option, none, some, map, if◌then◌else◌,
}
use agentcook.Prelude.Strings.{fmt, truthy}
use agentcook.Prelude.Results.{Result, ok, raise, runtime_error}
use agentcook.Prelude.Dict
use agentcook.Prelude.Dict.{Dict}
use agentcook.Chat.{Role, assistant, Message, Metadata, text, flag}
use agentcook.MultiAgent.Route.{pattern_match_route}
use agentcook.MultiAgent.Config.{RouterConfig, strategy_value, or_default}

-- `execute` of an `AgentNode`.
abbrev pub AgentNode : Type 0 → Type 0
AgentNode World = List Message → World → Result Message × World

pub record OrchestrationResult : Type 0 where
  pub output : Message
  pub route_path : List String
  pub metadata : Metadata

-- What is read of the state that a compiled graph answers with: the last message, with the keys that
-- it has, and the current agent.
pub record LastMessage : Type 0 where
  pub role : Option Role
  pub content : Option String

pub record ResultState : Type 0 where
  pub last_message : Option LastMessage
  pub current_agent : Option String

-- What a compiled graph is called with.
pub record InputState : Type 0 where
  pub messages : List (Role × String)
  pub task : String
  pub current_agent : String

-- A compiled graph has `ainvoke`, or `invoke`, or neither.
pub data CompiledGraph (World : Type 0) : Type 0 where
  with_ainvoke with_invoke : (InputState → World → Result ResultState × World) → CompiledGraph World
  with_neither : CompiledGraph World

pub record MultiAgentOrchestrator (World : Type 0) : Type 0 where
  pub config : RouterConfig
  pub nodes : Dict (AgentNode World)
  pub compiled_graph : Option (CompiledGraph World)

abbrev keys : {V : Type 0} → Dict V → List String
keys d = map (λ e. e.0) d

-- `messages[-1].content if messages else ""`.
unfoldable pub last_content : List Message → String
last_content [] = ""
last_content (m ∷ ms) = let rest = last_content ms in elim ms [ [] ↦ m.content | _ ∷ _ ↦ rest ]

-- `task or ...`.
abbrev pub route_target : String → List Message → String
route_target task messages = if truthy task then task else last_content messages

abbrev bare : Role → String → Message
bare role content = record {
  role = role;
  content = content;
  name = none;
  tool_calls = none;
  tool_call_id = none;
  metadata = [];
}

abbrev no_message : LastMessage
no_message = record { role = none; content = none }

module _ {World : Type 0} (o : MultiAgentOrchestrator World) where
  unfoldable pub compiled_result : Result ResultState → Result OrchestrationResult
  compiled_result (raise e) = raise e
  compiled_result (ok state) =
      let last_msg = or_default no_message state.last_message in
      ok (record {
        output = bare (or_default assistant last_msg.role) (or_default "" last_msg.content);
        route_path = "router" ∷ or_default "unknown" state.current_agent ∷ [];
        metadata =
            ("strategy", text (strategy_value o.config.strategy)) ∷ ("compiled", flag true) ∷ [];
      })

  unfoldable pub run_graph :
      CompiledGraph World → InputState → World → Result OrchestrationResult × World
  run_graph (with_ainvoke f) state world = let (r, w) = f state world in (compiled_result r, w)
  run_graph (with_invoke f) state world = let (r, w) = f state world in (compiled_result r, w)
  run_graph with_neither state world =
      (raise (runtime_error "Compiled graph has no invoke/ainvoke method"), world)

  unfoldable pub run_compiled :
      CompiledGraph World → List Message → String → World → Result OrchestrationResult × World
  run_compiled graph messages task world =
      run_graph graph
        (record {
          messages = map (λ m. (m.role, m.content)) messages;
          task = task;
          current_agent = "";
        })
        world

  module _ (lower : String → String) (search : String → String → Option Bool)
      (repr : String → String) (repr_names : List String → String) where
    unfoldable pub dispatched : String → Result Message → Result OrchestrationResult
    dispatched agent_name (raise e) = raise e
    dispatched agent_name (ok output) = ok (record {
      output = output;
      route_path = "router" ∷ agent_name ∷ [];
      metadata = ("strategy", text (strategy_value o.config.strategy)) ∷ [];
    })

    unfoldable pub run_node : String → List Message → World → Result OrchestrationResult × World
    run_node agent_name messages world = elim (Dict.get agent_name o.nodes) [
      | none ↦ (
        raise (
            runtime_error (
              fmt (
                "Routed to "
                ∷ repr agent_name
                ∷ " but no node registered. Available: "
                ∷ repr_names (keys o.nodes)
                ∷ []))),
        world,
      )
      | some node ↦ let (r, w) = node messages world in (dispatched agent_name r, w)
    ]

    unfoldable pub run_simple : List Message → String → World → Result OrchestrationResult × World
    run_simple messages task world =
        elim (pattern_match_route lower search (route_target task messages) o.config.agents) [
          | raise e ↦ (raise e, world)
          | ok agent_name ↦ run_node agent_name messages world
        ]

    unfoldable pub run : List Message → String → World → Result OrchestrationResult × World
    run messages task world = elim o.compiled_graph [
      | some graph ↦ run_compiled graph messages task world
      | none ↦ run_simple messages task world
    ]

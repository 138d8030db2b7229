-- ===== src/MultiAgent/Orchestrator/Laws.antt =====
-- What a run in simple mode does.
use agentcook.Prelude.{
  String, ◌≡◌, ◌⊎◌, refl, Bool, List, [], ◌∷◌, Option, none, some, inl, inr, Option-cases, arith,
}
use agentcook.Prelude.Results.{Error, Result, ok, raise}
use agentcook.Prelude.Dict
use agentcook.Chat.{Message}
use agentcook.MultiAgent.Route.{AgentNodeConfig, route, pattern_match_route}
use agentcook.MultiAgent.Route.Laws.{IsRouted, route-IsRouted}
use agentcook.MultiAgent.Orchestrator.{
  AgentNode, OrchestrationResult, MultiAgentOrchestrator, route_target, dispatched, run_node,
  run_simple, run,
}

Result-cases : {A : Type 0} (r : Result A) → ((a : A) × (r ≡ ok a)) ⊎ ((e : Error) × (r ≡ raise e))
Result-cases (ok a) = inl (a, refl)
Result-cases (raise e) = inr (e, refl)

module _ {World : Type 0} (o : MultiAgentOrchestrator World) (lower : String → String)
    (search : String → String → Option Bool) (repr : String → String)
    (repr_names : List String → String) where
  -- A run without a compiled graph that returns has gone to one agent: the one to whom the task, or
  -- the last message where the task is empty, is routed. Its node was registered under its name, it
  -- was called once, on the messages, and the output is its answer.
  pub run-IsRouted :
      (messages : List Message) (task : String) (world : World) (r : OrchestrationResult)
      → o.compiled_graph ≡ none
      → (run o lower search repr repr_names messages task world).0 ≡ ok r
      → (a : AgentNodeConfig) × (node : AgentNode World) × IsRouted lower search
          (lower (route_target task messages))
          o.config.agents
          a
        × (Dict.get a.name o.nodes ≡ some node)
        × ((node messages world).0 ≡ ok r.output)
        × ((run o lower search repr repr_names messages task world).1 ≡ (node messages world).1)
        × (r.route_path ≡ "router" ∷ a.name ∷ [])
  unfolding run run_simple run_node pattern_match_route dispatched
  run-IsRouted messages task world r simple h =
      let target = route_target task messages in
      elim (Result-cases (route lower search target o.config.agents)) [
        | inr (e, x) ↦ absurd (ground (arith, simple, h, x))
        | inl (a, x) ↦ elim (Option-cases (Dict.get a.name o.nodes)) [
          | inl y ↦ absurd (ground (arith, simple, h, x, y))
          | inr (node, y) ↦ elim (Result-cases (node messages world).0) [
            | inr (e, z) ↦ absurd (ground (arith, simple, h, x, y, z))
            | inl (output, z) ↦ (
              a,
              node,
              route-IsRouted lower search target o.config.agents a x,
              y,
              ground (arith, simple, h, x, y, z),
              ground (arith, simple, x, y),
              ground (arith, simple, h, x, y, z),
            )
          ]
        ]
      ]

-- ===== src/MultiAgent/Route.antt =====
-- `pattern_match_route` of multi_agent.py. `search` answers none where the pattern is no regular
-- expression and `re.search` raises.
pub mod Laws
use agentcook.Prelude.{
  String, ℕ, Bool, true, false, List, [], ◌∷◌, Option, none, some, if◌then◌else◌,
}
use agentcook.Prelude.Results.{Result, ok, raise, index_error, re_error, ◌>>=◌}

pub record AgentNodeConfig : Type 0 where
  pub name : String
  pub description : String
  pub model : String
  pub system_prompt : String
  pub is_fallback : Bool
  pub trigger_patterns : List String

-- `next((a for a in agents if a.is_fallback), None)`.
unfoldable pub find_fallback : List AgentNodeConfig → Option AgentNodeConfig
find_fallback [] = none
find_fallback (agent ∷ agents) =
    let rest = find_fallback agents in if agent.is_fallback then some agent else rest

-- `agents[-1]`.
unfoldable pub last : List AgentNodeConfig → Result AgentNodeConfig
last [] = raise (index_error "tuple index out of range")
last (agent ∷ agents) = let rest = last agents in elim agents [ [] ↦ ok agent | _ ∷ _ ↦ rest ]

abbrev pub fallback_of : List AgentNodeConfig → Result AgentNodeConfig
fallback_of agents = elim (find_fallback agents) [ some a ↦ ok a | none ↦ last agents ]

module _ (lower : String → String) (search : String → String → Option Bool) where
  -- The inner loop: whether a pattern is found in the text.
  unfoldable pub some_pattern : String → List String → Result Bool
  some_pattern text [] = ok false
  some_pattern text (pattern ∷ patterns) =
      let rest = some_pattern text patterns in
      elim (search pattern text) [
        | none ↦ raise (re_error pattern)
        | some true ↦ ok true
        | some false ↦ rest
      ]

  -- Whether the outer loop stops at an agent.
  unfoldable pub is_triggered : String → AgentNodeConfig → Result Bool
  is_triggered text agent =
      if agent.is_fallback then ok false else some_pattern text agent.trigger_patterns

  unfoldable pub find_triggered : String → List AgentNodeConfig → Result (Option AgentNodeConfig)
  find_triggered text [] = ok none
  find_triggered text (agent ∷ agents) =
      let rest = find_triggered text agents in
      elim (is_triggered text agent) [
        | raise e ↦ raise e
        | ok true ↦ ok (some agent)
        | ok false ↦ rest
      ]

  -- The agent; the source answers with its name.
  unfoldable pub route : String → List AgentNodeConfig → Result AgentNodeConfig
  route task agents = elim (find_triggered (lower task) agents) [
    | raise e ↦ raise e
    | ok (some a) ↦ ok a
    | ok none ↦ fallback_of agents
  ]

  unfoldable pub pattern_match_route : String → List AgentNodeConfig → Result String
  pattern_match_route task agents = do agent ← route task agents; ok agent.name

-- ===== src/Connectors/Manager.antt =====
-- `ConnectorManager` of connector.py. `open_all` and `close_all` log what raises; each adapter reads
-- the clock for itself, here once for all.
pub mod Laws
use agentcook.Prelude.{String, ℕ, List, [], ◌∷◌, ◌++◌, Option, none, some, length, map}
use agentcook.Prelude.Strings.{fmt}
use agentcook.Prelude.Results.{Result, ok, raise, value_error}
use agentcook.Prelude.Dict
use agentcook.Prelude.Dict.{Dict}
use agentcook.Connectors.Adapter.{Tokens, Adapter, open_adapter, close, tools}

module _ (ts : Tokens) (World Tool : Type 0) where
  abbrev pub ConnectorManager : Type 0
  ConnectorManager = Dict (Adapter ts World Tool)

  unfoldable pub add : Adapter ts World Tool → ConnectorManager → Result ConnectorManager
  add a m = elim (Dict.get a.config.name m) [
    | some _ ↦
        raise (value_error (fmt ("Connector '" ∷ a.config.name ∷ "' already registered" ∷ [])))
    | none ↦ ok (Dict.put a.config.name a m)
  ]

  -- The adapters are the same objects: each entry gets the adapter that `open` left.
  unfoldable pub open_all : ℕ → ConnectorManager → World → ConnectorManager × World
  open_all now [] world = ([], world)
  open_all now ((name, a) ∷ m) world =
      let (_, a', world') = open_adapter ts World Tool now a world in
      let (m', world'') = open_all now m world' in ((name, a') ∷ m', world'')

  unfoldable pub close_all : ConnectorManager → ConnectorManager
  close_all [] = []
  close_all ((name, a) ∷ m) = (name, close ts World Tool a) ∷ close_all m

  unfoldable pub all_tools : ConnectorManager → List Tool
  all_tools [] = []
  all_tools ((name, a) ∷ m) = tools ts World Tool a ++ all_tools m

  abbrev pub find : String → ConnectorManager → Option (Adapter ts World Tool)
  find name m = Dict.get name m

  abbrev pub list_connectors : ConnectorManager → List (Adapter ts World Tool)
  list_connectors m = Dict.values m

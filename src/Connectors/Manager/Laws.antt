-- ===== src/Connectors/Manager/Laws.antt =====
-- Opening and closing all connectors.
use agentcook.Prelude.{String, ℕ, ◌≡◌, refl, ap, ◌∙◌, false, List, [], ◌∷◌, ◌++◌, All, map}
use agentcook.Prelude.Results.{Result}
use agentcook.Connectors.Adapter.{Tokens, Adapter, open_adapter, close, tools}
use agentcook.Connectors.Adapter.Laws.{Opens, open-Opens, tools-Opens}
use agentcook.Connectors.Manager.{ConnectorManager, open_all, close_all, all_tools}

module _ (ts : Tokens) (World Tool : Type 0) where
  abbrev Manager : Type 0
  Manager = ConnectorManager ts World Tool

  -- The names, in the order of registration.
  abbrev pub names : Manager → List String
  names m = map (λ e. e.0) m

  tools-close_all :
      (m : Manager)
      → all_tools ts World Tool (close_all ts World Tool m) ≡ all_tools ts World Tool m
  unfolding all_tools close_all close tools
  tools-close_all [] = refl
  tools-close_all ((name, a) ∷ m) = ap (λ l. tools ts World Tool a ++ l) (tools-close_all m)

  names-close_all : (m : Manager) → names (close_all ts World Tool m) ≡ names m
  unfolding close_all
  names-close_all [] = refl
  names-close_all ((name, a) ∷ m) = ap (λ l. name ∷ l) (names-close_all m)

  closed-close_all : (m : Manager) → All (λ e. e.1.opened ≡ false) (close_all ts World Tool m)
  unfolding close_all close
  closed-close_all [] = tt
  closed-close_all ((name, a) ∷ m) = (refl, closed-close_all m)

  names-open_all :
      (now : ℕ) (m : Manager) (world : World)
      → names (open_all ts World Tool now m world).0 ≡ names m
  unfolding open_all
  names-open_all now [] world = refl
  names-open_all now ((name, a) ∷ m) world =
      ap (λ l. name ∷ l) (names-open_all now m (open_adapter ts World Tool now a world).2)

  tools-open_all :
      (now : ℕ) (m : Manager) (world : World)
      → all_tools ts World Tool (open_all ts World Tool now m world).0 ≡ all_tools ts World Tool m
  unfolding open_all all_tools
  tools-open_all now [] world = refl
  tools-open_all now ((name, a) ∷ m) world =
      let (same, _) = tools-Opens ts World Tool (open-Opens ts World Tool now a world) in
      ap
        (λ l.
          l
          ++ all_tools ts World Tool
              (open_all ts World Tool now m (open_adapter ts World Tool now a world).2).0)
        same
      ∙ ap (λ l. tools ts World Tool a ++ l)
          (tools-open_all now m (open_adapter ts World Tool now a world).2)

  -- The effect on the world is that of opening the connectors one after the other.
  pub data Opened (now : ℕ) : Manager → World → Manager → World → Type 0 where
    no_more : (world : World) → Opened now [] world [] world
    next :
        {m m' : Manager} {world world'' : World} (name : String) (a : Adapter ts World Tool)
        (r : Result (Unit {0}) × Adapter ts World Tool × World)
        → Opens ts World Tool now a world r
        → Opened now m r.2 m' world''
        → Opened now ((name, a) ∷ m) world ((name, r.1) ∷ m') world''

  open_all-Opened :
      (now : ℕ) (m : Manager) (world : World)
      → Opened now m world
          (open_all ts World Tool now m world).0
          (open_all ts World Tool now m world).1
  unfolding open_all
  open_all-Opened now [] world = no_more world
  open_all-Opened now ((name, a) ∷ m) world =
      next name a (open_adapter ts World Tool now a world) (open-Opens ts World Tool now a world)
        (open_all-Opened now m (open_adapter ts World Tool now a world).2)

  -- `open_all` calls `open` of each connector once, in the order of registration, each in the world
  -- that the one before left: a connector that is open stays so untouched, one whose preparation returns
  -- is opened, and one whose preparation raises stays closed and stops none of the others. `close_all`
  -- after it leaves every connector registered under its name and closed. Neither changes what
  -- `all_tools` answers: it does not ask whether a connector is open.
  pub close_all-open_all :
      (now : ℕ) (m : Manager) (world : World)
      → Opened now m world
          (open_all ts World Tool now m world).0
          (open_all ts World Tool now m world).1
        × All
            (λ e. e.1.opened ≡ false)
            (close_all ts World Tool (open_all ts World Tool now m world).0)
        × (names (close_all ts World Tool (open_all ts World Tool now m world).0) ≡ names m)
        × (all_tools ts World Tool (open_all ts World Tool now m world).0
            ≡ all_tools ts World Tool m)
        × (all_tools ts World Tool (close_all ts World Tool (open_all ts World Tool now m world).0)
            ≡ all_tools ts World Tool m)
  close_all-open_all now m world =
      let opened = (open_all ts World Tool now m world).0 in
      (
        open_all-Opened now m world,
        closed-close_all opened,
        names-close_all opened ∙ names-open_all now m world,
        tools-open_all now m world,
        tools-close_all opened ∙ tools-open_all now m world,
      )

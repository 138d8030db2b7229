-- ===== src/Connectors/Adapter/Laws.antt =====
-- The life cycle of an adapter.
use agentcook.Prelude.{ℕ, ◌≡◌, refl, Bool, true, false, if◌then◌else◌}
use agentcook.Prelude.Results.{Error, Result, ok, raise}
use agentcook.Connectors.Adapter.{Tokens, Adapter, prepare_part, opening, open_adapter, tools}

module _ (ts : Tokens) (World Tool : Type 0) where
  -- What a call of `open` comes to.
  pub data Opens (now : ℕ) (a : Adapter ts World Tool) (world : World)
      : Result (Unit {0}) × Adapter ts World Tool × World → Type 0 where
    already : a.opened ≡ true → Opens now a world (ok tt, a, world)
    succeeds :
        (world' : World)
        → a.opened ≡ false
        → prepare_part ts World Tool now a.config a.part world ≡ (ok tt, world')
        → Opens now a world (ok tt, record a { opened = true }, world')
    fails :
        (e : Error) (world' : World)
        → a.opened ≡ false
        → prepare_part ts World Tool now a.config a.part world ≡ (raise e, world')
        → Opens now a world (raise e, a, world')

  opened_by :
      (now : ℕ) (a : Adapter ts World Tool) (world : World) (p : Result (Unit {0}) × World)
      → a.opened ≡ false
      → prepare_part ts World Tool now a.config a.part world ≡ p
      → Opens now a world (p.0, opening ts World Tool a p.0, p.1)
  unfolding opening
  opened_by now a world (ok tt, w) closed e = succeeds w closed e
  opened_by now a world (raise x, w) closed e = fails x w closed e

  -- A call of `open` does one of three things: nothing at all where the adapter is open, or it opens
  -- the adapter after its preparation returned, or it raises what the preparation raised and leaves
  -- the adapter as it was.
  pub open-Opens :
      (now : ℕ) (a : Adapter ts World Tool) (world : World)
      → Opens now a world (open_adapter ts World Tool now a world)
  unfolding open_adapter
  open-Opens now a world = chosen a.opened refl
    where
      done : Result (Unit {0}) × World
      done = prepare_part ts World Tool now a.config a.part world

      chosen :
          (b : Bool)
          → a.opened ≡ b
          → Opens now a world
              (if b then (ok tt, a, world) else (done.0, opening ts World Tool a done.0, done.1))
      chosen true e = already e
      chosen false e = opened_by now a world done e refl

  -- `tools` and the configuration do not depend on whether the adapter is open.
  pub tools-Opens :
      {now : ℕ} {a : Adapter ts World Tool} {world : World}
      {r : Result (Unit {0}) × Adapter ts World Tool × World}
      → Opens now a world r
      → (tools ts World Tool r.1 ≡ tools ts World Tool a) × (r.1.config ≡ a.config)
  unfolding tools
  tools-Opens (already e) = (refl, refl)
  tools-Opens (succeeds w e p) = (refl, refl)
  tools-Opens (fails x w e p) = (refl, refl)

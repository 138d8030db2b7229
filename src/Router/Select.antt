-- ===== src/Router/Select.antt =====
-- `ModelRouter.select` and `select_with_fallback`. A call returns its result or error, and the router
-- after it: the round-robin counter is its state. Tracing and the telemetry event, whose errors are
-- swallowed, are left out.
pub mod Laws
pub mod Turns
use agentcook.Prelude.{
  String, ℕ, ◌+◌, Bool, true, false, not, List, [], ◌∷◌, map, Option, none, some, keep_if, is_empty,
  if◌then◌else◌,
}
use agentcook.Prelude.Strings.{fmt, join}
use agentcook.Prelude.Floats.{Floats}
use agentcook.Prelude.Results.{Result, ok, raise, router_error, value_error}
use agentcook.Router.Registry.{
  RoutingPolicy, cost_optimized, quality_first, round_robin, fallback_chain, ModelConfig,
  ModelRegistry, contains, list_enabled,
}
use agentcook.Router.Choice.{apply_policy}

abbrev pub policy_value : RoutingPolicy → String
policy_value cost_optimized = "cost_optimized"
policy_value quality_first = "quality_first"
policy_value round_robin = "round_robin"
policy_value fallback_chain = "fallback_chain"

module _ (fl : Floats) where
  open fl use {Float}

  pub record RoutingResult : Type 0 where
    pub model : ModelConfig Float
    pub reason : String
    pub alternatives_tried : List String

  pub record ModelRouter : Type 0 where
    pub registry : ModelRegistry Float
    pub policy : RoutingPolicy
    pub is_available : String → Bool
    pub counter : ℕ

  -- The keyword arguments of `select`.
  pub record Request : Type 0 where
    pub policy : Option RoutingPolicy
    pub provider : Option String
    pub tag : Option String
    pub exclude : Option (List String)

  abbrev pub active_policy : ModelRouter → Request → RoutingPolicy
  active_policy r q = elim q.policy [ none ↦ r.policy | some p ↦ p ]

  abbrev pub excluded : Request → List String
  excluded q = elim q.exclude [ none ↦ [] | some names ↦ names ]

  unfoldable pub candidates : ModelRouter → Request → List (ModelConfig Float)
  candidates r q =
      keep_if (λ m. not (contains (excluded q) m.name)) (list_enabled q.provider q.tag r.registry)

  unfoldable pub available : ModelRouter → Request → List (ModelConfig Float)
  available r q = keep_if (λ m. r.is_available m.name) (candidates r q)

  unfoldable pub tried_unavailable : ModelRouter → Request → List String
  tried_unavailable r q =
      map (λ m. m.name)
        (keep_if (λ m. not (contains (map (λ a. a.name) (available r q)) m.name)) (candidates r q))

  -- `repr` of the list of names in the message is Python's.
  unfoldable pub select :
      (List String → String) → ModelRouter → Request → Result RoutingResult × ModelRouter
  select repr r q =
      let (chosen, counter) = apply_policy fl (active_policy r q) r.counter (available r q) in
      if is_empty (candidates r q)
      then (raise (router_error "No eligible models found in registry"), r)
      else if is_empty (available r q)
      then (
        raise (
            router_error (
              fmt (
                "All candidate models unavailable: "
                ∷ repr (map (λ m. m.name) (candidates r q))
                ∷ []))),
        r,
      )
      else (elim chosen [
        | none ↦ (raise (value_error "empty sequence"), r)
        | some model ↦ (
          ok (record {
            model = model;
            reason = fmt ("policy=" ∷ policy_value (active_policy r q) ∷ []);
            alternatives_tried = tried_unavailable r q;
          }),
          record r { counter = counter },
        )
      ])

  unfoldable pub select_with_fallback :
      (List String → String)
      → ModelRouter
      → Option String
      → Option String
      → Option (List String)
      → Result RoutingResult × ModelRouter
  select_with_fallback repr r provider tag failed =
      select repr r
        (record { policy = some fallback_chain; provider = provider; tag = tag; exclude = failed })

-- ===== src/Router/Tests.antt =====
-- Runs of the registry and the router, and the theorems at those.
use agentcook.Prelude.{
  String, ℕ, ◌<◌, ◌≡◌, refl, true, not, List, [], ◌∷◌, none, some, arith, length, inl, str_eq,
}
use agentcook.Prelude.Dict
use agentcook.Prelude.Results.{ok}
use agentcook.Samples.{hundredths}
use agentcook.Router.Registry.{
  ModelConfig, ModelRegistry, cost_optimized, round_robin, register, get, is_listed, list_enabled,
}
use agentcook.Router.Choice.{least, apply_policy}
use agentcook.Router.Choice.Laws.{IsOrder, IsBest}
use agentcook.Router.Select.{
  RoutingResult, ModelRouter, Request, candidates, available, tried_unavailable, select,
}
use agentcook.Router.Select.Laws.{IsEligible, select-IsEligible}
use agentcook.Router.Select.Turns.{turns, select-turns}

abbrev config : String → ℕ → ℕ → ModelConfig ℕ
config name cost order = record {
  name = name;
  provider = "openai";
  cost_per_1k = cost;
  max_tokens = 4096;
  quality_score = 50;
  fallback_order = order;
  tags = "code" ∷ [];
  enabled = true;
}

abbrev registry : ModelRegistry ℕ
registry = ("b", config "b" 3 0) ∷ ("a", config "a" 1 2) ∷ ("c", config "c" 2 1) ∷ []

abbrev router : ModelRouter hundredths
router = record {
  registry = registry;
  policy = cost_optimized;
  is_available = λ name. not (str_eq name "a");
  counter = 5;
}

abbrev any_model : Request hundredths
any_model = record { policy = none; provider = none; tag = some "code"; exclude = none }

abbrev in_turn : Request hundredths
in_turn = record { policy = some round_robin; provider = none; tag = none; exclude = none }

abbrev no_repr : List String → String
no_repr names = "[...]"

abbrev answer : RoutingResult hundredths
answer = record {
  model = config "c" 2 1;
  reason = "policy=cost_optimized";
  alternatives_tried = "a" ∷ [];
}

select_run : (select hundredths no_repr router any_model).0 ≡ ok answer
unfolding select available candidates list_enabled is_listed tried_unavailable apply_policy least
select_run = refl

get_run : get "b" (register (config "b" 3 0) []) ≡ some (config "b" 3 0)
unfolding get register Dict.get Dict.put
get_run = refl

order : IsOrder (λ (a b : ℕ). hundredths.lt a b)
order = record {
  irrefl = λ a. ground arith;
  trans = λ a b c h k. ground arith;
  asym = λ a b h. ground arith;
}

select-IsEligible_example :
    IsEligible hundredths router any_model (config "c" 2 1)
    × IsBest hundredths cost_optimized (IsEligible hundredths router any_model) (config "c" 2 1)
select-IsEligible_example =
    select-IsEligible hundredths router any_model no_repr order answer select_run

b-IsEligible : IsEligible hundredths router in_turn (config "b" 3 0)
unfolding is_listed
b-IsEligible = record { registered = inl refl; listed = refl; not_excluded = refl; answers = refl }

select-turns_example :
    (k : ℕ) × (k < length (available hundredths router in_turn))
    × (a : RoutingResult hundredths) × ((select hundredths no_repr
          (turns hundredths no_repr in_turn k router)
          in_turn).0
        ≡ ok a)
    × (a.model ≡ config "b" 3 0)
select-turns_example =
    select-turns hundredths no_repr in_turn router (config "b" 3 0) refl b-IsEligible

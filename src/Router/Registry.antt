-- ===== src/Router/Registry.antt =====
-- `ModelConfig` and `ModelRegistry` of model_router.py.
pub mod Laws
use agentcook.Prelude.{
  String, ℕ, Bool, true, false, not, ◌&&◌, ◌||◌, List, [], ◌∷◌, Option, none, some, any, keep_if,
  length, str_eq,
}
use agentcook.Prelude.Strings.{truthy}
use agentcook.Prelude.Dict
use agentcook.Prelude.Dict.{Dict}

-- `RoutingPolicy`.
pub data RoutingPolicy : Type 0 where
  cost_optimized quality_first round_robin fallback_chain : RoutingPolicy

pub record ModelConfig (Float : Type 0) : Type 0 where
  pub name : String
  pub provider : String
  pub cost_per_1k : Float
  pub max_tokens : ℕ
  pub quality_score : ℕ
  pub fallback_order : ℕ
  pub tags : List String
  pub enabled : Bool

abbrev pub contains : List String → String → Bool
contains names name = any (λ n. str_eq n name) names

-- `not (wanted and actual != wanted)`, for an optional filter text: none and "" filter nothing.
abbrev pub passes : Option String → (String → Bool) → Bool
passes none holds = true
passes (some wanted) holds = not (truthy wanted) || holds wanted

abbrev pub ModelRegistry : Type 0 → Type 0
ModelRegistry Float = Dict (ModelConfig Float)

module _ {Float : Type 0} where
  unfoldable pub register : ModelConfig Float → ModelRegistry Float → ModelRegistry Float
  register config models = Dict.put config.name config models

  unfoldable pub unregister :
      String → ModelRegistry Float → Option (ModelConfig Float) × ModelRegistry Float
  unregister name models = (Dict.get name models, Dict.remove name models)

  unfoldable pub get : String → ModelRegistry Float → Option (ModelConfig Float)
  get name models = Dict.get name models

  -- The three `continue`s of `list_enabled`.
  unfoldable pub is_listed : Option String → Option String → ModelConfig Float → Bool
  is_listed provider tag m =
      m.enabled && passes provider (λ p. str_eq m.provider p) && passes tag (contains m.tags)

  unfoldable pub list_enabled :
      Option String → Option String → ModelRegistry Float → List (ModelConfig Float)
  list_enabled provider tag models = keep_if (is_listed provider tag) (Dict.values models)

  unfoldable pub count : ModelRegistry Float → ℕ
  count models = length models

  unfoldable pub clear : ModelRegistry Float → ModelRegistry Float
  clear models = []

-- ===== src/Router/Choice.antt =====
-- `ModelRouter._apply_policy`: one model of a list that is not empty.
pub mod Laws
use agentcook.Prelude.{
  String, ℕ, ◌+◌, ◌%◌, Bool, List, [], ◌∷◌, Option, none, some, length, get_elem?, ltb,
  if◌then◌else◌,
}
use agentcook.Prelude.Floats.{Floats}
use agentcook.Prelude.Sorting.{str_le, sort_by}
use agentcook.Router.Registry.{
  RoutingPolicy, cost_optimized, quality_first, round_robin, fallback_chain, ModelConfig,
}

module _ {A : Type 0} (less : A → A → Bool) where
  -- `min(xs, key=...)` keeps the first of the least; `less` compares the keys.
  unfoldable pub least_from : A → List A → A
  least_from best [] = best
  least_from best (x ∷ xs) = least_from (if less x best then x else best) xs

  unfoldable pub least : List A → Option A
  unfolding least_from
  least [] = none
  least (x ∷ xs) = some (least_from x xs)

module _ (fl : Floats) where
  open fl use {Float}

  abbrev pub by_name : List (ModelConfig Float) → List (ModelConfig Float)
  by_name models = sort_by (λ a b. str_le a.name b.name) models

  -- The chosen model, none where Python's `min`, `max` or `%` would raise, and the new counter.
  -- `max` is `least` with the comparison turned round.
  unfoldable pub apply_policy :
      RoutingPolicy → ℕ → List (ModelConfig Float) → Option (ModelConfig Float) × ℕ
  apply_policy cost_optimized counter models =
      (least (λ a b. fl.lt a.cost_per_1k b.cost_per_1k) models, counter)
  apply_policy quality_first counter models =
      (least (λ a b. ltb b.quality_score a.quality_score) models, counter)
  apply_policy round_robin counter models =
      (get_elem? (by_name models) (counter % length models), counter + 1)
  apply_policy fallback_chain counter models =
      (least (λ a b. ltb a.fallback_order b.fallback_order) models, counter)

-- ===== src/Pruning/Composite.antt =====
-- `CompositePruning` of pruning.py. A strategy is its `prune` method.
pub mod Laws
use mathlib.Core.List.Sublistᴰ
use mathlib.Core.List.{Sublistᴰ}
use agentcook.Prelude.{
  ℕ, ◌+◌, ◌≡◌, refl, ◌∙◌, ap, List, [], ◌∷◌, ◌++◌, arith, length, is_empty, if◌then◌else◌, keep_if,
}
use agentcook.Prelude.Results.{Result, ok, raise, value_error}
use agentcook.Chat.{Message, nums, is_system}
use agentcook.Pruning.Scan.{PruningResult}
use agentcook.Pruning.Scan.Laws.{IsFaithful}

abbrev pub Strategy : Type 0
Strategy = List Message → PruningResult

pub record CompositePruning : Type 0 where
  pub strategies : List Strategy

unfoldable pub init : List Strategy → Result CompositePruning
init strategies =
    if is_empty strategies
    then raise (value_error "CompositePruning requires at least one strategy")
    else ok (record { strategies = strategies })

-- The loop: the messages left, the total of the turns dropped, and the number dropped by each stage.
unfoldable pub stages : List Strategy → List Message → ℕ → List ℕ → List Message × ℕ × List ℕ
stages [] current total per_stage = (current, total, per_stage)
stages (strategy ∷ rest) current total per_stage =
    let r = strategy current in
    stages rest r.messages (total + r.dropped_count) (per_stage ++ r.dropped_count ∷ [])

unfoldable pub prune : CompositePruning → List Message → PruningResult
unfolding stages
prune c messages =
    let (current, total, per_stage) = stages c.strategies messages 0 [] in
    record {
      messages = current;
      dropped_count = total;
      metadata = ("per_stage_dropped", nums per_stage) ∷ [];
    }

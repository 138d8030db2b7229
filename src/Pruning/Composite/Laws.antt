-- ===== src/Pruning/Composite/Laws.antt =====
-- What `CompositePruning.prune` inherits from its strategies.
use mathlib.Core.List.Sublistᴰ
use mathlib.Core.List.{Sublistᴰ}
use agentcook.Prelude.{ℕ, ◌+◌, ◌≡◌, refl, ◌∙◌, List, [], ◌∷◌, ◌++◌, arith, length, keep_if}
use agentcook.Chat.{Message, nums, is_system}
use agentcook.Pruning.Composite.{Strategy, CompositePruning, stages, prune}

-- A strategy that keeps turns as they are, and counts what it drops.
pub record IsPruning (strategy : Strategy) : Type 0 where
  pub sublist : (messages : List Message) → Sublistᴰ (strategy messages).messages messages
  pub counted :
      (messages : List Message)
      → length (strategy messages).messages + (strategy messages).dropped_count ≡ length messages
  pub systems :
      (messages : List Message)
      → keep_if is_system (strategy messages).messages ≡ keep_if is_system messages

abbrev pub AllPruning : List Strategy → Type 0
AllPruning [] = Unit
AllPruning (s ∷ ss) = IsPruning s × AllPruning ss

abbrev pub sum : List ℕ → ℕ
sum [] = 0
sum (n ∷ ns) = n + sum ns

sum-snoc : (ns : List ℕ) (n : ℕ) → sum (ns ++ n ∷ []) ≡ sum ns + n
sum-snoc [] n = omega arith
sum-snoc (k ∷ ns) n = omega (arith, sum-snoc ns n)

stages-sublist :
    (ss : List Strategy) (ms : List Message) (total : ℕ) (ns : List ℕ)
    → AllPruning ss
    → Sublistᴰ (stages ss ms total ns).0 ms
unfolding stages
stages-sublist [] ms total ns h = Sublistᴰ.refl ms
stages-sublist (s ∷ ss) ms total ns h =
    Sublistᴰ.trans (stages-sublist ss (s ms).messages _ _ h.1) (h.0.sublist ms)

stages-counted :
    (ss : List Strategy) (ms : List Message) (total : ℕ) (ns : List ℕ)
    → AllPruning ss
    → length (stages ss ms total ns).0 + (stages ss ms total ns).1 ≡ length ms + total
unfolding stages
stages-counted [] ms total ns h = refl
stages-counted (s ∷ ss) ms total ns h = omega (
  arith,
  stages-counted ss (s ms).messages (total + (s ms).dropped_count) (ns ++ (s ms).dropped_count ∷ [])
      h.1,
  h.0.counted ms,
)

stages-sum :
    (ss : List Strategy) (ms : List Message) (total : ℕ) (ns : List ℕ)
    → sum ns ≡ total
    → sum (stages ss ms total ns).2 ≡ (stages ss ms total ns).1
unfolding stages
stages-sum [] ms total ns e = e
stages-sum (s ∷ ss) ms total ns e =
    stages-sum ss (s ms).messages (total + (s ms).dropped_count) (ns ++ (s ms).dropped_count ∷ [])
      (omega (arith, sum-snoc ns (s ms).dropped_count))

stages-systems :
    (ss : List Strategy) (ms : List Message) (total : ℕ) (ns : List ℕ)
    → AllPruning ss
    → keep_if is_system (stages ss ms total ns).0 ≡ keep_if is_system ms
unfolding stages
stages-systems [] ms total ns h = refl
stages-systems (s ∷ ss) ms total ns h = stages-systems ss (s ms).messages _ _ h.1 ∙ h.0.systems ms

-- If each strategy keeps turns as they are, keeps the system turns and counts what it drops, so does
-- `CompositePruning.prune`; and the numbers reported for the stages add up to the total.
pub prune-IsPruning :
    (c : CompositePruning)
    → AllPruning c.strategies
    → IsPruning (prune c)
      × ((messages : List Message)
          → (per_stage : List ℕ) × ((prune c messages).metadata
              ≡ ("per_stage_dropped", nums per_stage) ∷ [])
            × (sum per_stage ≡ (prune c messages).dropped_count))
unfolding prune
prune-IsPruning c h = (
  record {
    sublist = λ ms. stages-sublist c.strategies ms 0 [] h;
    counted = λ ms. omega (arith, stages-counted c.strategies ms 0 [] h);
    systems = λ ms. stages-systems c.strategies ms 0 [] h;
  },
  λ ms. ((stages c.strategies ms 0 []).2, refl, stages-sum c.strategies ms 0 [] refl),
)

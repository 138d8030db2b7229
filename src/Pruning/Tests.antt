-- ===== src/Pruning/Tests.antt =====
-- Runs of the pruning strategies on small histories, and the theorems at those.
use Prim.Native.String
use agentcook.Prelude.{String, ℕ, ◌*◌, ◌≡◌, refl, List, [], ◌∷◌, none, some, arith}
use agentcook.Prelude.Strings.{join}
use agentcook.Chat.{Value, nums, system, user, assistant, tool, Message}
use agentcook.Memory.Embedding.{EmbeddingProvider}
use agentcook.Samples.{message, hundredths}
use agentcook.Pruning.Scan.{scan}
use agentcook.Pruning.Scan.Laws.{IsFaithful}
use agentcook.Pruning.Duplicate
use agentcook.Pruning.Duplicate.{DuplicatePruning, judge, tool_call_signature}
use agentcook.Pruning.Duplicate.Laws.{prune-IsFaithful}
use agentcook.Pruning.Duplicate.Repeats.{prune-repeat}
use agentcook.Pruning.Relevance
use agentcook.Pruning.Relevance.{RelevancePruning, score, visit, last_user_text}
use agentcook.Pruning.Composite
use agentcook.Pruning.Composite.{CompositePruning, stages}
use agentcook.Pruning.Composite.Laws.{IsPruning, sum, prune-IsPruning}

abbrev call : Message
call = record {
  role = assistant;
  content = "";
  name = none;
  tool_calls = some (
      record {
        id = "1";
        name = "search";
        arguments = ("q", Value.text "sea") ∷ ("n", Value.num 3) ∷ [];
      }
      ∷ []);
  tool_call_id = none;
  metadata = [];
}

abbrev first_key : List (String × Value) → String
first_key [] = ""
first_key ((k, v) ∷ rest) = k

abbrev protect_one : DuplicatePruning
protect_one = record { protect_recent = 1 }

-- The second call repeats the first, and the second "go" the first, with the calls between.
abbrev history : List Message
history =
    message system "be kind"
    ∷ message user "go"
    ∷ call
    ∷ call
    ∷ message user "go"
    ∷ message tool "found"
    ∷ []

duplicate_run : Duplicate.prune first_key protect_one history ≡ record {
  messages = message system "be kind" ∷ message user "go" ∷ call ∷ message tool "found" ∷ [];
  dropped_count = 2;
  metadata = [];
}
unfolding Duplicate.prune scan judge tool_call_signature join
duplicate_run = refl

prune-IsFaithful_example : IsFaithful 1 history (Duplicate.prune first_key protect_one history)
prune-IsFaithful_example = prune-IsFaithful first_key protect_one history

prune-repeat_example :
    (Duplicate.prune first_key protect_one history).messages
    ≡ (Duplicate.prune first_key protect_one (
        message system "be kind"
        ∷ message user "go"
        ∷ call
        ∷ call
        ∷ message tool "found"
        ∷ [])).messages
prune-repeat_example =
    prune-repeat first_key protect_one (message system "be kind" ∷ []) (message user "go")
      (call ∷ call ∷ []) (message user "go") (message tool "found" ∷ []) refl
      ((refl, refl), ((refl, refl), tt)) refl refl (omega arith) (omega arith)

-- A text is as similar to the anchor as the two are long.
abbrev by_length : EmbeddingProvider ℕ
by_length = record { Vector = ℕ; embed = λ t. String.count t; similarity = λ a b. a * b }

abbrev relevance : RelevancePruning hundredths
relevance = record {
  embedder = by_length;
  min_score = 3;
  protect_recent = 1;
  half_life = 20;
  anchor_text = none;
}

relevance_run : Relevance.prune hundredths relevance history ≡ record {
  messages =
      message system "be kind"
      ∷ message user "go"
      ∷ call
      ∷ call
      ∷ message user "go"
      ∷ message tool "found"
      ∷ [];
  dropped_count = 0;
  metadata = [];
}
unfolding Relevance.prune scan visit score last_user_text
relevance_run = refl

abbrev duplicate_then_duplicate : CompositePruning
duplicate_then_duplicate = record {
  strategies =
      Duplicate.prune first_key protect_one
      ∷ Duplicate.prune first_key (record { protect_recent = 0 })
      ∷ [];
}

duplicate-IsPruning : (p : DuplicatePruning) → IsPruning (Duplicate.prune first_key p)
duplicate-IsPruning p = record {
  sublist = λ ms. (prune-IsFaithful first_key p ms).sublist;
  counted = λ ms. (prune-IsFaithful first_key p ms).counted;
  systems = λ ms. (prune-IsFaithful first_key p ms).systems;
}

prune-IsPruning_example :
    IsPruning (Composite.prune duplicate_then_duplicate)
    × ((messages : List Message)
        → (per_stage : List ℕ) × ((Composite.prune duplicate_then_duplicate messages).metadata
            ≡ ("per_stage_dropped", nums per_stage) ∷ [])
          × (sum per_stage ≡ (Composite.prune duplicate_then_duplicate messages).dropped_count))
prune-IsPruning_example =
    prune-IsPruning duplicate_then_duplicate
      (duplicate-IsPruning protect_one, (duplicate-IsPruning (record { protect_recent = 0 }), tt))

-- ===== src/Compaction/Tests.antt =====
-- Runs of the compaction strategies on small histories, and the theorems at those.
use agentcook.Prelude.{
  String, ◌≤◌, ◌<◌, ◌≡◌, ◌⊎◌, refl, true, false, List, [], ◌∷◌, ◌++◌, none, arith, length, not,
  is_empty,
}
use agentcook.Prelude.Results.{Result, ok, raise, value_error}
use agentcook.Chat.{Value, system, user, assistant, Message}
use agentcook.Prelude.Strings.{show}
use agentcook.Samples.{message, hundredths}
use agentcook.Compaction.Count.{
  CompactionResult, heuristic, custom, count, count_with, count_message, summarize,
}
use agentcook.Compaction.Summary
use agentcook.Compaction.Summary.{SummaryCompaction}
use agentcook.Compaction.Summary.Laws.{Outcome, compact-Outcome}
use agentcook.Compaction.Window
use agentcook.Compaction.Window.{SlidingWindowCompaction}
use agentcook.Compaction.Budget
use agentcook.Compaction.Budget.{TokenBudgetPruning, recent_of, summary_of}
use agentcook.Compaction.Budget.Laws.{compact-split, count-compact}

abbrev history : List Message
history =
    message user "plan a trip"
    ∷ message assistant "where to?"
    ∷ message user "to the sea"
    ∷ message assistant "booked"
    ∷ []

abbrev persona : List Message
persona = message system "you are kind" ∷ []

abbrev offline : String → Result String
offline prompt = raise (value_error "no model")

abbrev no_arguments : List (String × Value) → String
no_arguments arguments = "{}"

abbrev summary_strategy : SummaryCompaction hundredths
summary_strategy = record {
  summarizer = summarize offline;
  counter = heuristic;
  preamble = persona;
  trigger_ratio = 80;
  keep_recent = 2;
  min_to_summarize = 2;
}

abbrev window_strategy : SlidingWindowCompaction hundredths
window_strategy = record { window = 2; counter = heuristic; preamble = persona; trigger_ratio = 85 }

-- One token for each message, and a budget of two.
abbrev budget_strategy : TokenBudgetPruning
budget_strategy = record {
  budget = 2;
  counter = custom (λ t. 1);
  summarizer = none;
  preamble = persona;
  min_recent = 1;
}

-- The summarizer's failure becomes a summary.
abbrev summary_result : CompactionResult
summary_result = record {
  messages =
      persona
      ++ (Summary.summary_message hundredths "[Summary unavailable: 2 messages pruned]"
            (message user "plan a trip" ∷ message assistant "where to?" ∷ [])
          ∷ message user "to the sea"
          ∷ message assistant "booked"
          ∷ []);
  dropped_count = 2;
  summary_inserted = true;
  metadata = [];
}

summary_run : Summary.compact hundredths summary_strategy history ≡ ok summary_result
unfolding Summary.compact summarize show
summary_run = refl

compact-Outcome_example : Outcome summary_strategy history summary_result
compact-Outcome_example =
    compact-Outcome hundredths summary_strategy history (λ e. omega arith) summary_result
      summary_run

window_run : (Window.compact hundredths window_strategy history).dropped_count ≡ 2
unfolding Window.compact
window_run = refl

-- One turn is kept: the preamble takes one token of the two.
abbrev budget_result : CompactionResult
budget_result = record {
  messages = persona ++ (message assistant "booked" ∷ []);
  dropped_count = 3;
  summary_inserted = false;
  metadata = ("strategy", Value.text "token_budget") ∷ ("budget", Value.num 2) ∷ [];
}

budget_run : Budget.compact no_arguments budget_strategy history ≡ ok budget_result
unfolding Budget.compact recent_of Budget.pruned_of summary_of count count_with count_message
budget_run = refl

budget_kept : recent_of no_arguments budget_strategy history ≡ message assistant "booked" ∷ []
unfolding recent_of count count_with count_message
budget_kept = refl

over_budget : 2 < count no_arguments (custom (λ t. 1)) history
unfolding count count_with count_message
over_budget = omega arith

compact-split_example :
    (Budget.pruned_of no_arguments budget_strategy history
        ++ recent_of no_arguments budget_strategy history
      ≡ history)
    × (3 ≡ length (Budget.pruned_of no_arguments budget_strategy history))
    × (summary : List Message) × (summary_of none
          (Budget.pruned_of no_arguments budget_strategy history)
        ≡ ok summary)
    × (budget_result.messages
        ≡ persona ++ (summary ++ recent_of no_arguments budget_strategy history))
    × (false ≡ not (is_empty summary))
compact-split_example =
    compact-split no_arguments budget_strategy history budget_result over_budget budget_run

count-compact_example :
    (length (recent_of no_arguments budget_strategy history) ≤ 1)
    ⊎ (count no_arguments (custom (λ t. 1)) budget_result.messages ≤ 2)
count-compact_example =
    count-compact no_arguments budget_strategy history budget_result refl over_budget budget_run

persona_fits : Budget.should_compact no_arguments budget_strategy persona 8000 ≡ false
unfolding Budget.should_compact count count_with count_message
persona_fits = refl

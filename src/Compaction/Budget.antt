-- ===== src/Compaction/Budget.antt =====
-- `TokenBudgetPruning` of compaction.py.
pub mod Laws
use agentcook.Prelude.{
  String, ℕ, ◌+◌, ◌-◌, Bool, true, false, List, [], ◌∷◌, ◌++◌, Option, none, some, not, ◌&&◌, ◌||◌,
  ltb, leb, length, take, reverse, is_empty, if◌then◌else◌,
}
use agentcook.Prelude.Strings.{fmt, show}
use agentcook.Prelude.Results.{Result, ok, raise, ◌>>=◌, value_error}
use agentcook.Chat.{Value, text, num, Message, system}
use agentcook.Compaction.Count.{CompactionResult, TokenCounter, count}

pub record TokenBudgetPruning : Type 0 where
  pub budget : ℕ
  pub counter : TokenCounter
  pub summarizer : Option (List Message → Result String)
  pub preamble : List Message
  pub min_recent : ℕ

unfoldable pub init :
    ℕ
    → TokenCounter
    → Option (List Message → Result String)
    → List Message
    → ℕ
    → Result TokenBudgetPruning
init budget counter summarizer preamble least =
    if ltb budget 100
    then raise (value_error "budget must be >= 100 tokens")
    else if ltb least 1
    then raise (value_error "min_recent_turns must be >= 1")
    else ok (record {
      budget = budget;
      counter = counter;
      summarizer = summarizer;
      preamble = preamble;
      min_recent = least;
    })

abbrev pub summary_message : String → List Message → Message
summary_message summary pruned = record {
  role = system;
  content =
      fmt ("[Context summary — " ∷ show (length pruned) ∷ " messages pruned]\n" ∷ summary ∷ []);
  name = none;
  tool_calls = none;
  tool_call_id = none;
  metadata =
      ("compaction", text "token_budget_summary") ∷ ("covers_messages", num (length pruned)) ∷ [];
}

-- The summary of the pruned messages, if there are any and a summarizer is given.
unfoldable pub summary_of :
    Option (List Message → Result String) → List Message → Result (List Message)
summary_of none pruned = ok []
summary_of (some summarizer) pruned =
    if is_empty pruned
    then ok []
    else (do summary ← summarizer pruned; ok (summary_message summary pruned ∷ []))

module _ (str_arguments : List (String × Value) → String) where
  unfoldable pub should_compact : TokenBudgetPruning → List Message → ℕ → Bool
  should_compact p messages window = ltb p.budget (count str_arguments p.counter messages)

  -- The loop over the reversed messages. `remaining_budget` may be negative in the source: its
  -- tests are written with the tokens of the preamble on the other side.
  unfoldable pub collect : TokenBudgetPruning → ℕ → List Message → List Message → ℕ → List Message
  collect p preamble_tokens [] recent recent_tokens = recent
  collect p preamble_tokens (msg ∷ msgs) recent recent_tokens =
      let msg_tok = count str_arguments p.counter (msg ∷ []) in
      let rest = collect p preamble_tokens msgs (msg ∷ recent) (recent_tokens + msg_tok) in
      if ltb (length recent) p.min_recent
        || leb (recent_tokens + msg_tok + preamble_tokens) p.budget
      then (if leb p.min_recent (length (msg ∷ recent))
            && leb p.budget (recent_tokens + msg_tok + preamble_tokens)
          then msg ∷ recent
          else rest)
      else recent

  unfoldable pub recent_of : TokenBudgetPruning → List Message → List Message
  unfolding collect
  recent_of p messages =
      collect p (count str_arguments p.counter p.preamble) (reverse messages) [] 0

  unfoldable pub pruned_of : TokenBudgetPruning → List Message → List Message
  pruned_of p messages = take (length messages - length (recent_of p messages)) messages

  unfoldable pub compact : TokenBudgetPruning → List Message → Result CompactionResult
  compact p messages =
      let recent = recent_of p messages in
      let pruned = pruned_of p messages in
      if leb (count str_arguments p.counter messages) p.budget
      then ok (record {
        messages = messages;
        dropped_count = 0;
        summary_inserted = false;
        metadata = [];
      })
      else (do
        summary ← summary_of p.summarizer pruned
        ok (record {
          messages = p.preamble ++ (summary ++ recent);
          dropped_count = length pruned;
          summary_inserted = not (is_empty summary);
          metadata = ("strategy", text "token_budget") ∷ ("budget", num p.budget) ∷ [];
        }))

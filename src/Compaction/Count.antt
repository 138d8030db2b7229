-- ===== src/Compaction/Count.antt =====
-- Token counting (`HeuristicTokenCounter`, `_count`), the result type, and `MemorySummarizer`.
use Prim.Native.String
use agentcook.Prelude.{
  String, ℕ, zero, suc, ◌+◌, ◌/◌, max, Bool, List, [], ◌∷◌, ◌++◌, map, none, some, arith, ◌≡◌,
  length, if◌then◌else◌,
}
use agentcook.Prelude.Strings.{fmt, truthy, join, show}
use agentcook.Prelude.Results.{Result, ok, raise}
use agentcook.Chat.{Value, Metadata, Role, system, user, assistant, tool, ToolCall, Message}

pub record CompactionResult : Type 0 where
  pub messages : List Message
  pub dropped_count : ℕ
  pub summary_inserted : Bool
  pub metadata : Metadata

-- An injected counter is a function of the text. The default one is told apart by its class.
pub data TokenCounter : Type 0 where
  heuristic : TokenCounter
  custom : (String → ℕ) → TokenCounter

-- `HeuristicTokenCounter.count`, with `_CHARS_PER_TOKEN = 4`.
unfoldable pub heuristic_count : String → ℕ
heuristic_count t = if truthy t then max 1 (String.count t / 4) else 0

module _ (str_arguments : List (String × Value) → String) where
  -- The loops of `count_messages` and `_count` have one text, up to the counter.
  unfoldable pub count_calls : (String → ℕ) → List ToolCall → ℕ
  count_calls f [] = 0
  count_calls f (tc ∷ tcs) = f tc.name + f (str_arguments tc.arguments) + count_calls f tcs

  unfoldable pub count_message : (String → ℕ) → Message → ℕ
  count_message f m =
      f m.content + elim m.tool_calls [ none ↦ 0 | some calls ↦ count_calls f calls ]

  unfoldable pub count_with : (String → ℕ) → List Message → ℕ
  count_with f [] = 0
  count_with f (m ∷ ms) = count_message f m + count_with f ms

  -- `HeuristicTokenCounter.count_messages`.
  unfoldable pub count_messages : List Message → ℕ
  count_messages ms = count_with heuristic_count ms

  -- `_count`.
  unfoldable pub count : TokenCounter → List Message → ℕ
  unfolding count_messages
  count heuristic ms = count_messages ms
  count (custom f) ms = count_with f ms

  count_with-append :
      (f : String → ℕ) (xs ys : List Message)
      → count_with f (xs ++ ys) ≡ count_with f xs + count_with f ys
  unfolding count_with
  count_with-append f [] ys = omega arith
  count_with-append f (x ∷ xs) ys = omega (arith, count_with-append f xs ys)

  pub count-append :
      (c : TokenCounter) (xs ys : List Message) → count c (xs ++ ys) ≡ count c xs + count c ys
  unfolding count
  count-append heuristic xs ys = count_with-append heuristic_count xs ys
  count-append (custom f) xs ys = count_with-append f xs ys

  pub count-nil : (c : TokenCounter) → count c [] ≡ 0
  unfolding count count_with
  count-nil heuristic = omega arith
  count-nil (custom f) = omega arith

  pub count-cons :
      (c : TokenCounter) (m : Message) (ms : List Message)
      → count c (m ∷ ms) ≡ count c (m ∷ []) + count c ms
  count-cons c m ms = count-append c (m ∷ []) ms

abbrev role_value : Role → String
role_value system = "system"
role_value user = "user"
role_value assistant = "assistant"
role_value tool = "tool"

-- `text[:n]`.
take_chars : ℕ → String → String
take_chars zero t = ""
take_chars (suc n) String.[] = ""
take_chars (suc n) (String.◌∷◌ c t) = String.◌∷◌ c (take_chars n t)

preview : Message → String
unfolding take_chars
preview m =
    fmt
      (role_value m.role ∷ ": " ∷ (if truthy m.content then take_chars 200 m.content else "") ∷ [])

abbrev prompt_head : String
prompt_head =
    "Summarize the following conversation in 2-3 concise sentences, preserving key facts, decisions, and action items:\n\n"

-- `MemorySummarizer.summarize`: an exception of the injected callable becomes a fixed text.
unfoldable pub summarize : (String → Result String) → List Message → Result String
unfolding preview
summarize fn messages = elim (fn (fmt (prompt_head ∷ join "\n" (map preview messages) ∷ []))) [
  | ok result ↦ ok result
  | raise e ↦
      ok (fmt ("[Summary unavailable: " ∷ show (length messages) ∷ " messages pruned]" ∷ []))
]

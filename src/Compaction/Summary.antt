-- ===== src/Compaction/Summary.antt =====
-- `SummaryCompaction` of compaction.py.
pub mod Laws
use agentcook.Prelude.{
  String, ℕ, ◌+◌, Bool, true, false, List, [], ◌∷◌, ◌++◌, not, ◌&&◌, ltb, leb, length, last_slice,
  init_slice, if◌then◌else◌,
}
use agentcook.Prelude.Strings.{fmt, show}
use agentcook.Prelude.Floats.{Floats}
use agentcook.Prelude.Results.{Result, ok, raise, ◌>>=◌, value_error}
use agentcook.Chat.{Value, text, num, Message, system}
use agentcook.Compaction.Count.{CompactionResult, TokenCounter, count}
use mathlib.Core.Option.{none}

module _ (fl : Floats) where
  open fl use {Float}

  pub record SummaryCompaction : Type 0 where
    pub summarizer : List Message → Result String
    pub counter : TokenCounter
    pub preamble : List Message
    pub trigger_ratio : Float
    pub keep_recent : ℕ
    pub min_to_summarize : ℕ

  -- `__init__`: the checks, in their order.
  unfoldable pub init :
      (List Message → Result String)
      → TokenCounter
      → List Message
      → Float
      → ℕ
      → ℕ
      → Result SummaryCompaction
  init summarizer counter preamble ratio keep least =
      if not (fl.lt fl.zero ratio && fl.le ratio fl.one)
      then raise (value_error "trigger_ratio must be in (0, 1]")
      else if ltb keep 1
      then raise (value_error "keep_recent must be >= 1")
      else if ltb least 1
      then raise (value_error "min_to_summarize must be >= 1")
      else ok (record {
        summarizer = summarizer;
        counter = counter;
        preamble = preamble;
        trigger_ratio = ratio;
        keep_recent = keep;
        min_to_summarize = least;
      })

  unfoldable pub should_compact :
      (List (String × Value) → String) → SummaryCompaction → List Message → ℕ → Result Bool
  should_compact str_arguments s messages window =
      if leb window 0
      then raise (value_error "model_window_tokens must be > 0")
      else if leb (length messages) s.keep_recent
      then ok false
      else ok (leb (fl.int_mul window s.trigger_ratio) (count str_arguments s.counter messages))

  -- The message that stands for the older turns.
  abbrev pub summary_message : String → List Message → Message
  summary_message summary older = record {
    role = system;
    content = fmt ("[Compacted history summary]\n" ∷ summary ∷ []);
    name = none;
    tool_calls = none;
    tool_call_id = none;
    metadata = ("compaction", text "summary") ∷ ("covers_messages", num (length older)) ∷ [];
  }

  unfoldable pub compact : SummaryCompaction → List Message → Result CompactionResult
  compact s messages =
      let recent = last_slice s.keep_recent messages in
      let older = init_slice s.keep_recent messages in
      if leb (length messages) s.keep_recent
      then ok (record {
        messages = messages;
        dropped_count = 0;
        summary_inserted = false;
        metadata = [];
      })
      else if ltb (length older) s.min_to_summarize
      then ok (record {
        messages = s.preamble ++ (older ++ recent);
        dropped_count = 0;
        summary_inserted = false;
        metadata = [];
      })
      else (do
        summary ← s.summarizer older
        ok (record {
          messages = s.preamble ++ (summary_message summary older ∷ recent);
          dropped_count = length older;
          summary_inserted = true;
          metadata = [];
        }))

-- ===== src/Compaction/Window.antt =====
-- `SlidingWindowCompaction` of compaction.py.
pub mod Laws
use agentcook.Prelude.{
  String, ℕ, ◌+◌, ◌-◌, Bool, true, false, List, [], ◌++◌, not, ◌&&◌, ltb, leb, length, last_slice,
  if◌then◌else◌,
}
use agentcook.Prelude.Floats.{Floats}
use agentcook.Prelude.Results.{Result, ok, raise, value_error}
use agentcook.Chat.{Value, Message}
use agentcook.Compaction.Count.{CompactionResult, TokenCounter, count}

module _ (fl : Floats) where
  open fl use {Float}

  pub record SlidingWindowCompaction : Type 0 where
    pub window : ℕ
    pub counter : TokenCounter
    pub preamble : List Message
    pub trigger_ratio : Float

  unfoldable pub init : ℕ → TokenCounter → List Message → Float → Result SlidingWindowCompaction
  init window counter preamble ratio =
      if ltb window 1
      then raise (value_error "window_size must be >= 1")
      else if not (fl.lt fl.zero ratio && fl.le ratio fl.one)
      then raise (value_error "trigger_ratio must be in (0, 1]")
      else ok (record {
        window = window;
        counter = counter;
        preamble = preamble;
        trigger_ratio = ratio;
      })

  unfoldable pub should_compact :
      (List (String × Value) → String) → SlidingWindowCompaction → List Message → ℕ → Result Bool
  should_compact str_arguments s messages window =
      if leb window 0
      then raise (value_error "model_window_tokens must be > 0")
      else if leb (length messages) s.window
      then ok false
      else ok (leb (fl.int_mul window s.trigger_ratio) (count str_arguments s.counter messages))

  unfoldable pub compact : SlidingWindowCompaction → List Message → CompactionResult
  compact s messages =
      let kept = last_slice s.window messages in
      let dropped = length messages - length kept in
      if leb (length messages) s.window
      then record {
        messages = messages;
        dropped_count = 0;
        summary_inserted = false;
        metadata = [];
      }
      else record {
        messages = s.preamble ++ kept;
        dropped_count = dropped;
        summary_inserted = false;
        metadata = [];
      }
